-- ===== src/Instance/Program.antt =====
-- The function `Invoke` of src/frt.h: an `Instance` is constructed from a file, and invoked.
pub mod Objects
pub mod Simulating
pub mod Repetition
use fpga_runtime.Common.{List, Text}
use fpga_runtime.Exec.{Exec, Result, ok, err}
use fpga_runtime.Instance.{Arg}
use fpga_runtime.Instance.Object.{Runtime, Process, Object, construct, invoke_object}

-- The object that is returned, with the arguments as they are attached.
abbrev pub with_object : Object → Result (List Arg) → Result (Object × List Arg)
with_object o (ok args) = ok (o, args)
with_object o (err e) = err e

module _ (r : Runtime) where
  -- `Invoke` on what the constructor gives.
  abbrev pub invoke_made : List Arg → Result Object → Exec Process (Object × List Arg)
  invoke_made args (ok o) p =
      let (result, o') = invoke_object r args o in (with_object o' result, p)
  invoke_made args (err e) p = (err e, p)

  unfoldable pub invoke_bitstream :
      (path binary : Text) → List Arg → Exec Process (Object × List Arg)
  invoke_bitstream path binary args p =
      let (made, p') = construct r path binary p in invoke_made args made p'
