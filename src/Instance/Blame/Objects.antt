-- ===== src/Instance/Blame/Objects.antt =====
-- What an `Instance` of any of the three devices throws for `CL_CHECK`.
use fpga_runtime.Common.{Text}
use fpga_runtime.Exec.{Exec}
use fpga_runtime.Exec.Blame
use fpga_runtime.Exec.Blame.{bind-Explains}
use fpga_runtime.Opencl.{Library}
use fpga_runtime.XilinxDevice
use fpga_runtime.IntelDevice
use fpga_runtime.CosimDevice
use fpga_runtime.OpenclDevice.Profile
use fpga_runtime.OpenclDevice.Blame.{Blamed}
use fpga_runtime.Instance.Object.{Runtime, Object, xilinx_object, intel_object, cosim_object}

-- The same of an object: its last request was turned down, and this is the text for the answer.
abbrev pub ObjectBlamed : Library → Text → Object → Type 0
ObjectBlamed lib name (xilinx_object s) = Blamed lib name s.calls
ObjectBlamed lib name (intel_object s) = Blamed lib name s.calls
ObjectBlamed lib name (cosim_object s) = ⊥

module _ (r : Runtime) where
  abbrev ObjectExplains : {A : Type 0} → Exec Object A → Type 0
  ObjectExplains m = Blame.Explains (ObjectBlamed r.lib) m
