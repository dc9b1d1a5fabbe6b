-- ===== src/Instance/Blame.antt =====
-- What a device that explains its errors for `CL_CHECK` throws when a host calls it.
pub mod Objects
use fpga_runtime.Common.{
  ℕ, ◌+◌, Bool, true, false, List, [], ◌∷◌, if◌then◌else◌, Option, none, some, Text,
}
use fpga_runtime.Common.Int.{ℤ, pos}
use fpga_runtime.Exec.{
  Exec, Result, ok, err, cl_error, runtime_error, out_of_range, fatal, command_failed, undefined,
  pure, ◌>>=◌, ◌>>◌, require,
}
use fpga_runtime.Exec.Blame
use fpga_runtime.Exec.Blame.{IsExplained, bind-Explains, require-Explains}
use fpga_runtime.Opencl.{Library}
use fpga_runtime.Tag.{Tag}
use fpga_runtime.Buffer.{BufferArg, buffer_arg}
use fpga_runtime.Streams.{StreamWrapper}
use fpga_runtime.XilinxDevice
use fpga_runtime.IntelDevice
use fpga_runtime.CosimDevice
use fpga_runtime.CosimDevice.Blame.{Never}
use fpga_runtime.OpenclDevice.{OpenclDevice, suspend_buffer}
use fpga_runtime.OpenclDevice.Profile
use fpga_runtime.OpenclDevice.Blame.{
  Blamed, BlamedIn, set_scalar_arg-Explains, exec-Explains, finish_queue-Explains, span-Explains,
  load_bytes-Explains, store_bytes-Explains,
}
use fpga_runtime.Instance.{
  Device, Arg, scalar, buffer, stream, xilinx_device, intel_device, cosim_device, set_arg, set_args,
  invoke, has_stream,
}
use fpga_runtime.Instance.Marks.{
  Command, call, set_scalar, set_buffer, set_stream, suspend, write, read, run, finish,
}
use fpga_runtime.Instance.Object.{
  Runtime, Object, xilinx_object, intel_object, cosim_object, on_device, invoke_object,
  load_time_nanoseconds, compute_time_nanoseconds, store_time_nanoseconds,
}
use fpga_runtime.Instance.Refinement.{perform}

-- The methods of a device explain what they throw.
pub record Explaining {S : Type 0} (d : Device S) (P : Text → S → Type 0) : Type 0 where
  pub set_scalar-Explains : (index : ℤ) (arg : List ℕ) → Blame.Explains P (d.set_scalar index arg)
  pub set_buffer-Explains :
      (index : ℤ) (tag : Tag) (arg : BufferArg) → Blame.Explains P (d.set_buffer index tag arg)
  pub set_stream-Explains :
      (index : ℤ) (tag : Tag) (w : StreamWrapper) → Blame.Explains P (d.set_stream index tag w)
  pub suspend-Explains : (index : ℤ) → Blame.Explains P (d.suspend index)
  pub write-Explains : Blame.Explains P d.write
  pub read-Explains : Blame.Explains P d.read
  pub run-Explains : Blame.Explains P d.run
  pub finish-Explains : Blame.Explains P d.finish
  pub load_time-Explains : Blame.Explains P d.load_time
  pub compute_time-Explains : Blame.Explains P d.compute_time
  pub store_time-Explains : Blame.Explains P d.store_time
  pub load_bytes-Explains : Blame.Explains P d.load_bytes
  pub store_bytes-Explains : Blame.Explains P d.store_bytes

module _ {S : Type 0} (d : Device S) (P : Text → S → Type 0) (x : Explaining d P) where
  abbrev Explains : {A : Type 0} → Exec S A → Type 0
  Explains m = Blame.Explains P m

  pub call-Explains : (c : Command) → Explains (call d c)
  unfolding call
  call-Explains (set_scalar index arg) = x.set_scalar-Explains index arg
  call-Explains (set_buffer index tag arg) = x.set_buffer-Explains index tag arg
  call-Explains (set_stream index tag w) =
      bind-Explains P (d.set_stream index tag w) _ (x.set_stream-Explains index tag w) (λ _ s. tt)
  call-Explains (suspend index) =
      bind-Explains P (d.suspend index) _ (x.suspend-Explains index) (λ _ s. tt)
  call-Explains write = x.write-Explains
  call-Explains read = x.read-Explains
  call-Explains run = x.run-Explains
  call-Explains finish = x.finish-Explains

  set_arg-Explains : (i : ℕ) (arg : Arg) → Explains (set_arg d i arg)
  unfolding set_arg
  set_arg-Explains i (scalar bytes) =
      bind-Explains P (d.set_scalar (pos i) bytes) _ (x.set_scalar-Explains (pos i) bytes)
        (λ _ s. tt)
  set_arg-Explains i (buffer b) =
      bind-Explains P (d.set_buffer (pos i) b.tag (buffer_arg b)) _
        (x.set_buffer-Explains (pos i) b.tag (buffer_arg b)) (λ _ s. tt)
  set_arg-Explains i (stream tag w) =
      bind-Explains P (d.set_stream (pos i) tag w) _ (x.set_stream-Explains (pos i) tag w)
        (λ _ s. tt)

  set_args-Explains : (i : ℕ) (args : List Arg) → Explains (set_args d i args)
  unfolding set_args
  set_args-Explains i [] s = tt
  set_args-Explains i (arg ∷ rest) s =
      bind-Explains P (set_arg d i arg) _ (set_arg-Explains i arg)
        (λ a.
          bind-Explains P (set_args d (i + 1) rest) _ (set_args-Explains (i + 1) rest) (λ b t. tt))
        s

  last-Explains :
      (streams : Bool) (args : List Arg)
      → Explains (if streams then pure args else (do d.finish; pure args))
  last-Explains true args s = tt
  last-Explains false args s = bind-Explains P d.finish _ x.finish-Explains (λ _ t. tt) s

  pub invoke-Explains : (args : List Arg) → Explains (invoke d args)
  unfolding invoke
  invoke-Explains args = bind-Explains P (set_args d 0 args) _ (set_args-Explains 0 args) (λ args'.
      bind-Explains P d.write _ x.write-Explains (λ _. bind-Explains P d.run _ x.run-Explains (λ _.
        bind-Explains P d.read _ x.read-Explains (λ _. last-Explains (has_stream args) args'))))
