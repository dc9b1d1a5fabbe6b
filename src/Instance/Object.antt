-- ===== src/Instance/Object.antt =====
-- An object of the class `Instance` in src/frt.cpp: one of the three devices, opened from a file.
use fpga_runtime.Common.{ℕ, List, [], Text}
use fpga_runtime.Common.Int.{ℤ}
use fpga_runtime.Exec.{Exec, Result, ok, err, raise, pure, ◌>>=◌}
use fpga_runtime.Opencl.{Library}
use fpga_runtime.ArgInfo.{ArgInfo}
use fpga_runtime.OpenclDevice.{OpenclDevice}
use fpga_runtime.XilinxDevice
use fpga_runtime.XilinxDevice.Environ.{Environ}
use fpga_runtime.IntelDevice
use fpga_runtime.CosimDevice
use fpga_runtime.CosimDevice.{CosimDevice, World}
use fpga_runtime.CosimDevice.Construction.{Places}
use fpga_runtime.Instance.{
  Kind, xilinx, intel, cosim, Device, Arg, open_bitstream, xilinx_device, intel_device,
  cosim_device, invoke,
}

-- What the three devices use that is not in the repository.
pub record Runtime : Type 0 where
  pub lib : Library
  pub host : XilinxDevice.Constructor.Host
  pub elf : IntelDevice.Constructor.ElfReader
  pub simulator : CosimDevice.Host
  pub places : Places

-- The process: its environment, the commands that it ran, and its world, which an object for the
-- simulator takes over.
pub record Process : Type 0 where
  pub env : Environ
  pub commands : List Text
  pub world : World

-- `device_`
pub data Object : Type 0 where
  xilinx_object intel_object : OpenclDevice → Object
  cosim_object : CosimDevice → Object

-- An object before its constructor has run.
abbrev pub fresh : OpenclDevice
fresh = record {
  device = 0;
  context = 0;
  cmd = 0;
  program = 0;
  kernels = [];
  buffer_table = [];
  arg_table = [];
  load_indices = [];
  store_indices = [];
  load_event = [];
  compute_event = [];
  store_event = [];
  host_ptr_table = [];
  calls = [];
}

-- What a constructor returned, as an object.
abbrev pub as_object : {A : Type 0} → (A → Object) → A → Result (Unit {0}) → Result Object
as_object f a (ok x) = ok (f a)
as_object f a (err e) = err e

abbrev pub as_cosim : Result CosimDevice → Result Object
as_cosim (ok s) = ok (cosim_object s)
as_cosim (err e) = err e

module _ (r : Runtime) where
  -- The device of a kind, for a path and the contents of its file.
  unfoldable pub make : Text → Text → Kind → Exec Process Object
  make path binary xilinx p =
      let (result, c) =
        XilinxDevice.Constructor.construct r.lib r.host binary
          (record { device = fresh; env = p.env; commands = p.commands }) in
      (as_object xilinx_object c.device result, record p { env = c.env; commands = c.commands })
  make path binary intel p =
      let (result, c) =
        IntelDevice.Constructor.construct r.lib r.elf binary
          (record { device = fresh; env = p.env }) in
      (as_object intel_object c.device result, record p { env = c.env })
  make path binary cosim p =
      (as_cosim (CosimDevice.Construction.construct r.places path p.world), p)

  -- What follows the choice.
  abbrev pub make_chosen : Text → Text → Result Kind → Exec Process Object
  make_chosen path binary (ok kind) = make path binary kind
  make_chosen path binary (err e) = raise e

  -- The constructor of `Instance`.
  unfoldable pub construct : Text → Text → Exec Process Object
  construct path binary = make_chosen path binary (open_bitstream binary)

  -- A call of a virtual method through `device_`.
  unfoldable pub on_device : {A : Type 0} → ((S : Type 0) → Device S → Exec S A) → Exec Object A
  on_device m (xilinx_object s) =
      let (result, t) = m _ (xilinx_device r.lib) s in (result, xilinx_object t)
  on_device m (intel_object s) =
      let (result, t) = m _ (intel_device r.lib) s in (result, intel_object t)
  on_device m (cosim_object s) =
      let (result, t) = m _ (cosim_device r.simulator) s in (result, cosim_object t)

  abbrev pub suspend_buf : ℤ → Exec Object ℕ
  suspend_buf index = on_device (λ S d. d.suspend index)

  -- Deprecated, and does nothing.
  abbrev pub alloc_buf : {A : Type 0} → ℤ → A → Exec Object (Unit {0})
  alloc_buf index arg = pure tt

  abbrev pub write_to_device : Exec Object (Unit {0})
  write_to_device = on_device (λ S d. d.write)

  abbrev pub read_from_device : Exec Object (Unit {0})
  read_from_device = on_device (λ S d. d.read)

  abbrev pub exec : Exec Object (Unit {0})
  exec = on_device (λ S d. d.run)

  abbrev pub finish : Exec Object (Unit {0})
  finish = on_device (λ S d. d.finish)

  abbrev pub get_args_info : Exec Object (List ArgInfo)
  get_args_info = on_device (λ S d s. (ok (d.args_info s), s))

  abbrev pub load_time_nanoseconds : Exec Object ℤ
  load_time_nanoseconds = on_device (λ S d. d.load_time)

  abbrev pub compute_time_nanoseconds : Exec Object ℤ
  compute_time_nanoseconds = on_device (λ S d. d.compute_time)

  abbrev pub store_time_nanoseconds : Exec Object ℤ
  store_time_nanoseconds = on_device (λ S d. d.store_time)

  -- `Invoke` on the object.
  abbrev pub invoke_object : List Arg → Exec Object (List Arg)
  invoke_object args = on_device (λ S d. invoke d args)

-- The arithmetic of `double`.
pub record Doubles : Type 1 where
  pub Double : Type 0
  pub of_int64 : ℤ → Double
  pub of_size : ℕ → Double
  pub times : Double → Double → Double
  pub over : Double → Double → Double
  -- the literal `1e-9`
  pub nano : Double

module _ (r : Runtime) (x : Doubles) where
  -- A time in seconds, of one in nanoseconds.
  abbrev pub seconds : Exec Object ℤ → Exec Object x.Double
  seconds time = do t ← time; pure (x.times (x.of_int64 t) x.nano)

  unfoldable pub load_time_seconds : Exec Object x.Double
  load_time_seconds = seconds (load_time_nanoseconds r)

  unfoldable pub compute_time_seconds : Exec Object x.Double
  compute_time_seconds = seconds (compute_time_nanoseconds r)

  unfoldable pub store_time_seconds : Exec Object x.Double
  store_time_seconds = seconds (store_time_nanoseconds r)

  -- The operands of a quotient are evaluated from left to right.
  unfoldable pub load_throughput_gbps : Exec Object x.Double
  load_throughput_gbps = do
    bytes ← on_device r (λ S d. d.load_bytes)
    time ← load_time_nanoseconds r
    pure (x.over (x.of_size bytes) (x.of_int64 time))

  unfoldable pub store_throughput_gbps : Exec Object x.Double
  store_throughput_gbps = do
    bytes ← on_device r (λ S d. d.store_bytes)
    time ← store_time_nanoseconds r
    pure (x.over (x.of_size bytes) (x.of_int64 time))
