-- ===== src/Instance.antt =====
-- src/frt.h and src/frt.cpp: an `Instance` is one of the three devices, behind the methods of
-- src/frt/device.h.
pub mod Arguments
pub mod Invocation
pub mod Tracing
pub mod Bitstreams
pub mod Returning
pub mod Object
pub mod Program
pub mod Marks
pub mod Refinement
pub mod Repetition
pub mod Blame
pub mod Simulation
use fpga_runtime.Common.{
  ℕ, ◌+◌, Bool, true, false, ◌||◌, none, List, [], ◌∷◌, length, take, Text, codes, ltb,
  if◌then◌else◌,
}
use fpga_runtime.Common.Eq.{text_eq}
use fpga_runtime.Common.Int.{ℤ, pos}
use fpga_runtime.Exec.{Exec, Result, ok, err, runtime_error, pure, ◌>>=◌, ◌>>◌}
use fpga_runtime.Opencl.{Library}
use fpga_runtime.Tag.{Tag, read_only, write_only}
use fpga_runtime.Buffer.{Buffer, BufferArg, buffer_arg}
use fpga_runtime.Streams.{StreamWrapper}
use fpga_runtime.OpenclDevice.{
  OpenclDevice, set_scalar_arg, exec, finish_queue, suspend_buffer, get_args_info,
}
use fpga_runtime.OpenclDevice.Profile.{
  load_time_nanoseconds, compute_time_nanoseconds, store_time_nanoseconds, load_bytes, store_bytes,
}
use fpga_runtime.ArgInfo.{ArgInfo}
use fpga_runtime.XilinxDevice
use fpga_runtime.IntelDevice
use fpga_runtime.CosimDevice
use fpga_runtime.CosimDevice.{is_zip}

-- The tests of `XilinxOpenclDevice::New` and `IntelOpenclDevice::New` on the binary: the first bytes.
abbrev pub xclbin_magic : Text
xclbin_magic = 120 ∷ 99 ∷ 108 ∷ 98 ∷ 105 ∷ 110 ∷ 50 ∷ 0 ∷ []

abbrev pub elf_magic : Text
elf_magic = 127 ∷ 69 ∷ 76 ∷ 70 ∷ []

unfoldable pub is_xclbin : Text → Bool
is_xclbin binary =
    if ltb (length binary) (length xclbin_magic)
    then false
    else text_eq (take (length xclbin_magic) binary) xclbin_magic

unfoldable pub is_elf : Text → Bool
is_elf binary =
    if ltb (length binary) (length elf_magic)
    then false
    else text_eq (take (length elf_magic) binary) elf_magic

pub data Kind : Type 0 where
  xilinx intel cosim : Kind

-- Which device the constructor of `Instance` makes for the file's contents.
unfoldable pub open_bitstream : Text → Result Kind
unfolding is_xclbin is_elf is_zip
open_bitstream binary =
    if is_xclbin binary
    then ok xilinx
    else if is_elf binary
    then ok intel
    else if is_zip binary
    then ok cosim
    else err (runtime_error (codes "unexpected bitstream file"))

-- The methods of `Device` that an `Instance` calls.
pub record Device (S : Type 0) : Type 0 where
  pub set_scalar : ℤ → List ℕ → Exec S (Unit {0})
  pub set_buffer : ℤ → Tag → BufferArg → Exec S (Unit {0})
  pub set_stream : ℤ → Tag → StreamWrapper → Exec S StreamWrapper
  pub suspend : ℤ → Exec S ℕ
  pub write : Exec S (Unit {0})
  pub read : Exec S (Unit {0})
  pub run : Exec S (Unit {0})
  pub finish : Exec S (Unit {0})
  pub args_info : S → List ArgInfo
  pub load_time : Exec S ℤ
  pub compute_time : Exec S ℤ
  pub store_time : Exec S ℤ
  pub load_bytes : Exec S ℕ
  pub store_bytes : Exec S ℕ

unfoldable pub xilinx_device : Library → Device OpenclDevice
xilinx_device lib = record {
  set_scalar = set_scalar_arg lib;
  set_buffer = XilinxDevice.set_buffer lib;
  set_stream = XilinxDevice.set_stream_arg lib;
  suspend = suspend_buffer;
  write = XilinxDevice.write_to_device lib;
  read = XilinxDevice.read_from_device lib;
  run = exec lib;
  finish = finish_queue lib;
  args_info = get_args_info;
  load_time = load_time_nanoseconds lib;
  compute_time = compute_time_nanoseconds lib;
  store_time = store_time_nanoseconds lib;
  load_bytes = load_bytes lib;
  store_bytes = store_bytes lib;
}

unfoldable pub intel_device : Library → Device OpenclDevice
intel_device lib = record {
  set_scalar = set_scalar_arg lib;
  set_buffer = IntelDevice.set_buffer lib;
  set_stream = IntelDevice.set_stream_arg lib;
  suspend = suspend_buffer;
  write = IntelDevice.write_to_device lib;
  read = IntelDevice.read_from_device lib;
  run = exec lib;
  finish = finish_queue lib;
  args_info = get_args_info;
  load_time = load_time_nanoseconds lib;
  compute_time = compute_time_nanoseconds lib;
  store_time = store_time_nanoseconds lib;
  load_bytes = load_bytes lib;
  store_bytes = store_bytes lib;
}

unfoldable pub cosim_device : CosimDevice.Host → Device CosimDevice.CosimDevice
cosim_device host = record {
  set_scalar = λ index arg s. (ok tt, CosimDevice.set_scalar_arg index arg s);
  set_buffer = λ index tag arg s. (ok tt, CosimDevice.set_buffer_arg index tag arg s);
  set_stream = CosimDevice.set_stream_arg;
  suspend = CosimDevice.suspend_buffer;
  write = λ s. (ok tt, CosimDevice.write_to_device s);
  read = CosimDevice.read_from_device;
  run = CosimDevice.exec host;
  finish = CosimDevice.finish;
  args_info = CosimDevice.get_args_info;
  load_time = CosimDevice.load_time_nanoseconds;
  compute_time = CosimDevice.compute_time_nanoseconds;
  store_time = CosimDevice.store_time_nanoseconds;
  load_bytes = λ s. (ok (CosimDevice.load_bytes s), s);
  store_bytes = CosimDevice.store_bytes;
}

-- An argument of `Invoke`: a scalar by its bytes, a buffer, or a stream with the direction of its class.
pub data Arg : Type 0 where
  scalar : (bytes : List ℕ) → Arg
  buffer : Buffer → Arg
  stream : Tag → StreamWrapper → Arg

-- A `ReadStream` and a `WriteStream` as the host makes them.
abbrev pub read_stream : Text → Arg
read_stream name = stream read_only (record { name = name; stream = none })

abbrev pub write_stream : Text → Arg
write_stream name = stream write_only (record { name = name; stream = none })

-- `std::is_base_of<StreamWrapper, Arg>`
unfoldable pub is_stream : Arg → Bool
is_stream (stream tag w) = true
is_stream _ = false

-- The fold over the pack in `Invoke`.
unfoldable pub has_stream : List Arg → Bool
unfolding is_stream
has_stream [] = false
has_stream (arg ∷ rest) = is_stream arg || has_stream rest

module _ {S : Type 0} (d : Device S) where
  -- `SetArg(index, arg)` for one argument. A stream is attached in place.
  unfoldable pub set_arg : ℕ → Arg → Exec S Arg
  set_arg index (scalar bytes) = do d.set_scalar (pos index) bytes; pure (scalar bytes)
  set_arg index (buffer b) = do d.set_buffer (pos index) b.tag (buffer_arg b); pure (buffer b)
  set_arg index (stream tag w) = do w' ← d.set_stream (pos index) tag w; pure (stream tag w')

  -- `SetArg(index, arg, others...)`
  unfoldable pub set_args : ℕ → List Arg → Exec S (List Arg)
  set_args index [] = pure []
  set_args index (arg ∷ rest) = do
    arg' ← set_arg index arg
    rest' ← set_args (index + 1) rest
    pure (arg' ∷ rest')

  -- `SetArgs(args...)`
  abbrev pub set_every_arg : List Arg → Exec S (List Arg)
  set_every_arg args = set_args 0 args

  -- `Instance::Invoke`, with the streams as they are attached.
  unfoldable pub invoke : List Arg → Exec S (List Arg)
  invoke args = do
    args' ← set_every_arg args
    d.write
    d.run
    d.read
    if has_stream args then pure args' else (do d.finish; pure args')
