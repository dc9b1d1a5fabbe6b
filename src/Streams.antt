-- ===== src/Streams.antt =====
-- src/frt/stream_interface.h, src/frt/stream_wrapper.h, src/frt/stream.h, src/frt/xilinx_opencl_stream.h
-- and src/frt/xilinx_opencl_stream.cpp. The one implementation of `StreamInterface` is
-- `XilinxOpenclStream`. Requests are logged in the device that the action runs on.
pub mod Transfers
use fpga_runtime.OpenclUtil.{Place}
use fpga_runtime.Common.{ℕ, ◌*◌, ◌%◌, Bool, Option, none, some, Text, codes, if◌then◌else◌, nat_eq}
use fpga_runtime.Common.Int.{ℤ}
use fpga_runtime.Exec.{runtime_error, undefined, pure, raise, ◌>>=◌, ◌>>◌}
use fpga_runtime.Opencl.{
  Library, StreamFlag, xcl_stream_read_only, xcl_stream_write_only, cl_stream_read_only,
  cl_stream_write_only, create_stream, read_stream, write_stream, release_stream,
}
use fpga_runtime.Tag.{Tag, read_only, write_only}
use fpga_runtime.Buffer.{size_mod}
use fpga_runtime.OpenclDevice.{Method, to_cl_uint, request, checked}

pub record XilinxOpenclStream : Type 0 where
  pub name : Text
  pub stream : ℕ
  pub kernel : ℕ
  pub device : ℕ

-- A stream that the host holds, attached or not yet.
pub record StreamWrapper : Type 0 where
  pub name : Text
  pub stream : Option XilinxOpenclStream

-- A line of xilinx_opencl_stream.cpp.
abbrev pub at_line : ℕ → Place
at_line n = record { file = "src/frt/xilinx_opencl_stream.cpp"; line = n }

module _ (lib : Library) where
  -- The `switch` of the constructor.
  unfoldable pub stream_flags : Tag → Option StreamFlag
  stream_flags read_only =
      some (if lib.has_xcl_write_only then xcl_stream_write_only else cl_stream_read_only)
  stream_flags write_only =
      some (if lib.has_xcl_read_only then xcl_stream_read_only else cl_stream_write_only)
  stream_flags _ = none

  unfoldable pub open_stream :
      Text → (device kernel : ℕ) → ℤ → Option StreamFlag → Method XilinxOpenclStream
  open_stream name device kernel index none = raise (runtime_error (codes "invalid argument"))
  open_stream name device kernel index (some flags) = do
    stream ← checked lib (at_line 67) (create_stream device flags kernel (to_cl_uint index))
    pure (record { name = name; stream = stream; kernel = kernel; device = device })

  -- The constructor.
  unfoldable pub new_stream : Text → (device kernel : ℕ) → ℤ → Tag → Method XilinxOpenclStream
  unfolding open_stream stream_flags
  new_stream name device kernel index tag = open_stream name device kernel index (stream_flags tag)

  -- The destructor, of a stream that is there.
  unfoldable pub release : Option XilinxOpenclStream → Method (Unit {0})
  release none = pure tt
  release (some x) =
      if nat_eq x.stream 0 then pure tt else (do request lib (release_stream x.stream); pure tt)

  -- `StreamWrapper::Attach`, which destroys the stream that was there.
  unfoldable pub attach : StreamWrapper → XilinxOpenclStream → Method StreamWrapper
  unfolding release
  attach w x = do release w.stream; pure (record w { stream = some x })

  unfoldable pub stream_read : XilinxOpenclStream → (host_ptr size : ℕ) → Bool → Method (Unit {0})
  stream_read x host_ptr size eot =
      if nat_eq x.stream 0
      then raise (runtime_error (codes "cannot read from null stream"))
      else (do checked lib (at_line 81) (read_stream x.stream host_ptr size eot); pure tt)

  unfoldable pub stream_write : XilinxOpenclStream → (host_ptr size : ℕ) → Bool → Method (Unit {0})
  stream_write x host_ptr size eot =
      if nat_eq x.stream 0
      then raise (runtime_error (codes "cannot write to null stream"))
      else (do checked lib (at_line 95) (write_stream x.stream host_ptr size eot); pure tt)

  -- `Stream<Tag::kReadOnly>::Read` and `Stream<Tag::kWriteOnly>::Write`, at a `T` of `elem_size` bytes;
  -- a wrapper to which nothing is attached has a null pointer.
  unfoldable pub wrapper_read :
      Option XilinxOpenclStream → (elem_size host_ptr size : ℕ) → Bool → Method (Unit {0})
  unfolding stream_read
  wrapper_read none elem_size host_ptr size eot = raise undefined
  wrapper_read (some x) elem_size host_ptr size eot =
      stream_read x host_ptr (size * elem_size % size_mod) eot

  unfoldable pub wrapper_write :
      Option XilinxOpenclStream → (elem_size host_ptr size : ℕ) → Bool → Method (Unit {0})
  unfolding stream_write
  wrapper_write none elem_size host_ptr size eot = raise undefined
  wrapper_write (some x) elem_size host_ptr size eot =
      stream_write x host_ptr (size * elem_size % size_mod) eot
