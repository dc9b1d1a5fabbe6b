-- ===== src/XilinxDevice/StreamArguments.antt =====
-- `SetStreamArg` of a Xilinx device, and the stream that it attaches.
use mathlib.Core.List.{append-nil, append_assoc}
use fpga_runtime.Common.{
  ℕ, ◌≡◌, Option, none, some, Bool-cases, inl, inr, List, [], ◌∷◌, ◌++◌, nat_eq, if◌then◌else◌,
  codes,
}
use fpga_runtime.Common.Int.{ℤ}
use fpga_runtime.Exec.{ok, err, runtime_error}
use fpga_runtime.Opencl.{Library, Call, Accepts, StreamFlag, create_stream, release_stream}
use fpga_runtime.Tag.{Tag}
use fpga_runtime.Streams.{
  StreamWrapper, XilinxOpenclStream, release, attach, new_stream, open_stream, stream_flags,
}
use fpga_runtime.OpenclDevice.{OpenclDevice, request, get_kernel, to_cl_uint}
use fpga_runtime.OpenclDevice.Requests.{checked_ok}
use fpga_runtime.XilinxDevice.{set_stream_arg}

-- The request of the destructor of a wrapper's stream.
abbrev pub release_calls : Option XilinxOpenclStream → List Call
release_calls none = []
release_calls (some x) = if nat_eq x.stream 0 then [] else release_stream x.stream ∷ []

-- The wrapper with a new stream.
abbrev pub attached : StreamWrapper → (stream kernel device : ℕ) → StreamWrapper
attached w stream kernel device = record w {
  stream = some (record { name = w.name; stream = stream; kernel = kernel; device = device });
}

module _ (lib : Library) where
  release_lem :
      (x : Option XilinxOpenclStream) (s : OpenclDevice)
      → release lib x s ≡ (ok tt, record s { calls = s.calls ++ release_calls x })
  unfolding release request
  release_lem none s = rw append-nil
  release_lem (some x) s = elim (Bool-cases (nat_eq x.stream 0)) [
    | inl e ↦ rw (e, append-nil)
    | inr e ↦ rw e
  ]

  attach_lem :
      (w : StreamWrapper) (x : XilinxOpenclStream) (s : OpenclDevice)
      → attach lib w x s ≡ (
        ok (record w { stream = some x }),
        record s { calls = s.calls ++ release_calls w.stream },
      )
  unfolding attach
  attach_lem w x s = rw (release_lem w.stream s)

  -- With a library that turns nothing down, where `GetKernel` finds the argument and the tag is that of
  -- a stream class, `SetStreamArg` returns: it opens one stream of the tag's direction for the kernel
  -- and the argument's number there, then releases the stream that the wrapper had, unless it had none
  -- or a null one, and leaves the new stream in the wrapper; nothing else of the object changes.
  pub set_stream_arg_lem :
      (index : ℤ) (tag : Tag) (w : StreamWrapper) (s : OpenclDevice) (i : ℤ) (kernel : ℕ)
      (flags : StreamFlag)
      → Accepts lib
      → get_kernel s.kernels index ≡ some (i, kernel)
      → stream_flags lib tag ≡ some flags
      → let c = create_stream s.device flags kernel (to_cl_uint i) in
        set_stream_arg lib index tag w s ≡ (
          ok (attached w (lib.respond s.calls c).value kernel s.device),
          record s { calls = s.calls ++ c ∷ release_calls w.stream },
        )
  unfolding set_stream_arg new_stream open_stream
  set_stream_arg_lem index tag w s i kernel flags a found e =
      let c = create_stream s.device flags kernel (to_cl_uint i) in
      rw (found, e, checked_ok lib _ c s (a s.calls c), attach_lem w _ _) (rw append_assoc)

  -- With any other tag `SetStreamArg` throws, and makes no request.
  pub set_stream_arg_invalid :
      (index : ℤ) (tag : Tag) (w : StreamWrapper) (s : OpenclDevice) (k : ℤ × ℕ)
      → get_kernel s.kernels index ≡ some k
      → stream_flags lib tag ≡ none
      → set_stream_arg lib index tag w s ≡ (err (runtime_error (codes "invalid argument")), s)
  unfolding set_stream_arg new_stream open_stream
  set_stream_arg_invalid index tag w s k found e = rw (found, e)
