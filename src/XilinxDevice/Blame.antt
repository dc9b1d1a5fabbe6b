-- ===== src/XilinxDevice/Blame.antt =====
-- What the methods of a Xilinx device throw for `CL_CHECK`.
use fpga_runtime.Common.{
  ℕ, List, [], ◌∷◌, Option, Option-cases, none, some, Bool-cases, inl, inr, nat_eq, Text,
}
use fpga_runtime.Common.Int.{ℤ}
use fpga_runtime.Opencl.{Library, StreamFlag}
use fpga_runtime.Tag.{Tag}
use fpga_runtime.Buffer.{BufferArg, size_in_bytes}
use fpga_runtime.Streams.{
  release, stream_flags, new_stream, StreamWrapper, XilinxOpenclStream, new_stream, attach,
  stream_flags, open_stream,
}
use fpga_runtime.OpenclDevice.{
  OpenclDevice, request, get_kernel, checked, get_load_buffers, get_store_buffers,
}
use fpga_runtime.XilinxDevice.{
  set_stream_arg, set_buffer, create_buffer, write_at, read_at, write_to_device, read_from_device,
}
use fpga_runtime.Exec.Blame.{bind-Explains, require-Explains}
use fpga_runtime.OpenclDevice.Blame.{
  Explains, BlamedIn, checked-Explains, set_buffer_arg-Explains, create_buffer_base-Explains,
}

module _ (lib : Library) where
  abbrev P : Text → OpenclDevice → Type 0
  P = BlamedIn lib

  write_at-Explains : (indices : List ℤ) → Explains lib (write_at lib indices)
  unfolding write_at get_load_buffers
  write_at-Explains [] s = tt
  write_at-Explains (index ∷ rest) s =
      bind-Explains P get_load_buffers _ (λ t. require-Explains P _ _ (λ u. tt) t)
        (λ buffers.
          bind-Explains P (λ t. checked lib _ _ t) _ (λ t. checked-Explains lib _ _ t)
            (λ event t. tt))
        _

  pub write_to_device-Explains : Explains lib (write_to_device lib)
  unfolding write_to_device
  write_to_device-Explains s = write_at-Explains s.load_indices s

  read_at-Explains : (indices : List ℤ) → Explains lib (read_at lib indices)
  unfolding read_at get_store_buffers
  read_at-Explains [] s = tt
  read_at-Explains (index ∷ rest) s =
      bind-Explains P get_store_buffers _ (λ t. require-Explains P _ _ (λ u. tt) t)
        (λ buffers.
          bind-Explains P (λ t. checked lib _ _ t) _ (λ t. checked-Explains lib _ _ t)
            (λ event t. tt))
        _

  pub read_from_device-Explains : Explains lib (read_from_device lib)
  unfolding read_from_device
  read_from_device-Explains s = read_at-Explains s.store_indices s

  release-Explains : (x : Option XilinxOpenclStream) → Explains lib (release lib x)
  unfolding release request
  release-Explains none s = tt
  release-Explains (some x) s = elim (Bool-cases (nat_eq x.stream 0)) [
    | inl e ↦ rw e tt
    | inr e ↦ rw e tt
  ]

  attach-Explains : (w : StreamWrapper) (x : XilinxOpenclStream) → Explains lib (attach lib w x)
  unfolding attach
  attach-Explains w x =
      bind-Explains P (release lib w.stream) _ (release-Explains w.stream) (λ _ t. tt)

  open_stream-Explains :
      (name : List ℕ) (device kernel : ℕ) (i : ℤ) (flags : Option StreamFlag)
      → Explains lib (open_stream lib name device kernel i flags)
  unfolding open_stream
  open_stream-Explains name device kernel i none s = tt
  open_stream-Explains name device kernel i (some flags) s =
      bind-Explains P (checked lib _ _) _ (checked-Explains lib _ _) (λ _ t. tt) s

  pub set_stream_arg-Explains :
      (index : ℤ) (tag : Tag) (w : StreamWrapper) → Explains lib (set_stream_arg lib index tag w)
  unfolding set_stream_arg new_stream
  set_stream_arg-Explains index tag w s = elim (Option-cases (get_kernel s.kernels index)) [
    | inl e ↦ rw e tt
    | inr ((i, kernel), e) ↦ rw e (
        bind-Explains P (new_stream lib w.name s.device kernel i tag) (attach lib w)
          (open_stream-Explains w.name s.device kernel i (stream_flags lib tag)) (attach-Explains w)
          s)
  ]

  pub set_buffer-Explains :
      (index : ℤ) (tag : Tag) (arg : BufferArg) → Explains lib (set_buffer lib index tag arg)
  unfolding set_buffer create_buffer
  set_buffer-Explains index tag arg =
      set_buffer_arg-Explains lib (create_buffer lib) index tag arg
        (create_buffer_base-Explains lib index _ arg.ptr (size_in_bytes arg))
