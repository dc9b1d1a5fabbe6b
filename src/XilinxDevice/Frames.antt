-- ===== src/XilinxDevice/Frames.antt =====
-- What the methods of a Xilinx device do to the indices to load and to store.
use fpga_runtime.Common.{
  ℕ, ◌≡◌, refl, List, [], ◌∷◌, Option, Option-cases, none, some, Bool-cases, inl, inr, nat_eq,
}
use fpga_runtime.Common.Int.{ℤ}
use fpga_runtime.Exec.Frames.{bind-Keeps, require-Keeps}
use fpga_runtime.Opencl.{Library, StreamFlag, Accepts, cl_mem_use_host_ptr}
use fpga_runtime.Tag.{Tag}
use fpga_runtime.Buffer.{BufferArg, size_in_bytes}
use fpga_runtime.Streams.{
  release, stream_flags, new_stream, StreamWrapper, XilinxOpenclStream, new_stream, attach,
  stream_flags, open_stream,
}
use fpga_runtime.OpenclDevice.{
  OpenclDevice, request, get_kernel, checked, get_load_buffers, get_store_buffers, mark_direction,
  mem_flags, set_buffer_arg,
}
use fpga_runtime.OpenclDevice.Arguments.{with_buffer, create_buffer_base_lem}
use fpga_runtime.OpenclDevice.Frames.{marks, Keeps, checked-Keeps}
use fpga_runtime.XilinxDevice.{
  set_stream_arg, set_buffer, create_buffer, write_at, read_at, write_to_device, read_from_device,
}

module _ (lib : Library) where
  write_at-Keeps : (indices : List ℤ) → Keeps (write_at lib indices)
  unfolding write_at get_load_buffers
  write_at-Keeps [] s = refl
  write_at-Keeps (index ∷ rest) s =
      bind-Keeps marks get_load_buffers _ (λ t. require-Keeps marks _ _ t)
        (λ buffers.
          bind-Keeps marks (λ t. checked lib _ _ t) _ (λ t. checked-Keeps lib _ _ t)
            (λ event t. refl))
        _

  pub write_to_device-Keeps : Keeps (write_to_device lib)
  unfolding write_to_device
  write_to_device-Keeps s = write_at-Keeps s.load_indices s

  read_at-Keeps : (indices : List ℤ) → Keeps (read_at lib indices)
  unfolding read_at get_store_buffers
  read_at-Keeps [] s = refl
  read_at-Keeps (index ∷ rest) s =
      bind-Keeps marks get_store_buffers _ (λ t. require-Keeps marks _ _ t)
        (λ buffers.
          bind-Keeps marks (λ t. checked lib _ _ t) _ (λ t. checked-Keeps lib _ _ t)
            (λ event t. refl))
        _

  pub read_from_device-Keeps : Keeps (read_from_device lib)
  unfolding read_from_device
  read_from_device-Keeps s = read_at-Keeps s.store_indices s

  release-Keeps : (x : Option XilinxOpenclStream) → Keeps (release lib x)
  unfolding release request
  release-Keeps none s = refl
  release-Keeps (some x) s = elim (Bool-cases (nat_eq x.stream 0)) [
    | inl e ↦ rw e refl
    | inr e ↦ rw e refl
  ]

  attach-Keeps : (w : StreamWrapper) (x : XilinxOpenclStream) → Keeps (attach lib w x)
  unfolding attach
  attach-Keeps w x =
      bind-Keeps marks (release lib w.stream) _ (release-Keeps w.stream) (λ _ t. refl)

  open_stream-Keeps :
      (name : List ℕ) (device kernel : ℕ) (i : ℤ) (flags : Option StreamFlag)
      → Keeps (open_stream lib name device kernel i flags)
  unfolding open_stream
  open_stream-Keeps name device kernel i none s = refl
  open_stream-Keeps name device kernel i (some flags) s =
      bind-Keeps marks (checked lib _ _) _ (checked-Keeps lib _ _) (λ _ t. refl) s

  pub set_stream_arg-Keeps :
      (index : ℤ) (tag : Tag) (w : StreamWrapper) → Keeps (set_stream_arg lib index tag w)
  unfolding set_stream_arg new_stream
  set_stream_arg-Keeps index tag w s = elim (Option-cases (get_kernel s.kernels index)) [
    | inl e ↦ rw e refl
    | inr ((i, kernel), e) ↦ rw e (
        bind-Keeps marks (new_stream lib w.name s.device kernel i tag) (attach lib w)
          (open_stream-Keeps w.name s.device kernel i (stream_flags lib tag)) (attach-Keeps w) s)
  ]

  pub set_buffer-marks :
      Accepts lib
      → (index : ℤ) (tag : Tag) (arg : BufferArg) (s : OpenclDevice)
      → marks (set_buffer lib index tag arg s).1 ≡ marks (mark_direction index tag s)
  unfolding set_buffer set_buffer_arg request create_buffer mark_direction
  set_buffer-marks a index tag arg s =
      let t = mark_direction index tag (
        with_buffer lib index (cl_mem_use_host_ptr ∷ mem_flags tag) arg.ptr (size_in_bytes arg)
          s) in
      let made =
        create_buffer_base_lem lib a index (cl_mem_use_host_ptr ∷ mem_flags tag) arg.ptr
          (size_in_bytes arg) s in
      elim (Option-cases (get_kernel t.kernels index)) [
        | inl e ↦ rw (made, e) refl
        | inr (k, e) ↦ rw (made, e) refl
      ]
