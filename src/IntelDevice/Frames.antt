-- ===== src/IntelDevice/Frames.antt =====
-- What the methods of an Intel device do to the indices to load and to store.
use fpga_runtime.Common.{ℕ, suc, ◌≡◌, refl, List, [], ◌∷◌, ◌∙◌, Option-cases, Bool-cases, inl, inr}
use fpga_runtime.Common.Int.{ℤ}
use fpga_runtime.Exec.Frames.{bind-Keeps}
use fpga_runtime.OpenclUtil.{ClInt, is_success}
use fpga_runtime.Opencl.{Library, Accepts, cl_mem_heterogeneous_intelfpga}
use fpga_runtime.Tag.{Tag}
use fpga_runtime.Buffer.{BufferArg, size_in_bytes}
use fpga_runtime.Streams.{StreamWrapper}
use fpga_runtime.OpenclDevice.{
  OpenclDevice, request, get_kernel, checked, mark_direction, mem_flags, set_buffer_arg,
}
use fpga_runtime.OpenclDevice.Arguments.{with_buffer, create_buffer_base_lem}
use fpga_runtime.OpenclDevice.Frames.{marks, Keeps, checked-Keeps}
use fpga_runtime.IntelDevice.Arguments.{keep_ptr}
use fpga_runtime.IntelDevice.{
  set_stream_arg, set_buffer, create_buffer, write_from, read_from, write_to_device,
  read_from_device, store_if_accepted, touch_tables,
}

store_if_accepted-marks :
    (status : ClInt) (i event : ℕ) (s : OpenclDevice)
    → marks (store_if_accepted status i event s) ≡ marks s
store_if_accepted-marks status i event s = elim (Bool-cases (is_success status)) [
  | inl good ↦ rw good refl
  | inr bad ↦ rw bad refl
]

module _ (lib : Library) where
  write_from-Keeps : (i : ℕ) (indices : List ℤ) → Keeps (write_from lib i indices)
  unfolding write_from touch_tables request
  write_from-Keeps i [] s = refl
  write_from-Keeps i (index ∷ rest) s =
      bind-Keeps marks (checked lib _ _) _ (checked-Keeps lib _ _)
        (λ event t. write_from-Keeps (suc i) rest _) _

  pub write_to_device-Keeps : Keeps (write_to_device lib)
  unfolding write_to_device
  write_to_device-Keeps s = write_from-Keeps 0 s.load_indices _

  read_from-Keeps : (i : ℕ) (indices : List ℤ) → Keeps (read_from lib i indices)
  unfolding read_from touch_tables request
  read_from-Keeps i [] s = refl
  read_from-Keeps i (index ∷ rest) s =
      read_from-Keeps (suc i) rest _ ∙ store_if_accepted-marks _ i _ _

  pub read_from_device-Keeps : Keeps (read_from_device lib)
  unfolding read_from_device
  read_from_device-Keeps s = read_from-Keeps 0 s.store_indices _

  pub set_stream_arg-Keeps :
      (index : ℤ) (tag : Tag) (w : StreamWrapper) → Keeps (set_stream_arg lib index tag w)
  unfolding set_stream_arg
  set_stream_arg-Keeps index tag w s = refl

  pub set_buffer-marks :
      Accepts lib
      → (index : ℤ) (tag : Tag) (arg : BufferArg) (s : OpenclDevice)
      → marks (set_buffer lib index tag arg s).1 ≡ marks (mark_direction index tag s)
  unfolding set_buffer set_buffer_arg request create_buffer mark_direction
  set_buffer-marks a index tag arg s =
      let t = mark_direction index tag (
        with_buffer lib index (cl_mem_heterogeneous_intelfpga ∷ mem_flags tag) 0 (size_in_bytes arg)
          (keep_ptr index arg.ptr s)) in
      let made =
        create_buffer_base_lem lib a index (cl_mem_heterogeneous_intelfpga ∷ mem_flags tag) 0
          (size_in_bytes arg) (keep_ptr index arg.ptr s) in
      elim (Option-cases (get_kernel t.kernels index)) [
        | inl e ↦ rw (made, e) refl
        | inr (k, e) ↦ rw (made, e) refl
      ]
