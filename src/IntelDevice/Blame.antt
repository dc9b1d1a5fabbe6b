-- ===== src/IntelDevice/Blame.antt =====
-- What the methods of an Intel device throw for `CL_CHECK`.
use fpga_runtime.Common.{ℕ, suc, List, [], ◌∷◌, Text}
use fpga_runtime.Common.Int.{ℤ}
use fpga_runtime.Opencl.{Library}
use fpga_runtime.Tag.{Tag}
use fpga_runtime.Buffer.{BufferArg, size_in_bytes}
use fpga_runtime.Streams.{StreamWrapper}
use fpga_runtime.OpenclDevice.{OpenclDevice, request, checked}
use fpga_runtime.IntelDevice.{
  set_stream_arg, set_buffer, create_buffer, write_from, read_from, write_to_device,
  read_from_device, touch_tables,
}
use fpga_runtime.Exec.Blame.{bind-Explains}
use fpga_runtime.OpenclDevice.Blame.{
  Explains, BlamedIn, checked-Explains, set_buffer_arg-Explains, create_buffer_base-Explains,
}

module _ (lib : Library) where
  abbrev P : Text → OpenclDevice → Type 0
  P = BlamedIn lib

  write_from-Explains : (i : ℕ) (indices : List ℤ) → Explains lib (write_from lib i indices)
  unfolding write_from touch_tables request
  write_from-Explains i [] s = tt
  write_from-Explains i (index ∷ rest) s =
      bind-Explains P (checked lib _ _) _ (checked-Explains lib _ _)
        (λ event t. write_from-Explains (suc i) rest _) _

  pub write_to_device-Explains : Explains lib (write_to_device lib)
  unfolding write_to_device
  write_to_device-Explains s = write_from-Explains 0 s.load_indices _

  read_from-Explains : (i : ℕ) (indices : List ℤ) → Explains lib (read_from lib i indices)
  unfolding read_from touch_tables request
  read_from-Explains i [] s = tt
  read_from-Explains i (index ∷ rest) s = read_from-Explains (suc i) rest _

  pub read_from_device-Explains : Explains lib (read_from_device lib)
  unfolding read_from_device
  read_from_device-Explains s = read_from-Explains 0 s.store_indices _

  pub set_stream_arg-Explains :
      (index : ℤ) (tag : Tag) (w : StreamWrapper) → Explains lib (set_stream_arg lib index tag w)
  unfolding set_stream_arg
  set_stream_arg-Explains index tag w s = tt

  pub set_buffer-Explains :
      (index : ℤ) (tag : Tag) (arg : BufferArg) → Explains lib (set_buffer lib index tag arg)
  unfolding set_buffer create_buffer
  set_buffer-Explains index tag arg =
      set_buffer_arg-Explains lib (create_buffer lib) index tag arg
        (λ s. create_buffer_base-Explains lib index _ 0 (size_in_bytes arg) _)
