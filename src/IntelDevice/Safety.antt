-- ===== src/IntelDevice/Safety.antt =====
-- The Intel device's overrides keep what the base class relies on.
use fpga_runtime.Streams.{StreamWrapper}
use fpga_runtime.Tag.{Tag}
use fpga_runtime.Common.{ℕ, suc, List, [], ◌∷◌, set, Bool-cases, inl, inr}
use fpga_runtime.Common.Int.{ℤ}
use fpga_runtime.Exec.{modify, ◌>>◌}
use fpga_runtime.OpenclUtil.{ClInt}
use fpga_runtime.Opencl.{Library, MemFlag, cl_mem_heterogeneous_intelfpga, enqueue_write_buffer}
use fpga_runtime.OpenclDevice.{OpenclDevice, checked}
use fpga_runtime.OpenclDevice.Validity.{IsValid, insert-IsValid}
use fpga_runtime.OpenclDevice.Safety.{
  IsSafe, IsMade, bind-IsSafe, checked-IsSafe, create_buffer_base-IsMade,
}
use fpga_runtime.OpenclDevice.Session.{Overrides}
use fpga_runtime.IntelDevice.{
  create_buffer, write_from, read_from, write_to_device, read_from_device, store_if_accepted,
  touch_tables, touch, is_success, set_stream_arg,
}

touch_tables-IsValid : (index : ℤ) (s : OpenclDevice) → IsValid s → IsValid (touch_tables index s)
unfolding touch_tables touch
touch_tables-IsValid index s v = insert-IsValid index 0 s v

store_if_accepted-IsValid :
    (status : ClInt) (i event : ℕ) (s : OpenclDevice)
    → IsValid s
    → IsValid (store_if_accepted status i event s)
store_if_accepted-IsValid status i event s v = elim (Bool-cases (is_success status)) [
  | inl good ↦ rw good v
  | inr bad ↦ rw bad v
]

module _ (lib : Library) where
  write_from-IsSafe : (i : ℕ) (indices : List ℤ) → IsSafe (write_from lib i indices)
  unfolding write_from
  write_from-IsSafe i [] s v = (v, tt)
  write_from-IsSafe i (index ∷ rest) s v =
      let go_on = write_from-IsSafe (suc i) rest in
      let touched = touch_tables-IsValid index s v in
      bind-IsSafe (checked lib _ (enqueue_write_buffer s.cmd _ _ _ []))
        (λ event.
          modify (λ t. record t { load_event = set t.load_event i event })
          >> write_from lib (suc i) rest)
        (checked-IsSafe lib _ _) (λ event t w. go_on _ w) _ touched

  read_from-IsSafe : (i : ℕ) (indices : List ℤ) → IsSafe (read_from lib i indices)
  unfolding read_from
  read_from-IsSafe i [] s v = (v, tt)
  read_from-IsSafe i (index ∷ rest) s v =
      read_from-IsSafe (suc i) rest _
        (store_if_accepted-IsValid _ i _ _ (touch_tables-IsValid index s v))

  pub write-IsSafe : IsSafe (write_to_device lib)
  unfolding write_to_device
  write-IsSafe s v = write_from-IsSafe 0 s.load_indices _ v

  pub read-IsSafe : IsSafe (read_from_device lib)
  unfolding read_from_device
  read-IsSafe s v = read_from-IsSafe 0 s.store_indices _ v

  pub create-IsMade :
      (index : ℤ) (flags : List MemFlag) (host_ptr size : ℕ) (s : OpenclDevice)
      → IsValid s
      → IsMade index (create_buffer lib index flags host_ptr size s)
  unfolding create_buffer
  create-IsMade index flags host_ptr size s v =
      create_buffer_base-IsMade lib index (cl_mem_heterogeneous_intelfpga ∷ flags) 0 size _ v

  pub set_stream_arg-IsSafe :
      (index : ℤ) (tag : Tag) (w : StreamWrapper) → IsSafe (set_stream_arg lib index tag w)
  unfolding set_stream_arg
  set_stream_arg-IsSafe index tag w s v = (v, tt)

  abbrev pub intel_overrides : Overrides
  intel_overrides = record {
    create_buffer = create_buffer lib;
    set_stream_arg = set_stream_arg lib;
    write_to_device = write_to_device lib;
    read_from_device = read_from_device lib;
    create_buffer-IsMade = create-IsMade;
    set_stream_arg-IsSafe = set_stream_arg-IsSafe;
    write_to_device-IsSafe = write-IsSafe;
    read_from_device-IsSafe = read-IsSafe;
  }
