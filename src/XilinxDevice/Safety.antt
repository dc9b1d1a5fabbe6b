-- ===== src/XilinxDevice/Safety.antt =====
-- The Xilinx device's overrides keep what the base class relies on.
use fpga_runtime.Streams.{
  release, stream_flags, new_stream, StreamWrapper, XilinxOpenclStream, attach, open_stream,
}
use fpga_runtime.Tag.{Tag}
use fpga_runtime.Common.{
  ℕ, ◌≡◌, refl, List, [], ◌∷◌, map, set, resize, none, some, Option, Option-cases, Bool-cases, inl,
  inr, nat_eq,
}
use fpga_runtime.Common.Int.{ℤ}
use fpga_runtime.Exec.{modify}
use fpga_runtime.Opencl.{
  Library, cl_mem_use_host_ptr, cl_migrate_mem_object_host, enqueue_migrate_mem_objects, MemFlag,
  StreamFlag,
}
use fpga_runtime.OpenclDevice.{OpenclDevice, checked, null_event, request, get_kernel}
use fpga_runtime.OpenclDevice.Validity.{IsValid, buffer_of}
use fpga_runtime.OpenclDevice.Safety.{
  IsFine, IsSafe, IsMade, bind-IsSafe, checked-IsSafe, create_buffer_base-IsMade,
}
use fpga_runtime.OpenclDevice.Session.{Overrides}
use fpga_runtime.XilinxDevice.{
  create_buffer, write_at, read_at, write_to_device, read_from_device, set_stream_arg,
}
use fpga_runtime.XilinxDevice.Transfers.{get_load_buffers_lem, get_store_buffers_lem}

module _ (lib : Library) where
  write_at-IsFine :
      (s : OpenclDevice) (indices : List ℤ)
      → IsValid s
      → s.load_indices ≡ indices
      → IsFine (write_at lib indices s)
  unfolding write_at
  write_at-IsFine s [] v e = (v, tt)
  write_at-IsFine s (i ∷ rest) v e =
      let t : OpenclDevice = record s { load_event = resize 1 null_event s.load_event } in
      rw (get_load_buffers_lem t (i ∷ rest) v e) (
        bind-IsSafe
          (checked lib _
            (enqueue_migrate_mem_objects s.cmd (map (buffer_of s.buffer_table) (i ∷ rest)) [] []))
          (λ event. modify (λ u. record u { load_event = set u.load_event 0 event }))
          (checked-IsSafe lib _ _) (λ event u w. (w, tt)) t v)

  read_at-IsFine :
      (s : OpenclDevice) (indices : List ℤ)
      → IsValid s
      → s.store_indices ≡ indices
      → IsFine (read_at lib indices s)
  unfolding read_at
  read_at-IsFine s [] v e = (v, tt)
  read_at-IsFine s (i ∷ rest) v e =
      let t : OpenclDevice = record s { store_event = resize 1 null_event s.store_event } in
      rw (get_store_buffers_lem t (i ∷ rest) v e) (
        bind-IsSafe
          (checked lib _ (
            enqueue_migrate_mem_objects s.cmd (map (buffer_of s.buffer_table) (i ∷ rest))
              (cl_migrate_mem_object_host ∷ []) s.compute_event))
          (λ event. modify (λ u. record u { store_event = set u.store_event 0 event }))
          (checked-IsSafe lib _ _) (λ event u w. (w, tt)) t v)

  pub write-IsSafe : IsSafe (write_to_device lib)
  unfolding write_to_device
  write-IsSafe s v = write_at-IsFine s s.load_indices v refl

  pub read-IsSafe : IsSafe (read_from_device lib)
  unfolding read_from_device
  read-IsSafe s v = read_at-IsFine s s.store_indices v refl

  pub create-IsMade :
      (index : ℤ) (flags : List MemFlag) (host_ptr size : ℕ) (s : OpenclDevice)
      → IsValid s
      → IsMade index (create_buffer lib index flags host_ptr size s)
  unfolding create_buffer
  create-IsMade index flags host_ptr size s v =
      create_buffer_base-IsMade lib index (cl_mem_use_host_ptr ∷ flags) host_ptr size s v

  release-IsSafe : (x : Option XilinxOpenclStream) → IsSafe (release lib x)
  unfolding release request
  release-IsSafe none s v = (v, tt)
  release-IsSafe (some x) s v = elim (Bool-cases (nat_eq x.stream 0)) [
    | inl e ↦ rw e (v, tt)
    | inr e ↦ rw e (v, tt)
  ]

  attach-IsSafe : (w : StreamWrapper) (x : XilinxOpenclStream) → IsSafe (attach lib w x)
  unfolding attach
  attach-IsSafe w x =
      bind-IsSafe (release lib w.stream) _ (release-IsSafe w.stream) (λ _ t v. (v, tt))

  open_stream-IsSafe :
      (name : List ℕ) (device kernel : ℕ) (i : ℤ) (flags : Option StreamFlag)
      → IsSafe (open_stream lib name device kernel i flags)
  unfolding open_stream
  open_stream-IsSafe name device kernel i none s v = (v, tt)
  open_stream-IsSafe name device kernel i (some flags) s v =
      bind-IsSafe (checked lib _ _) _ (checked-IsSafe lib _ _) (λ _ t w. (w, tt)) s v

  new_stream-IsSafe :
      (name : List ℕ) (device kernel : ℕ) (i : ℤ) (tag : Tag)
      → IsSafe (new_stream lib name device kernel i tag)
  unfolding new_stream
  new_stream-IsSafe name device kernel i tag =
      open_stream-IsSafe name device kernel i (stream_flags lib tag)

  pub set_stream_arg-IsSafe :
      (index : ℤ) (tag : Tag) (w : StreamWrapper) → IsSafe (set_stream_arg lib index tag w)
  unfolding set_stream_arg
  set_stream_arg-IsSafe index tag w s v = elim (Option-cases (get_kernel s.kernels index)) [
    | inl e ↦ rw e (v, tt)
    | inr ((i, kernel), e) ↦ rw e (
        bind-IsSafe (new_stream lib w.name s.device kernel i tag) (attach lib w)
          (new_stream-IsSafe w.name s.device kernel i tag) (attach-IsSafe w) s v)
  ]

  abbrev pub xilinx_overrides : Overrides
  xilinx_overrides = record {
    create_buffer = create_buffer lib;
    set_stream_arg = set_stream_arg lib;
    write_to_device = write_to_device lib;
    read_from_device = read_from_device lib;
    create_buffer-IsMade = create-IsMade;
    set_stream_arg-IsSafe = set_stream_arg-IsSafe;
    write_to_device-IsSafe = write-IsSafe;
    read_from_device-IsSafe = read-IsSafe;
  }
