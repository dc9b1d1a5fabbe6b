-- ===== src/XilinxDevice/Transfers.antt =====
-- `WriteToDevice` and `ReadFromDevice` of the Xilinx device.
use fpga_runtime.Common.{ap, set, ◌≡◌, refl, ap, List, [], ◌∷◌, map, set, resize}
use fpga_runtime.Common.Int.{ℤ}
use fpga_runtime.Exec.{modify, ok}
use fpga_runtime.Opencl.{Library, Call, cl_migrate_mem_object_host, enqueue_migrate_mem_objects}
use fpga_runtime.OpenclDevice.{OpenclDevice, null_event, get_load_buffers, get_store_buffers}
use fpga_runtime.OpenclDevice.Validity.{IsValid, buffer_of, buffers_at-Backed}
use fpga_runtime.OpenclDevice.Requests.{outcome, issue, checked-issues}
use fpga_runtime.XilinxDevice.{write_at, read_at, write_to_device, read_from_device, at_line}

-- One migration of all buffers to load, or no request if there is none.
abbrev pub load_requests : OpenclDevice → List ℤ → List Call
load_requests s [] = []
load_requests s (i ∷ rest) =
    enqueue_migrate_mem_objects s.cmd (map (buffer_of s.buffer_table) (i ∷ rest)) [] [] ∷ []

-- The same for the buffers to store, which waits for the computation.
abbrev pub store_requests : OpenclDevice → List ℤ → List Call
store_requests s [] = []
store_requests s (i ∷ rest) =
    enqueue_migrate_mem_objects s.cmd (map (buffer_of s.buffer_table) (i ∷ rest))
      (cl_migrate_mem_object_host ∷ []) s.compute_event
    ∷ []

pub get_load_buffers_lem :
    (s : OpenclDevice) (indices : List ℤ)
    → IsValid s
    → s.load_indices ≡ indices
    → get_load_buffers s ≡ (ok (map (buffer_of s.buffer_table) indices), s)
unfolding get_load_buffers
get_load_buffers_lem s indices v e =
    rw (buffers_at-Backed s.buffer_table s.load_indices v.load)
      (ap (λ (l : List ℤ). (ok (map (buffer_of s.buffer_table) l), s)) e)

pub get_store_buffers_lem :
    (s : OpenclDevice) (indices : List ℤ)
    → IsValid s
    → s.store_indices ≡ indices
    → get_store_buffers s ≡ (ok (map (buffer_of s.buffer_table) indices), s)
unfolding get_store_buffers
get_store_buffers_lem s indices v e =
    rw (buffers_at-Backed s.buffer_table s.store_indices v.store)
      (ap (λ (l : List ℤ). (ok (map (buffer_of s.buffer_table) l), s)) e)

module _ (lib : Library) where
  write_at-issues :
      (s : OpenclDevice) (indices : List ℤ)
      → IsValid s
      → s.load_indices ≡ indices
      → outcome (write_at lib indices s) ≡ issue lib (at_line 194) s.calls (load_requests s indices)
  unfolding write_at issue
  write_at-issues s [] v e = refl
  write_at-issues s (i ∷ rest) v e =
      rw
        (get_load_buffers_lem (record s { load_event = resize 1 null_event s.load_event })
          (i ∷ rest) v e)
        (checked-issues lib _
          (enqueue_migrate_mem_objects s.cmd (map (buffer_of s.buffer_table) (i ∷ rest)) [] [])
          (λ event. modify (λ t. record t { load_event = set t.load_event 0 event })) []
          (record s { load_event = resize 1 null_event s.load_event }) refl)

  -- On a valid device `WriteToDevice` makes one request, a migration to the device of the buffers of
  -- all indices to load, or none where there are no such indices; it throws only if that request
  -- fails.
  pub write_to_device-issues :
      (s : OpenclDevice)
      → IsValid s
      → outcome (write_to_device lib s)
        ≡ issue lib (at_line 194) s.calls (load_requests s s.load_indices)
  unfolding write_to_device
  write_to_device-issues s v = write_at-issues s s.load_indices v refl

  read_at-issues :
      (s : OpenclDevice) (indices : List ℤ)
      → IsValid s
      → s.store_indices ≡ indices
      → outcome (read_at lib indices s) ≡ issue lib (at_line 205) s.calls (store_requests s indices)
  unfolding read_at issue
  read_at-issues s [] v e = refl
  read_at-issues s (i ∷ rest) v e =
      rw
        (get_store_buffers_lem (record s { store_event = resize 1 null_event s.store_event })
          (i ∷ rest) v e)
        (checked-issues lib _
          (enqueue_migrate_mem_objects s.cmd (map (buffer_of s.buffer_table) (i ∷ rest))
            (cl_migrate_mem_object_host ∷ []) s.compute_event)
          (λ event. modify (λ t. record t { store_event = set t.store_event 0 event })) []
          (record s { store_event = resize 1 null_event s.store_event }) refl)

  -- On a valid device `ReadFromDevice` makes one request, a migration to the host of the buffers of
  -- all indices to store, which waits for every event of the last `Exec`, or none where there are no
  -- such indices; it throws only if that request fails.
  pub read_from_device-issues :
      (s : OpenclDevice)
      → IsValid s
      → outcome (read_from_device lib s)
        ≡ issue lib (at_line 205) s.calls (store_requests s s.store_indices)
  unfolding read_from_device
  read_from_device-issues s v = read_at-issues s s.store_indices v refl
