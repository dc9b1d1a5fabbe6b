-- ===== src/XilinxDevice/Events.antt =====
-- The transfers of a Xilinx device with a library that turns nothing down: what they leave in the object.
use mathlib.Core.List.{append-nil}
use fpga_runtime.Common.{
  ℕ, suc, ◌-◌, ◌≡◌, refl, List, [], ◌∷◌, ◌++◌, map, set, resize, length, arith,
}
use fpga_runtime.Common.Int.{ℤ}
use fpga_runtime.Exec.{ok}
use fpga_runtime.Opencl.{Library, Accepts, cl_migrate_mem_object_host, enqueue_migrate_mem_objects}
use fpga_runtime.OpenclDevice.{OpenclDevice, null_event}
use fpga_runtime.OpenclDevice.Validity.{IsValid, buffer_of}
use fpga_runtime.OpenclDevice.Requests.{checked_ok}
use fpga_runtime.OpenclDevice.Launching.{launch_events}
use fpga_runtime.XilinxDevice.{write_at, read_at, write_to_device, read_from_device}
use fpga_runtime.XilinxDevice.Transfers.{
  load_requests, store_requests, get_load_buffers_lem, get_store_buffers_lem,
}

-- `resize(1)` and a write of the one element.
set-resize_one : (v : ℕ) (xs : List ℕ) → set (resize 1 null_event xs) 0 v ≡ v ∷ []
set-resize_one v [] = refl
set-resize_one v (x ∷ xs) = let none_left : 1 - suc (length xs) ≡ 0 = omega arith in rw none_left

module _ (lib : Library) (a : Accepts lib) where
  write_at_lem :
      (s : OpenclDevice) (indices : List ℤ)
      → IsValid s
      → s.load_indices ≡ indices
      → write_at lib indices s ≡ (
        ok tt,
        record s {
          load_event = launch_events lib s.calls (load_requests s indices);
          calls = s.calls ++ load_requests s indices;
        },
      )
  unfolding write_at
  write_at_lem s [] v e = rw append-nil
  write_at_lem s (i ∷ rest) v e =
      let t : OpenclDevice = record s { load_event = resize 1 null_event s.load_event } in
      let c = enqueue_migrate_mem_objects s.cmd (map (buffer_of s.buffer_table) (i ∷ rest)) [] [] in
      rw (
        get_load_buffers_lem t (i ∷ rest) v e,
        checked_ok lib _ c t (a s.calls c),
        set-resize_one (lib.respond s.calls c).value s.load_event,
      )

  -- `WriteToDevice` on a valid device returns, and then `load_event_` holds the event of the migration, or
  -- nothing where there is nothing to load; beside it only the log of requests has changed.
  pub write_to_device_lem :
      (s : OpenclDevice)
      → IsValid s
      → write_to_device lib s ≡ (
        ok tt,
        record s {
          load_event = launch_events lib s.calls (load_requests s s.load_indices);
          calls = s.calls ++ load_requests s s.load_indices;
        },
      )
  unfolding write_to_device
  write_to_device_lem s v = write_at_lem s s.load_indices v refl

  read_at_lem :
      (s : OpenclDevice) (indices : List ℤ)
      → IsValid s
      → s.store_indices ≡ indices
      → read_at lib indices s ≡ (
        ok tt,
        record s {
          store_event = launch_events lib s.calls (store_requests s indices);
          calls = s.calls ++ store_requests s indices;
        },
      )
  unfolding read_at
  read_at_lem s [] v e = rw append-nil
  read_at_lem s (i ∷ rest) v e =
      let t : OpenclDevice = record s { store_event = resize 1 null_event s.store_event } in
      let c =
        enqueue_migrate_mem_objects s.cmd (map (buffer_of s.buffer_table) (i ∷ rest))
          (cl_migrate_mem_object_host ∷ []) s.compute_event in
      rw (
        get_store_buffers_lem t (i ∷ rest) v e,
        checked_ok lib _ c t (a s.calls c),
        set-resize_one (lib.respond s.calls c).value s.store_event,
      )

  pub read_from_device_lem :
      (s : OpenclDevice)
      → IsValid s
      → read_from_device lib s ≡ (
        ok tt,
        record s {
          store_event = launch_events lib s.calls (store_requests s s.store_indices);
          calls = s.calls ++ store_requests s s.store_indices;
        },
      )
  unfolding read_from_device
  read_from_device_lem s v = read_at_lem s s.store_indices v refl
