-- ===== src/IntelDevice/Events.antt =====
-- The transfers of an Intel device with a library that turns nothing down: what they leave in the object.
use mathlib.Core.List.{append-nil, append_assoc}
use fpga_runtime.Common.{
  ℕ, suc, ◌≡◌, refl, List, [], ◌∷◌, ◌++◌, set, resize, length, arith, set-append, length-append,
  length-resize,
}
use fpga_runtime.Common.Int.{ℤ}
use fpga_runtime.Exec.{ok}
use fpga_runtime.Opencl.{
  Library, Call, Accepts, get_mem_size, enqueue_write_buffer, enqueue_read_buffer,
}
use fpga_runtime.OpenclDevice.{OpenclDevice, null_event, request}
use fpga_runtime.OpenclDevice.Requests.{checked_ok}
use fpga_runtime.IntelDevice.{
  entry, touch_tables, write_from, read_from, write_to_device, read_from_device,
}
use fpga_runtime.IntelDevice.Transfers.{HasEntries, touch_lem, write_calls, read_calls}

-- The events of the transfers among requests of which every second one is a transfer.
abbrev pub transfer_events : Library → List Call → List Call → List ℕ
transfer_events lib before [] = []
transfer_events lib before (size ∷ []) = []
transfer_events lib before (size ∷ c ∷ cs) =
    (lib.respond (before ++ size ∷ []) c).value
    ∷ transfer_events lib ((before ++ size ∷ []) ++ c ∷ []) cs

module _ (lib : Library) (a : Accepts lib) where
  write_from-events :
      (i : ℕ) (done todo : List ℕ) (indices : List ℤ) (s : OpenclDevice)
      → i ≡ length done
      → length todo ≡ length indices
      → HasEntries s.buffer_table s.host_ptr_table indices
      → let cs = write_calls lib s.cmd s.buffer_table s.host_ptr_table s.calls indices in
        write_from lib i indices (record s { load_event = done ++ todo }) ≡ (
          ok tt,
          record s { load_event = done ++ transfer_events lib s.calls cs; calls = s.calls ++ cs },
        )
  unfolding write_from touch_tables request
  write_from-events i done [] [] s p e h = simp append-nil
  write_from-events i done (x ∷ todo) [] s p e h = absurd (omega arith)
  write_from-events i done [] (index ∷ rest) s p e h = absurd (omega arith)
  write_from-events i done (x ∷ todo) (index ∷ rest) s p e h =
      let size = get_mem_size (entry index s.buffer_table) in
      let c =
        enqueue_write_buffer s.cmd (entry index s.buffer_table) (lib.respond s.calls size).value
          (entry index s.host_ptr_table) [] in
      let t : OpenclDevice = record s {
        load_event = done ++ x ∷ todo;
        calls = s.calls ++ size ∷ [];
      } in
      let v = (lib.respond t.calls c).value in
      let next : OpenclDevice = record s { calls = t.calls ++ c ∷ [] } in
      let longer : suc i ≡ length (done ++ v ∷ []) = omega (arith, length-append done (v ∷ [])) in
      let shape : (done ++ v ∷ []) ++ todo ≡ set (done ++ x ∷ todo) i v =
        rw (p, set-append done x todo v) (append_assoc done (v ∷ []) todo) in
      rw
        (
          touch_lem index s.buffer_table h.0.0,
          touch_lem index s.host_ptr_table h.0.1,
          checked_ok lib _ c t (a t.calls c),
          ← shape,
          write_from-events (suc i) (done ++ v ∷ []) todo rest next longer (omega arith) h.1,
        )
        (simp append_assoc)

  pub write_to_device-events :
      (s : OpenclDevice)
      → HasEntries s.buffer_table s.host_ptr_table s.load_indices
      → let cs = write_calls lib s.cmd s.buffer_table s.host_ptr_table s.calls s.load_indices in
        write_to_device lib s
        ≡ (ok tt, record s { load_event = transfer_events lib s.calls cs; calls = s.calls ++ cs })
  unfolding write_to_device
  write_to_device-events s h =
      write_from-events 0 [] (resize (length s.load_indices) null_event s.load_event) s.load_indices
        s refl (length-resize (length s.load_indices) null_event s.load_event) h

  read_from-events :
      (i : ℕ) (done todo : List ℕ) (indices : List ℤ) (s : OpenclDevice)
      → i ≡ length done
      → length todo ≡ length indices
      → HasEntries s.buffer_table s.host_ptr_table indices
      → let cs =
          read_calls lib s.cmd s.compute_event s.buffer_table s.host_ptr_table s.calls indices in
        read_from lib i indices (record s { store_event = done ++ todo }) ≡ (
          ok tt,
          record s { store_event = done ++ transfer_events lib s.calls cs; calls = s.calls ++ cs },
        )
  unfolding read_from touch_tables request
  read_from-events i done [] [] s p e h = simp append-nil
  read_from-events i done (x ∷ todo) [] s p e h = absurd (omega arith)
  read_from-events i done [] (index ∷ rest) s p e h = absurd (omega arith)
  read_from-events i done (x ∷ todo) (index ∷ rest) s p e h =
      let size = get_mem_size (entry index s.buffer_table) in
      let c =
        enqueue_read_buffer s.cmd (entry index s.buffer_table) (lib.respond s.calls size).value
          (entry index s.host_ptr_table) s.compute_event in
      let before = s.calls ++ size ∷ [] in
      let v = (lib.respond before c).value in
      let next : OpenclDevice = record s { calls = before ++ c ∷ [] } in
      let longer : suc i ≡ length (done ++ v ∷ []) = omega (arith, length-append done (v ∷ [])) in
      let shape : (done ++ v ∷ []) ++ todo ≡ set (done ++ x ∷ todo) i v =
        rw (p, set-append done x todo v) (append_assoc done (v ∷ []) todo) in
      rw
        (
          touch_lem index s.buffer_table h.0.0,
          touch_lem index s.host_ptr_table h.0.1,
          a before c,
          ← shape,
          read_from-events (suc i) (done ++ v ∷ []) todo rest next longer (omega arith) h.1,
        )
        (simp append_assoc)

  pub read_from_device-events :
      (s : OpenclDevice)
      → HasEntries s.buffer_table s.host_ptr_table s.store_indices
      → let cs =
          read_calls lib s.cmd s.compute_event s.buffer_table s.host_ptr_table s.calls
            s.store_indices in
        read_from_device lib s
        ≡ (ok tt, record s { store_event = transfer_events lib s.calls cs; calls = s.calls ++ cs })
  unfolding read_from_device
  read_from_device-events s h =
      read_from-events 0 [] (resize (length s.store_indices) null_event s.store_event)
        s.store_indices s refl (length-resize (length s.store_indices) null_event s.store_event) h
