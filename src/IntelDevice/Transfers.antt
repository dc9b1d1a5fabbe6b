-- ===== src/IntelDevice/Transfers.antt =====
-- `WriteToDevice` and `ReadFromDevice` of the Intel device: one transfer for each index.
use mathlib.Core.List.{append-nil, append_assoc}
use fpga_runtime.OpenclUtil.{is_success}
use fpga_runtime.Common.{
  set, ℕ, suc, ◌≡◌, true, Bool-cases, inl, inr, List, [], ◌∷◌, ◌++◌, All, arith,
}
use fpga_runtime.Common.Eq.{int_Eq}
use fpga_runtime.Common.Int.{ℤ}
use fpga_runtime.Containers.Maps
use fpga_runtime.Containers.Maps.{Map}
use fpga_runtime.Exec.{ok}
use fpga_runtime.Opencl.{
  Library, Call, Accepts, get_mem_size, enqueue_write_buffer, enqueue_read_buffer,
}
use fpga_runtime.OpenclDevice.{OpenclDevice, request}
use fpga_runtime.OpenclDevice.Requests.{outcome, checked_ok}
use fpga_runtime.IntelDevice.{
  entry, touch, touch_tables, write_from, read_from, write_to_device, read_from_device,
}

-- Each index has a buffer and a host address.
abbrev pub HasEntries : (buffers host_ptrs : Map ℤ ℕ) → List ℤ → Type 0
HasEntries buffers host_ptrs indices =
    All (λ i. (Maps.has_key i buffers ≡ true) × (Maps.has_key i host_ptrs ≡ true)) indices

pub touch_lem : (i : ℤ) (m : Map ℤ ℕ) → Maps.has_key i m ≡ true → touch i m ≡ m
unfolding touch Maps.insert Maps.has_key
touch_lem i [] h = ground arith
touch_lem i ((j, v) ∷ m) h = ground (arith, touch_lem i m)

module _ (lib : Library) where
  -- Two requests for each index: the size of its buffer, and the transfer of that many bytes from the
  -- host's address.
  abbrev pub write_calls : (cmd : ℕ) (buffers host_ptrs : Map ℤ ℕ) → List Call → List ℤ → List Call
  write_calls cmd buffers host_ptrs before [] = []
  write_calls cmd buffers host_ptrs before (i ∷ rest) =
      let size = get_mem_size (entry i buffers) in
      let c =
        enqueue_write_buffer cmd (entry i buffers) (lib.respond before size).value
          (entry i host_ptrs) [] in
      size ∷ c ∷ write_calls cmd buffers host_ptrs ((before ++ size ∷ []) ++ c ∷ []) rest

  -- The same to the host's address, after the events `waits`.
  abbrev pub read_calls :
      (cmd : ℕ) (waits : List ℕ) (buffers host_ptrs : Map ℤ ℕ) → List Call → List ℤ → List Call
  read_calls cmd waits buffers host_ptrs before [] = []
  read_calls cmd waits buffers host_ptrs before (i ∷ rest) =
      let size = get_mem_size (entry i buffers) in
      let c =
        enqueue_read_buffer cmd (entry i buffers) (lib.respond before size).value
          (entry i host_ptrs) waits in
      size ∷ c ∷ read_calls cmd waits buffers host_ptrs ((before ++ size ∷ []) ++ c ∷ []) rest

  write_from_lem :
      Accepts lib
      → (i : ℕ) (indices : List ℤ) (s : OpenclDevice)
      → HasEntries s.buffer_table s.host_ptr_table indices
      → outcome (write_from lib i indices s)
        ≡ (ok tt, s.calls ++ write_calls s.cmd s.buffer_table s.host_ptr_table s.calls indices)
  unfolding write_from touch_tables request
  write_from_lem a i [] s h = rw append-nil
  write_from_lem a i (index ∷ rest) s h =
      let size = get_mem_size (entry index s.buffer_table) in
      let t : OpenclDevice = record s { calls = s.calls ++ size ∷ [] } in
      let c =
        enqueue_write_buffer s.cmd (entry index s.buffer_table) (lib.respond s.calls size).value
          (entry index s.host_ptr_table) [] in
      let v = (lib.respond t.calls c).value in
      let next : OpenclDevice = record t {
        load_event = set t.load_event i v;
        calls = t.calls ++ c ∷ [];
      } in
      rw
        (
          touch_lem index s.buffer_table h.0.0,
          touch_lem index s.host_ptr_table h.0.1,
          checked_ok lib _ c t (a t.calls c),
          write_from_lem a (suc i) rest next h.1,
        )
        (simp append_assoc)

  -- With a library that turns nothing down, and where each index to load has a buffer and a host
  -- address, the Intel `WriteToDevice` returns, and for each of these indices, in the order of the
  -- set, it asks for the size of the buffer and then writes that many bytes from the host's address.
  pub write_to_device_intel_lem :
      (s : OpenclDevice)
      → Accepts lib
      → HasEntries s.buffer_table s.host_ptr_table s.load_indices
      → outcome (write_to_device lib s) ≡ (
        ok tt,
        s.calls ++ write_calls s.cmd s.buffer_table s.host_ptr_table s.calls s.load_indices,
      )
  unfolding write_to_device
  write_to_device_intel_lem s a h = write_from_lem a 0 s.load_indices _ h

  read_from_lem :
      (i : ℕ) (indices : List ℤ) (s : OpenclDevice)
      → HasEntries s.buffer_table s.host_ptr_table indices
      → outcome (read_from lib i indices s) ≡ (
        ok tt,
        s.calls ++ read_calls s.cmd s.compute_event s.buffer_table s.host_ptr_table s.calls indices,
      )
  unfolding read_from touch_tables request
  read_from_lem i [] s h = rw append-nil
  read_from_lem i (index ∷ rest) s h =
      let size = get_mem_size (entry index s.buffer_table) in
      let t : OpenclDevice = record s { calls = s.calls ++ size ∷ [] } in
      let c =
        enqueue_read_buffer s.cmd (entry index s.buffer_table) (lib.respond s.calls size).value
          (entry index s.host_ptr_table) s.compute_event in
      let r = lib.respond t.calls c in
      let next : OpenclDevice = record t { calls = t.calls ++ c ∷ [] } in
      rw (touch_lem index s.buffer_table h.0.0, touch_lem index s.host_ptr_table h.0.1)
        (elim (Bool-cases (is_success r.status)) [
          | inl good ↦
              rw
                (
                  good,
                  read_from_lem (suc i) rest
                      (record next { store_event = set s.store_event i r.value }) h.1,
                )
                (simp append_assoc)
          | inr bad ↦ rw (bad, read_from_lem (suc i) rest next h.1) (simp append_assoc)
        ])

  -- Where each index to store has a buffer and a host address, the Intel `ReadFromDevice` returns
  -- whatever the library answers, also if it turns a read down: for each of these indices, in the
  -- order of the set, it asks for the size of the buffer and then reads that many bytes to the host's
  -- address, after all events of the last `Exec`.
  pub read_from_device_intel_lem :
      (s : OpenclDevice)
      → HasEntries s.buffer_table s.host_ptr_table s.store_indices
      → outcome (read_from_device lib s) ≡ (
        ok tt,
        s.calls
            ++ read_calls s.cmd s.compute_event s.buffer_table s.host_ptr_table s.calls
                s.store_indices,
      )
  unfolding read_from_device
  read_from_device_intel_lem s h = read_from_lem 0 s.store_indices _ h
