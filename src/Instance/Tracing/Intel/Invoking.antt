-- ===== src/Instance/Tracing/Intel/Invoking.antt =====
-- All that `Instance::Invoke` does on an Intel device, for the argument lists of its kernels.
use fpga_runtime.Common.{ap, ℕ, ◌≤◌, ◌≡◌, true, false, List, [], ◌∷◌, ◌++◌, length, arith, codes}
use fpga_runtime.Common.Eq.{int_Eq}
use fpga_runtime.Common.Int.{ℤ}
use fpga_runtime.Containers.Maps
use fpga_runtime.Containers.Maps.{Map}
use fpga_runtime.Containers.Ordered.{assign_all}
use fpga_runtime.Containers.Sets.{contains, contains-head, contains-tail}
use fpga_runtime.Exec.{Result, ok, err, runtime_error}
use fpga_runtime.Opencl.{Library, Accepts, flush, finish}
use fpga_runtime.OpenclDevice.{OpenclDevice}
use fpga_runtime.OpenclDevice.Requests.{outcome}
use fpga_runtime.OpenclDevice.Kernels.{starts, total_args}
use fpga_runtime.OpenclDevice.Launching.{exec_lem}
use fpga_runtime.IntelDevice.Transfers.{HasEntries, write_calls, read_calls}
use fpga_runtime.IntelDevice.Events.{
  transfer_events, write_to_device-events, read_from_device-events,
}
use fpga_runtime.Instance.{Arg, intel_device, set_args, invoke, has_stream}
use fpga_runtime.Instance.Invocation.{finished, launched, last_step_lem}
use fpga_runtime.Instance.Tracing.Invoking.{owner, owner-Places}
use fpga_runtime.Instance.Tracing.Intel.{
  IsBacked, placed_intel, placed_intel-IsBacked, set_args-placed_intel, set_args-error, throwing,
}

entries :
    (buffers host_ptrs : Map ℤ ℕ) (indices : List ℤ)
    → ((i : ℤ) → contains i indices ≡ true → Maps.has_key i buffers ≡ true)
    → ((i : ℤ) → contains i indices ≡ true → Maps.has_key i host_ptrs ≡ true)
    → HasEntries buffers host_ptrs indices
entries buffers host_ptrs [] h k = tt
entries buffers host_ptrs (i ∷ rest) h k = (
  (h i (contains-head i rest), k i (contains-head i rest)),
  entries buffers host_ptrs rest (λ j there. h j (contains-tail j i rest there))
      (λ j there. k j (contains-tail j i rest there)),
)

module _ (lib : Library) where
  -- The object after the Intel `WriteToDevice`.
  abbrev pub written : OpenclDevice → OpenclDevice
  written s =
      let cs = write_calls lib s.cmd s.buffer_table s.host_ptr_table s.calls s.load_indices in
      record s { load_event = transfer_events lib s.calls cs; calls = s.calls ++ cs }

  -- The object after the Intel `ReadFromDevice`.
  abbrev pub read_back : OpenclDevice → OpenclDevice
  read_back s =
      let cs =
        read_calls lib s.cmd s.compute_event s.buffer_table s.host_ptr_table s.calls
          s.store_indices in
      record s { store_event = transfer_events lib s.calls cs; calls = s.calls ++ cs }

  -- The object that `Invoke` leaves.
  abbrev pub invoked_intel : List (ℕ × ℕ) → List Arg → OpenclDevice → OpenclDevice
  invoked_intel made args s =
      finished lib false
        (read_back (launched lib (written (placed_intel lib (owner made) 0 args s))))

  pub invoke-invoked_intel :
      (made : List (ℕ × ℕ)) (args : List Arg) (s : OpenclDevice)
      → Accepts lib
      → IsBacked s
      → s.kernels ≡ assign_all (starts 0 made) []
      → length args ≤ total_args made
      → has_stream args ≡ false
      → invoke (intel_device lib) args s ≡ (ok args, invoked_intel made args s)
  unfolding invoke intel_device
  invoke-invoked_intel made args s a v table n h =
      let s1 = placed_intel lib (owner made) 0 args s in
      let (buffers, ptrs) = placed_intel-IsBacked lib (owner made) 0 args s v in
      rw
        (
          set_args-placed_intel lib (owner made) a 0 args s
              (λ i l u. owner-Places lib made s.kernels (length args) table n i l (omega arith)) h,
          write_to_device-events lib a s1 (
              entries s1.buffer_table s1.host_ptr_table s1.load_indices buffers.load.backed
                ptrs.load.backed),
          exec_lem lib a (written s1),
          read_from_device-events lib a (launched lib (written s1)) (
              entries s1.buffer_table s1.host_ptr_table s1.store_indices buffers.store.backed
                ptrs.store.backed),
          h,
        )
        (last_step_lem lib a false args (read_back (launched lib (written s1))))

  -- With a library that turns nothing down, on an Intel device whose marked indices have a buffer and a
  -- host address, and whose kernel table has the prefix sums of the argument lists of its kernels,
  -- `Invoke` with no more arguments than there are in them, none a stream, returns. Its requests are, in
  -- this order: for each argument, to the kernel that owns it and under its number there, the bytes
  -- of a scalar, or the creation of a buffer with memory of its own and the buffer; for each index
  -- to load the size of its buffer and a write of so many bytes from the host's address; a launch of
  -- every kernel of the table after the events of all these writes; for each index to store the size
  -- and a read to the host's address after the events of all launches; the flush and the wait.
  pub invoke-placed_intel :
      (made : List (ℕ × ℕ)) (args : List Arg) (s : OpenclDevice)
      → Accepts lib
      → IsBacked s
      → s.kernels ≡ assign_all (starts 0 made) []
      → length args ≤ total_args made
      → has_stream args ≡ false
      → let t = read_back (launched lib (written (placed_intel lib (owner made) 0 args s))) in
        outcome (invoke (intel_device lib) args s)
        ≡ (ok args, t.calls ++ flush s.cmd ∷ finish s.cmd ∷ [])
  invoke-placed_intel made args s a v table n h =
      ap (λ (r : Result (List Arg) × OpenclDevice). outcome r)
        (invoke-invoked_intel made args s a v table n h)

  -- With a library that turns nothing down, on an Intel device whose kernel table has the prefix sums of
  -- the argument lists of its kernels, `Invoke` with no more arguments than there are in them throws
  -- if one of them is a stream.
  pub invoke_streams_intel :
      (made : List (ℕ × ℕ)) (args : List Arg) (s : OpenclDevice)
      → Accepts lib
      → s.kernels ≡ assign_all (starts 0 made) []
      → length args ≤ total_args made
      → has_stream args ≡ true
      → (invoke (intel_device lib) args s).0
        ≡ err (runtime_error (codes "Intel OpenCL device does not support streaming"))
  unfolding invoke
  invoke_streams_intel made args s a table n h =
      throwing (set_args (intel_device lib) 0 args) _ s _ (
        set_args-error lib (owner made) a 0 args s
          (λ i l u. owner-Places lib made s.kernels (length args) table n i l (omega arith)) h)
