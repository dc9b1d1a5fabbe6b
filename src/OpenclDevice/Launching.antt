-- ===== src/OpenclDevice/Launching.antt =====
-- `OpenclDevice::Exec` and `OpenclDevice::Finish`.
use mathlib.Core.List.{append-nil, append_assoc}
use fpga_runtime.Common.{
  length-resize, ℕ, suc, ◌≡◌, refl, List, [], ◌∷◌, ◌++◌, length, set, resize, set-append,
  length-append, arith,
}
use fpga_runtime.Containers.Ordered.{OrderedMap}
use fpga_runtime.Exec.{ok}
use fpga_runtime.Opencl.{Library, Call, Accepts, enqueue_nd_range_kernel}
use fpga_runtime.OpenclDevice.{OpenclDevice, launch, exec, null_event, here}
use fpga_runtime.OpenclDevice.Requests.{outcome, issue, checked_ok, checked-issues}

-- One launch for each entry of the kernel table, in the table's order.
abbrev pub launch_calls : (cmd : ℕ) (waits : List ℕ) → OrderedMap ℕ → List Call
launch_calls cmd waits [] = []
launch_calls cmd waits ((first, kernel) ∷ rest) =
    enqueue_nd_range_kernel cmd kernel waits ∷ launch_calls cmd waits rest

module _ (lib : Library) where
  launch-issues :
      (i : ℕ) (ks : OrderedMap ℕ) (s : OpenclDevice)
      → outcome (launch lib i ks s)
        ≡ issue lib (here 90) s.calls (launch_calls s.cmd s.load_event ks)
  unfolding launch
  launch-issues i [] s = unfold issue in refl
  launch-issues i ((first, kernel) ∷ rest) s =
      checked-issues lib _ (enqueue_nd_range_kernel s.cmd kernel s.load_event) _
        (launch_calls s.cmd s.load_event rest) s (launch-issues (suc i) rest _)

  -- `Exec` makes one launch for each entry of the kernel table, in the order of the keys, each of which
  -- waits for the events of the last load; the first that the library turns down is thrown, and none
  -- is made after it.
  pub exec-issues :
      (s : OpenclDevice)
      → outcome (exec lib s)
        ≡ issue lib (here 90) s.calls (launch_calls s.cmd s.load_event s.kernels)
  unfolding exec
  exec-issues s = launch-issues 0 s.kernels _

  -- The events of the launches that a library accepts.
  abbrev pub launch_events : List Call → List Call → List ℕ
  launch_events before [] = []
  launch_events before (c ∷ cs) = (lib.respond before c).value ∷ launch_events (before ++ c ∷ []) cs

  launch_lem :
      Accepts lib
      → (i : ℕ) (done todo : List ℕ) (ks : OrderedMap ℕ) (s : OpenclDevice) → i ≡ length done
      → length todo ≡ length ks
      → launch lib i ks (record s { compute_event = done ++ todo }) ≡ (
        ok tt,
        record s {
          compute_event = done ++ launch_events s.calls (launch_calls s.cmd s.load_event ks);
          calls = s.calls ++ launch_calls s.cmd s.load_event ks;
        },
      )
  unfolding launch
  launch_lem a i done [] [] s h e = simp append-nil
  launch_lem a i done (x ∷ todo) [] s h e = absurd (omega arith)
  launch_lem a i done [] (k ∷ ks) s h e = absurd (omega arith)
  launch_lem a i done (x ∷ todo) ((first, kernel) ∷ ks) s h e =
      let c = enqueue_nd_range_kernel s.cmd kernel s.load_event in
      let v = (lib.respond s.calls c).value in
      let longer : suc i ≡ length (done ++ v ∷ []) = omega (arith, length-append done (v ∷ [])) in
      let shape : (done ++ v ∷ []) ++ todo ≡ set (done ++ x ∷ todo) i v =
        rw (h, set-append done x todo v) (append_assoc done (v ∷ []) todo) in
      let next : OpenclDevice = record s { calls = s.calls ++ c ∷ [] } in
      rw
        (
          checked_ok lib _ c (record s { compute_event = done ++ x ∷ todo }) (a s.calls c),
          ← shape,
          launch_lem a (suc i) (done ++ v ∷ []) todo ks next longer (omega arith),
        )
        (simp append_assoc)

  -- A library that turns nothing down: `Exec` returns, and `compute_event_` then holds one event for each
  -- entry of the kernel table, the one that the library gave for its launch, whatever it held before;
  -- the rest of the object is as before, but for the launches in the log.
  pub exec_lem :
      Accepts lib
      → (s : OpenclDevice)
      → let cs = launch_calls s.cmd s.load_event s.kernels in
        exec lib s
        ≡ (ok tt, record s { compute_event = launch_events s.calls cs; calls = s.calls ++ cs })
  unfolding exec
  exec_lem a s =
      launch_lem a 0 [] (resize (length s.kernels) null_event s.compute_event) s.kernels s refl
        (length-resize (length s.kernels) null_event s.compute_event)
