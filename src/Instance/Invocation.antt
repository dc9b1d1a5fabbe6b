-- ===== src/Instance/Invocation.antt =====
-- `Instance::Invoke` on a Xilinx device.
use fpga_runtime.Common.{ℕ, Bool, true, false, List, [], ◌∷◌, ◌++◌, ◌≡◌, if◌then◌else◌}
use mathlib.Core.Path.{subst}
use mathlib.Core.List.{append-nil, append_assoc}
use fpga_runtime.OpenclDevice.Requests.{checked_ok}
use fpga_runtime.Exec.{Result, ok, pure, ◌>>◌}
use fpga_runtime.Opencl.{Library, Call, Accepts, flush, finish}
use fpga_runtime.OpenclDevice.{OpenclDevice, Method, finish_queue}
use fpga_runtime.OpenclDevice.Safety.{IsFine}
use fpga_runtime.OpenclDevice.Validity.{IsValid}
use fpga_runtime.OpenclDevice.Launching.{launch_calls, launch_events, exec_lem}
use fpga_runtime.XilinxDevice.Transfers.{load_requests, store_requests}
use fpga_runtime.XilinxDevice.Events.{write_to_device_lem, read_from_device_lem}
use fpga_runtime.Instance.{Arg, xilinx_device, set_args, invoke, has_stream}
use fpga_runtime.Instance.Arguments.{set_args-IsSafe}

module _ (lib : Library) where
  -- The object after `WriteToDevice`.
  abbrev pub loaded : OpenclDevice → OpenclDevice
  loaded s = record s {
    load_event = launch_events lib s.calls (load_requests s s.load_indices);
    calls = s.calls ++ load_requests s s.load_indices;
  }

  -- The object after `Exec`.
  abbrev pub launched : OpenclDevice → OpenclDevice
  launched s =
      let cs = launch_calls s.cmd s.load_event s.kernels in
      record s { compute_event = launch_events lib s.calls cs; calls = s.calls ++ cs }

  -- The object after `ReadFromDevice`.
  abbrev pub stored : OpenclDevice → OpenclDevice
  stored s = record s {
    store_event = launch_events lib s.calls (store_requests s s.store_indices);
    calls = s.calls ++ store_requests s s.store_indices;
  }

  -- The requests at the end of `Invoke`.
  abbrev pub final_requests : Bool → ℕ → List Call
  final_requests streams cmd = if streams then [] else flush cmd ∷ finish cmd ∷ []

  abbrev last_step : Bool → List Arg → Method (List Arg)
  last_step streams args = if streams then pure args else (do finish_queue lib; pure args)

  -- `Finish`, as what it leaves.
  finish_queue_lem :
      Accepts lib
      → (s : OpenclDevice)
      → finish_queue lib s
        ≡ (ok tt, record s { calls = s.calls ++ flush s.cmd ∷ finish s.cmd ∷ [] })
  unfolding finish_queue
  finish_queue_lem a s =
      let s1 : OpenclDevice = record s { calls = s.calls ++ flush s.cmd ∷ [] } in
      rw
        (
          checked_ok lib _ (flush s.cmd) s (a s.calls _),
          checked_ok lib _ (finish s.cmd) s1 (a s1.calls _),
        )
        (rw append_assoc)

  -- The object with the last requests.
  abbrev pub finished : Bool → OpenclDevice → OpenclDevice
  finished streams s = record s { calls = s.calls ++ final_requests streams s.cmd }

  pub last_step_lem :
      Accepts lib
      → (streams : Bool) (args : List Arg) (s : OpenclDevice)
      → last_step streams args s ≡ (ok args, finished streams s)
  last_step_lem a true args s = rw append-nil
  last_step_lem a false args s = rw (finish_queue_lem a s)

  -- With a library that turns nothing down, on a valid Xilinx device on which the arguments can be set,
  -- `Invoke` returns, and after the arguments it has made, in this order: a migration of the buffers
  -- to load, if there are any; a launch of every entry of the kernel table, which waits for the event
  -- of that migration; a migration of the buffers to store, if there are any, which waits for the
  -- events of those launches; and, only if no argument is a stream, the flush and the wait for the
  -- queue. It leaves the events of the three steps, and nothing else is changed.
  pub invoke_lem :
      (args args' : List Arg) (s s1 : OpenclDevice)
      → Accepts lib
      → IsValid s
      → set_args (xilinx_device lib) 0 args s ≡ (ok args', s1)
      → invoke (xilinx_device lib) args s
        ≡ (ok args', finished (has_stream args) (stored (launched (loaded s1))))
  unfolding invoke xilinx_device
  invoke_lem args args' s s1 a v e =
      let v1 : IsValid s1 =
        (subst (λ (p : Result (List Arg) × OpenclDevice). IsFine p) e
          (set_args-IsSafe lib 0 args s v)).0 in
      rw
        (
          e,
          write_to_device_lem lib a s1 v1,
          exec_lem lib a (loaded s1),
          read_from_device_lem lib a (launched (loaded s1)) v1,
        )
        (last_step_lem a (has_stream args) args' (stored (launched (loaded s1))))
