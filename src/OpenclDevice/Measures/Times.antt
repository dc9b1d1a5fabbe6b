-- ===== src/OpenclDevice/Measures/Times.antt =====
-- `Earliest`, `Latest` and the three times of an OpenCL device.
use mathlib.Core.List.{append-nil, append_assoc}
use fpga_runtime.Common.{◌≡◌, ltb, if◌then◌else◌, ℕ, ◌^◌, ◌-◌, List, [], ◌∷◌, ◌++◌, map, arith}
use fpga_runtime.Common.Int.{ℤ, pos, negsuc, ◌≤ℤ◌, ◌-ℤ◌}
use fpga_runtime.Exec.{Result, ok, err, undefined, require}
use fpga_runtime.Opencl.{
  Library, Call, Accepts, ProfilingInfo, get_profiling_info, cl_profiling_command_start,
  cl_profiling_command_end,
}
use fpga_runtime.OpenclDevice.{OpenclDevice}
use fpga_runtime.OpenclDevice.Profile.{
  to_int64, get_time, earliest_from, latest_from, earliest, latest, span, int64_minus,
}
use fpga_runtime.OpenclDevice.Requests.{checked_ok}
use fpga_runtime.OpenclDevice.Measures.{
  IsGreatest, IsLeast, max_ℤ, min_ℤ, greatest_from, least_from, greatest_from-bounds,
  least_from-bounds, greatest_from-contains, least_from-contains, greatest_from-above,
  least_from-below,
}

-- One question for each event.
abbrev pub time_calls : ProfilingInfo → List ℕ → List Call
time_calls name events = map (get_profiling_info name) events

to_int64-bounds : (v : ℕ) → (negsuc (2 ^ 63 - 1) ≤ℤ to_int64 v) × (to_int64 v ≤ℤ pos (2 ^ 63 - 1))
to_int64-bounds v = ground arith

-- A time where it fits an `int64_t`, and what is undefined where it does not.
unfoldable pub int64_or_undefined : ℤ → Result ℤ
int64_or_undefined (pos n) = if ltb n (2 ^ 63) then ok (pos n) else err undefined
int64_or_undefined (negsuc n) = if ltb n (2 ^ 63) then ok (negsuc n) else err undefined

require-int64 :
    (a b : ℤ) (s : OpenclDevice)
    → require undefined (int64_minus a b) s ≡ (int64_or_undefined (a -ℤ b), s)
unfolding int64_minus int64_or_undefined
require-int64 a b s = elim (a -ℤ b) [ pos n ↦ ground arith | negsuc n ↦ ground arith ]

module _ (lib : Library) where
  -- The answers to these questions, as `int64_t`.
  abbrev pub times_of : ProfilingInfo → List Call → List ℕ → List ℤ
  times_of name before [] = []
  times_of name before (event ∷ events) =
      let c = get_profiling_info name event in
      to_int64 (lib.respond before c).value ∷ times_of name (before ++ c ∷ []) events

  get_time_lem :
      Accepts lib
      → (name : ProfilingInfo) (event : ℕ) (s : OpenclDevice)
      → get_time lib name event s ≡ (
        ok (to_int64 (lib.respond s.calls (get_profiling_info name event)).value),
        record s { calls = s.calls ++ get_profiling_info name event ∷ [] },
      )
  unfolding get_time
  get_time_lem a name event s =
      rw (checked_ok lib _ (get_profiling_info name event) s (a s.calls _))

  latest_from_lem :
      Accepts lib
      → (name : ProfilingInfo) (best : ℤ) (events : List ℕ) (s : OpenclDevice)
      → latest_from lib name best events s ≡ (
        ok (greatest_from best (times_of name s.calls events)),
        record s { calls = s.calls ++ time_calls name events },
      )
  unfolding latest_from
  latest_from_lem a name best [] s = rw append-nil
  latest_from_lem a name best (event ∷ events) s =
      let c = get_profiling_info name event in
      rw
        (
          get_time_lem a name event s,
          latest_from_lem a name (max_ℤ best (to_int64 (lib.respond s.calls c).value)) events
              (record s { calls = s.calls ++ c ∷ [] }),
        )
        (rw append_assoc)

  earliest_from_lem :
      Accepts lib
      → (name : ProfilingInfo) (best : ℤ) (events : List ℕ) (s : OpenclDevice)
      → earliest_from lib name best events s ≡ (
        ok (least_from best (times_of name s.calls events)),
        record s { calls = s.calls ++ time_calls name events },
      )
  unfolding earliest_from
  earliest_from_lem a name best [] s = rw append-nil
  earliest_from_lem a name best (event ∷ events) s =
      let c = get_profiling_info name event in
      rw
        (
          get_time_lem a name event s,
          earliest_from_lem a name (min_ℤ best (to_int64 (lib.respond s.calls c).value)) events
              (record s { calls = s.calls ++ c ∷ [] }),
        )
        (rw append_assoc)

  -- The two initial values are below and above every time.
  latest_lem :
      Accepts lib
      → (name : ProfilingInfo) (event : ℕ) (events : List ℕ) (s : OpenclDevice)
      → (time : ℤ) × IsGreatest time (times_of name s.calls (event ∷ events))
        × (latest lib name (event ∷ events) s
            ≡ (ok time, record s { calls = s.calls ++ time_calls name (event ∷ events) }))
  unfolding latest
  latest_lem a name event events s =
      let c = get_profiling_info name event in
      let x = to_int64 (lib.respond s.calls c).value in
      let xs = times_of name (s.calls ++ c ∷ []) events in
      (
        greatest_from x xs,
        (greatest_from-contains x xs, greatest_from-bounds x xs),
        rw (
          latest_from_lem a name (negsuc (2 ^ 63 - 1)) (event ∷ events) s,
          greatest_from-above (negsuc (2 ^ 63 - 1)) x xs (to_int64-bounds _).0,
        ),
      )

  earliest_lem :
      Accepts lib
      → (name : ProfilingInfo) (event : ℕ) (events : List ℕ) (s : OpenclDevice)
      → (time : ℤ) × IsLeast time (times_of name s.calls (event ∷ events))
        × (earliest lib name (event ∷ events) s
            ≡ (ok time, record s { calls = s.calls ++ time_calls name (event ∷ events) }))
  unfolding earliest
  earliest_lem a name event events s =
      let c = get_profiling_info name event in
      let x = to_int64 (lib.respond s.calls c).value in
      let xs = times_of name (s.calls ++ c ∷ []) events in
      (
        least_from x xs,
        (least_from-contains x xs, least_from-bounds x xs),
        rw (
          earliest_from_lem a name (pos (2 ^ 63 - 1)) (event ∷ events) s,
          least_from-below (pos (2 ^ 63 - 1)) x xs (to_int64-bounds _).1,
        ),
      )

  -- With a library that turns nothing down, the time of one event or more is the latest of their ends
  -- less the earliest of their starts, as the library gives them, where that is at least -2 ^ 63 and
  -- less than 2 ^ 63, and else undefined; it asks for all ends and then for all starts, in the order
  -- of the events, and changes nothing but the log.
  pub span_lem :
      Accepts lib
      → (event : ℕ) (events : List ℕ) (s : OpenclDevice)
      → let ends = time_calls cl_profiling_command_end (event ∷ events) in
        let starts = time_calls cl_profiling_command_start (event ∷ events) in
        (end : ℤ) × (start : ℤ) × IsGreatest end
          (times_of cl_profiling_command_end s.calls (event ∷ events))
        × IsLeast start (times_of cl_profiling_command_start (s.calls ++ ends) (event ∷ events))
        × (span lib (event ∷ events) s
            ≡ (int64_or_undefined (end -ℤ start), record s { calls = (s.calls ++ ends) ++ starts }))
  unfolding span
  span_lem a event events s =
      let s1 : OpenclDevice = record s {
        calls = s.calls ++ time_calls cl_profiling_command_end (event ∷ events);
      } in
      let (end, greatest, e) = latest_lem a cl_profiling_command_end event events s in
      let (start, least, f) = earliest_lem a cl_profiling_command_start event events s1 in
      (end, start, greatest, least, rw (e, f) (require-int64 end start _))
