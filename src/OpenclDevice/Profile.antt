-- ===== src/OpenclDevice/Profile.antt =====
-- The times and the byte counts of src/frt/opencl_device.cpp. The operands of a difference are
-- evaluated from left to right.
use fpga_runtime.OpenclUtil.{Place}
use fpga_runtime.Common.{
  ℕ, Option, none, some, ◌||◌, ◌+◌, ◌-◌, ◌%◌, ◌^◌, List, [], ◌∷◌, ltb, if◌then◌else◌,
}
use fpga_runtime.Common.Int.{ℤ, pos, negsuc, ◌-ℤ◌, ltb_ℤ}
use fpga_runtime.Exec.{pure, require, undefined, ◌>>=◌}
use fpga_runtime.Opencl.{
  Library, ProfilingInfo, get_profiling_info, get_mem_size, cl_profiling_command_start,
  cl_profiling_command_end,
}
use fpga_runtime.Buffer.{size_mod}
use fpga_runtime.OpenclDevice.{Method, checked, get_load_buffers, get_store_buffers, here}

-- A `cl_ulong` converted to `int64_t`.
abbrev pub to_int64 : ℕ → ℤ
to_int64 v = let w = v % 2 ^ 64 in if ltb w (2 ^ 63) then pos w else negsuc (2 ^ 64 - w - 1)

-- The difference of two `int64_t`, which has no defined value where it overflows.
unfoldable pub int64_minus : ℤ → ℤ → Option ℤ
int64_minus a b =
    if ltb_ℤ (a -ℤ b) (negsuc (2 ^ 63 - 1)) || ltb_ℤ (pos (2 ^ 63 - 1)) (a -ℤ b)
    then none
    else some (a -ℤ b)

module _ (lib : Library) where
  unfoldable pub get_time : ProfilingInfo → ℕ → Method ℤ
  get_time name event = do
    time ← checked lib (here 21) (get_profiling_info name event)
    pure (to_int64 time)

  -- The loops of `Earliest` and `Latest`.
  unfoldable pub earliest_from : ProfilingInfo → ℤ → List ℕ → Method ℤ
  earliest_from name best [] = pure best
  earliest_from name best (event ∷ events) = do
    time ← get_time name event
    earliest_from name (if ltb_ℤ time best then time else best) events

  unfoldable pub latest_from : ProfilingInfo → ℤ → List ℕ → Method ℤ
  latest_from name best [] = pure best
  latest_from name best (event ∷ events) = do
    time ← get_time name event
    latest_from name (if ltb_ℤ best time then time else best) events

  unfoldable pub earliest : ProfilingInfo → List ℕ → Method ℤ
  earliest name [] = pure (pos 0)
  earliest name (event ∷ events) = earliest_from name (pos (2 ^ 63 - 1)) (event ∷ events)

  unfoldable pub latest : ProfilingInfo → List ℕ → Method ℤ
  latest name [] = pure (pos 0)
  latest name (event ∷ events) = latest_from name (negsuc (2 ^ 63 - 1)) (event ∷ events)

  -- The three times are this difference at `load_event`, `compute_event` and `store_event`.
  unfoldable pub span : List ℕ → Method ℤ
  span events = do
    end ← latest cl_profiling_command_end events
    start ← earliest cl_profiling_command_start events
    require undefined (int64_minus end start)

  unfoldable pub load_time_nanoseconds : Method ℤ
  load_time_nanoseconds s = span s.load_event s

  unfoldable pub compute_time_nanoseconds : Method ℤ
  compute_time_nanoseconds s = span s.compute_event s

  unfoldable pub store_time_nanoseconds : Method ℤ
  store_time_nanoseconds s = span s.store_event s

  -- The loop of `LoadBytes` and `StoreBytes`, each of which has its own `CL_CHECK`.
  unfoldable pub sum_sizes : Place → ℕ → List ℕ → Method ℕ
  sum_sizes at total [] = pure total
  sum_sizes at total (buffer ∷ buffers) = do
    size ← checked lib at (get_mem_size buffer)
    sum_sizes at ((total + size) % size_mod) buffers

  unfoldable pub load_bytes : Method ℕ
  load_bytes = do buffers ← get_load_buffers; sum_sizes (here 132) 0 buffers

  unfoldable pub store_bytes : Method ℕ
  store_bytes = do buffers ← get_store_buffers; sum_sizes (here 141) 0 buffers
