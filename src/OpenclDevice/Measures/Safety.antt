-- ===== src/OpenclDevice/Measures/Safety.antt =====
-- The times and the byte counts never fail to find a buffer.
use fpga_runtime.OpenclUtil.{Place}
use fpga_runtime.Common.{ℕ, ◌+◌, ◌%◌, List, [], ◌∷◌, none, some, Option, if◌then◌else◌}
use fpga_runtime.Common.Int.{ℤ, ltb_ℤ}
use fpga_runtime.Exec.{require, undefined}
use fpga_runtime.Opencl.{Library, ProfilingInfo}
use fpga_runtime.Buffer.{size_mod}
use fpga_runtime.OpenclDevice.{checked, get_load_buffers, get_store_buffers}
use fpga_runtime.OpenclDevice.Validity.{buffers_at-Backed}
use fpga_runtime.OpenclDevice.Safety.{IsSafe, bind-IsSafe, checked-IsSafe}
use fpga_runtime.OpenclDevice.Profile.{
  get_time, earliest_from, latest_from, earliest, latest, span, int64_minus, sum_sizes, load_bytes,
  store_bytes, load_time_nanoseconds, compute_time_nanoseconds, store_time_nanoseconds,
}

defined-IsSafe : {A : Type 0} (o : Option A) → IsSafe (require undefined o)
defined-IsSafe none s v = (v, tt)
defined-IsSafe (some a) s v = (v, tt)

get_load_buffers-IsSafe : IsSafe get_load_buffers
unfolding get_load_buffers
get_load_buffers-IsSafe s v = rw (buffers_at-Backed s.buffer_table s.load_indices v.load) (v, tt)

get_store_buffers-IsSafe : IsSafe get_store_buffers
unfolding get_store_buffers
get_store_buffers-IsSafe s v = rw (buffers_at-Backed s.buffer_table s.store_indices v.store) (v, tt)

module _ (lib : Library) where
  get_time-IsSafe : (name : ProfilingInfo) (event : ℕ) → IsSafe (get_time lib name event)
  unfolding get_time
  get_time-IsSafe name event =
      bind-IsSafe (checked lib _ _) _ (checked-IsSafe lib _ _) (λ _ s v. (v, tt))

  earliest_from-IsSafe :
      (name : ProfilingInfo) (best : ℤ) (events : List ℕ)
      → IsSafe (earliest_from lib name best events)
  unfolding earliest_from
  earliest_from-IsSafe name best [] s v = (v, tt)
  earliest_from-IsSafe name best (event ∷ events) s v =
      bind-IsSafe (get_time lib name event) _ (get_time-IsSafe name event)
        (λ time. earliest_from-IsSafe name (if ltb_ℤ time best then time else best) events) s v

  latest_from-IsSafe :
      (name : ProfilingInfo) (best : ℤ) (events : List ℕ)
      → IsSafe (latest_from lib name best events)
  unfolding latest_from
  latest_from-IsSafe name best [] s v = (v, tt)
  latest_from-IsSafe name best (event ∷ events) s v =
      bind-IsSafe (get_time lib name event) _ (get_time-IsSafe name event)
        (λ time. latest_from-IsSafe name (if ltb_ℤ best time then time else best) events) s v

  earliest-IsSafe : (name : ProfilingInfo) (events : List ℕ) → IsSafe (earliest lib name events)
  unfolding earliest
  earliest-IsSafe name [] s v = (v, tt)
  earliest-IsSafe name (event ∷ events) s v = earliest_from-IsSafe name _ (event ∷ events) s v

  latest-IsSafe : (name : ProfilingInfo) (events : List ℕ) → IsSafe (latest lib name events)
  unfolding latest
  latest-IsSafe name [] s v = (v, tt)
  latest-IsSafe name (event ∷ events) s v = latest_from-IsSafe name _ (event ∷ events) s v

  span-IsSafe : (events : List ℕ) → IsSafe (span lib events)
  unfolding span
  span-IsSafe events = bind-IsSafe (latest lib _ events) _ (latest-IsSafe _ events) (λ end.
      bind-IsSafe (earliest lib _ events) _ (earliest-IsSafe _ events)
        (λ start. defined-IsSafe (int64_minus end start)))

  pub load_time-IsSafe : IsSafe (load_time_nanoseconds lib)
  unfolding load_time_nanoseconds
  load_time-IsSafe s v = span-IsSafe s.load_event s v

  pub compute_time-IsSafe : IsSafe (compute_time_nanoseconds lib)
  unfolding compute_time_nanoseconds
  compute_time-IsSafe s v = span-IsSafe s.compute_event s v

  pub store_time-IsSafe : IsSafe (store_time_nanoseconds lib)
  unfolding store_time_nanoseconds
  store_time-IsSafe s v = span-IsSafe s.store_event s v

  sum_sizes-IsSafe :
      (at : Place) (total : ℕ) (buffers : List ℕ) → IsSafe (sum_sizes lib at total buffers)
  unfolding sum_sizes
  sum_sizes-IsSafe at total [] s v = (v, tt)
  sum_sizes-IsSafe at total (buffer ∷ buffers) s v =
      bind-IsSafe (checked lib _ _) _ (checked-IsSafe lib _ _)
        (λ size. sum_sizes-IsSafe at ((total + size) % size_mod) buffers) s v

  pub load_bytes-IsSafe : IsSafe (load_bytes lib)
  unfolding load_bytes
  load_bytes-IsSafe =
      bind-IsSafe get_load_buffers _ get_load_buffers-IsSafe
        (λ buffers. sum_sizes-IsSafe _ 0 buffers)

  pub store_bytes-IsSafe : IsSafe (store_bytes lib)
  unfolding store_bytes
  store_bytes-IsSafe =
      bind-IsSafe get_store_buffers _ get_store_buffers-IsSafe
        (λ buffers. sum_sizes-IsSafe _ 0 buffers)
