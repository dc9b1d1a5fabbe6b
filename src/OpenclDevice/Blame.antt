-- ===== src/OpenclDevice/Blame.antt =====
-- What the methods of the OpenCL devices throw for `CL_CHECK`: it names the answer to the last request.
use fpga_runtime.Common.{
  ℕ, suc, ◌≡◌, refl, false, Bool-cases, inl, inr, Option-cases, List, [], ◌∷◌, ◌++◌, ◌%◌, ◌+◌,
  if◌then◌else◌, Text,
}
use fpga_runtime.Common.Int.{ℤ, ltb_ℤ}
use fpga_runtime.Containers.Ordered.{OrderedMap}
use fpga_runtime.Exec.Blame
use fpga_runtime.Exec.Blame.{bind-Explains, require-Explains}
use fpga_runtime.OpenclUtil.{is_success, opencl_err_to_string, Place, check_text}
use fpga_runtime.Opencl.{Library, Call, MemFlag, ProfilingInfo}
use fpga_runtime.Tag.{Tag}
use fpga_runtime.Buffer.{BufferArg, size_in_bytes, size_mod}
use fpga_runtime.OpenclDevice.{
  OpenclDevice, Method, request, checked, get_kernel, set_scalar_arg, set_buffer_arg, mem_flags,
  create_buffer_base, launch, exec, finish_queue, get_load_buffers, get_store_buffers,
  mark_direction,
}
use fpga_runtime.OpenclDevice.Profile.{
  get_time, earliest_from, latest_from, earliest, latest, span, sum_sizes, load_bytes, store_bytes,
}
use fpga_runtime.OpenclDevice.Requests.{checked_ok, checked_err}

module _ (lib : Library) where
  -- The last request of a log was turned down, and the text is that of a `CL_CHECK` on the answer: a
  -- file and a line, and the name of the answer.
  abbrev pub Blamed : Text → List Call → Type 0
  Blamed text calls =
      (before : List Call) × (c : Call) × (at : Place) × (calls ≡ before ++ c ∷ [])
      × (is_success (lib.respond before c).status ≡ false)
      × (text ≡ check_text at (opencl_err_to_string lib.headers (lib.respond before c).status))

  abbrev pub BlamedIn : Text → OpenclDevice → Type 0
  BlamedIn text s = Blamed text s.calls

  abbrev pub Explains : {A : Type 0} → Method A → Type 0
  Explains m = Blame.Explains BlamedIn m

  pub checked-Explains : (at : Place) (c : Call) → Explains (checked lib at c)
  checked-Explains at c s = elim (Bool-cases (is_success (lib.respond s.calls c).status)) [
    | inl good ↦ rw (checked_ok lib at c s good) tt
    | inr bad ↦ rw (checked_err lib at c s bad) (s.calls, c, at, refl, bad, refl)
  ]

  pub set_scalar_arg-Explains : (index : ℤ) (arg : List ℕ) → Explains (set_scalar_arg lib index arg)
  unfolding set_scalar_arg request
  set_scalar_arg-Explains index arg s = elim (Option-cases (get_kernel s.kernels index)) [
    | inl e ↦ rw e tt
    | inr (k, e) ↦ rw e tt
  ]

  pub create_buffer_base-Explains :
      (index : ℤ) (flags : List MemFlag) (host_ptr size : ℕ)
      → Explains (create_buffer_base lib index flags host_ptr size)
  unfolding create_buffer_base
  create_buffer_base-Explains index flags host_ptr size s =
      bind-Explains BlamedIn (checked lib _ _) _ (checked-Explains _ _) (λ _ t. tt) s

  pub set_buffer_arg-Explains :
      (create : ℤ → List MemFlag → ℕ → ℕ → Method ℕ) (index : ℤ) (tag : Tag) (arg : BufferArg)
      → Explains (create index (mem_flags tag) arg.ptr (size_in_bytes arg))
      → Explains (set_buffer_arg lib create index tag arg)
  unfolding set_buffer_arg request
  set_buffer_arg-Explains create index tag arg h =
      bind-Explains BlamedIn (create index (mem_flags tag) arg.ptr (size_in_bytes arg)) _ h
        (λ buffer s. elim (Option-cases (get_kernel (mark_direction index tag s).kernels index)) [
          | inl e ↦ rw e tt
          | inr (k, e) ↦ rw e tt
        ])

  launch-Explains : (i : ℕ) (ks : OrderedMap ℕ) → Explains (launch lib i ks)
  unfolding launch
  launch-Explains i [] s = tt
  launch-Explains i ((first, kernel) ∷ rest) s =
      bind-Explains BlamedIn (checked lib _ _) _ (checked-Explains _ _)
        (λ event t. launch-Explains (suc i) rest _) s

  pub exec-Explains : Explains (exec lib)
  unfolding exec
  exec-Explains s = launch-Explains 0 s.kernels _

  pub finish_queue-Explains : Explains (finish_queue lib)
  unfolding finish_queue
  finish_queue-Explains s =
      bind-Explains BlamedIn (checked lib _ _) _ (checked-Explains _ _)
        (λ _. bind-Explains BlamedIn (checked lib _ _) _ (checked-Explains _ _) (λ _ t. tt)) s

  get_time-Explains : (name : ProfilingInfo) (event : ℕ) → Explains (get_time lib name event)
  unfolding get_time
  get_time-Explains name event =
      bind-Explains BlamedIn (checked lib _ _) _ (checked-Explains _ _) (λ _ t. tt)

  earliest_from-Explains :
      (name : ProfilingInfo) (best : ℤ) (events : List ℕ)
      → Explains (earliest_from lib name best events)
  unfolding earliest_from
  earliest_from-Explains name best [] s = tt
  earliest_from-Explains name best (event ∷ events) s =
      bind-Explains BlamedIn (get_time lib name event) _ (get_time-Explains name event)
        (λ time. earliest_from-Explains name (if ltb_ℤ time best then time else best) events) s

  latest_from-Explains :
      (name : ProfilingInfo) (best : ℤ) (events : List ℕ)
      → Explains (latest_from lib name best events)
  unfolding latest_from
  latest_from-Explains name best [] s = tt
  latest_from-Explains name best (event ∷ events) s =
      bind-Explains BlamedIn (get_time lib name event) _ (get_time-Explains name event)
        (λ time. latest_from-Explains name (if ltb_ℤ best time then time else best) events) s

  earliest-Explains : (name : ProfilingInfo) (events : List ℕ) → Explains (earliest lib name events)
  unfolding earliest
  earliest-Explains name [] s = tt
  earliest-Explains name (event ∷ events) s = earliest_from-Explains name _ (event ∷ events) s

  latest-Explains : (name : ProfilingInfo) (events : List ℕ) → Explains (latest lib name events)
  unfolding latest
  latest-Explains name [] s = tt
  latest-Explains name (event ∷ events) s = latest_from-Explains name _ (event ∷ events) s

  pub span-Explains : (events : List ℕ) → Explains (span lib events)
  unfolding span
  span-Explains events =
      bind-Explains BlamedIn (latest lib _ events) _ (latest-Explains _ events) (λ end.
        bind-Explains BlamedIn (earliest lib _ events) _ (earliest-Explains _ events)
          (λ start. require-Explains BlamedIn _ _ (λ t. tt)))

  sum_sizes-Explains :
      (at : Place) (total : ℕ) (buffers : List ℕ) → Explains (sum_sizes lib at total buffers)
  unfolding sum_sizes
  sum_sizes-Explains at total [] s = tt
  sum_sizes-Explains at total (buffer ∷ buffers) s =
      bind-Explains BlamedIn (checked lib _ _) _ (checked-Explains _ _)
        (λ size. sum_sizes-Explains at ((total + size) % size_mod) buffers) s

  pub get_load_buffers-Explains : Explains get_load_buffers
  unfolding get_load_buffers
  get_load_buffers-Explains s = require-Explains BlamedIn _ _ (λ t. tt) s

  pub get_store_buffers-Explains : Explains get_store_buffers
  unfolding get_store_buffers
  get_store_buffers-Explains s = require-Explains BlamedIn _ _ (λ t. tt) s

  pub load_bytes-Explains : Explains (load_bytes lib)
  unfolding load_bytes
  load_bytes-Explains =
      bind-Explains BlamedIn get_load_buffers _ get_load_buffers-Explains (sum_sizes-Explains _ 0)

  pub store_bytes-Explains : Explains (store_bytes lib)
  unfolding store_bytes
  store_bytes-Explains =
      bind-Explains BlamedIn get_store_buffers _ get_store_buffers-Explains (sum_sizes-Explains _ 0)
