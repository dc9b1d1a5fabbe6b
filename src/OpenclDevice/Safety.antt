-- ===== src/OpenclDevice/Safety.antt =====
-- Methods that keep the tables valid and never fail to find a buffer, one rule for each way to build
-- a method.
use fpga_runtime.Containers.Maps.{has_key-assign_self}
use fpga_runtime.Common.{
  ℕ, suc, ◌≡◌, refl, true, List, [], ◌∷◌, Bool-cases, inl, inr, Option-cases, set,
}
use fpga_runtime.Common.Eq.{int_Eq}
use fpga_runtime.Common.Int.{ℤ}
use fpga_runtime.Containers.Maps
use fpga_runtime.Containers.Ordered.{OrderedMap}
use fpga_runtime.Exec.{
  Result, ok, err, cl_error, runtime_error, out_of_range, fatal, undefined, command_failed,
  continue, modify, ◌>>=◌, ◌>>◌, gets, require, pure,
}
use fpga_runtime.OpenclUtil.{is_success, Place}
use fpga_runtime.Opencl.{
  Library, Call, enqueue_nd_range_kernel, flush, finish, MemFlag, create_buffer, set_arg_buffer,
}
use fpga_runtime.OpenclDevice.{
  OpenclDevice, Method, request, checked, get_kernel, set_scalar_arg, launch, exec, finish_queue,
  Tag, set_buffer_arg, create_buffer_base, mark_direction, BufferArg, mem_flags, size_in_bytes,
  to_cl_uint,
}
use fpga_runtime.OpenclDevice.Validity.{IsValid, mark_direction-IsValid, assign-IsValid}
use fpga_runtime.OpenclDevice.Requests.{checked_ok, checked_err}

-- Not the `std::out_of_range` of a look-up.
abbrev pub Found : {A : Type 0} → Result A → Type 0
Found (err out_of_range) = ⊥
Found _ = Unit {0}

abbrev pub IsFine : {A : Type 0} → Result A × OpenclDevice → Type 0
IsFine (r, s) = IsValid s × Found r

abbrev pub IsSafe : {A : Type 0} → Method A → Type 0
IsSafe m = (s : OpenclDevice) → IsValid s → IsFine (m s)

module _ {A B : Type 0} where
  continue-IsFine :
      (f : A → Method B) (r : Result A) (s : OpenclDevice)
      → IsFine (r, s)
      → ((a : A) → r ≡ ok a → IsFine (f a s))
      → IsFine (continue r f s)
  continue-IsFine f (ok a) s h k = k a refl
  continue-IsFine f (err (cl_error x)) s h k = h
  continue-IsFine f (err (runtime_error x)) s h k = h
  continue-IsFine f (err (fatal x)) s h k = h
  continue-IsFine f (err undefined) s h k = h
  continue-IsFine f (err command_failed) s h k = h
  continue-IsFine f (err out_of_range) s h k = absurd h.1

  pub bind-IsSafe :
      (m : Method A) (f : A → Method B) → IsSafe m → ((a : A) → IsSafe (f a)) → IsSafe (m >>= f)
  bind-IsSafe m f hm hf s v =
      continue-IsFine f (m s).0 (m s).1 (hm s v) (λ a e. hf a (m s).1 (hm s v).0)

-- What `SetBufferArg` needs of the virtual `CreateBuffer`: if it returns, the index has a buffer.
abbrev pub IsMade : ℤ → Result ℕ × OpenclDevice → Type 0
IsMade index (ok buffer, s) = IsValid s × (Maps.has_key index s.buffer_table ≡ true)
IsMade index (err e, s) = IsFine {A = ℕ} (err e, s)

module _ (lib : Library) where
  pub checked-IsSafe : (at : Place) (c : Call) → IsSafe (checked lib at c)
  checked-IsSafe at c s v = elim (Bool-cases (is_success (lib.respond s.calls c).status)) [
    | inl good ↦ rw (checked_ok lib _ c s good) (v, tt)
    | inr bad ↦ rw (checked_err lib _ c s bad) (v, tt)
  ]

  pub set_scalar_arg-IsSafe : (index : ℤ) (arg : List ℕ) → IsSafe (set_scalar_arg lib index arg)
  unfolding set_scalar_arg request
  set_scalar_arg-IsSafe index arg s v = elim (Option-cases (get_kernel s.kernels index)) [
    | inl e ↦ rw e (v, tt)
    | inr (k, e) ↦ rw e (v, tt)
  ]

  launch-IsSafe : (i : ℕ) (ks : OrderedMap ℕ) → IsSafe (launch lib i ks)
  unfolding launch
  launch-IsSafe i [] s v = (v, tt)
  launch-IsSafe i ((first, kernel) ∷ rest) s v =
      let rest_safe = launch-IsSafe (suc i) rest in
      bind-IsSafe (checked lib _ (enqueue_nd_range_kernel s.cmd kernel s.load_event))
        (λ event.
          modify (λ t. record t { compute_event = set t.compute_event i event })
          >> launch lib (suc i) rest)
        (checked-IsSafe _ _) (λ event t w. rest_safe _ w) s v

  pub exec-IsSafe : IsSafe (exec lib)
  unfolding exec
  exec-IsSafe s v = launch-IsSafe 0 s.kernels _ v

  pub finish_queue-IsSafe : IsSafe (finish_queue lib)
  unfolding finish_queue
  finish_queue-IsSafe s v =
      bind-IsSafe (checked lib _ (flush s.cmd)) _ (checked-IsSafe _ _)
        (λ _. bind-IsSafe (checked lib _ (finish s.cmd)) _ (checked-IsSafe _ _) (λ _ t w. (w, tt)))
        s v

  pub create_buffer_base-IsMade :
      (index : ℤ) (flags : List MemFlag) (host_ptr size : ℕ) (s : OpenclDevice)
      → IsValid s
      → IsMade index (create_buffer_base lib index flags host_ptr size s)
  unfolding create_buffer_base
  create_buffer_base-IsMade index flags host_ptr size s v =
      let c = create_buffer s.context flags size host_ptr in
      let made = (lib.respond s.calls c).value in
      elim (Bool-cases (is_success (lib.respond s.calls c).status)) [
        | inl good ↦
            rw (checked_ok lib _ c s good)
              (assign-IsValid index made s v, has_key-assign_self index made s.buffer_table)
        | inr bad ↦ rw (checked_err lib _ c s bad) (v, tt)
      ]

  -- The rest of `SetBufferArg`, when there is a buffer.
  abbrev after_create : ℤ → Tag → ℕ → Method (Unit {0})
  after_create index tag buffer = do
    modify (mark_direction index tag)
    kernels ← gets (λ s. s.kernels)
    (i, kernel) ← require undefined (get_kernel kernels index)
    request lib (set_arg_buffer kernel (to_cl_uint i) buffer)
    pure tt

  after_create-IsFine :
      (index : ℤ) (tag : Tag) (buffer : ℕ) (s : OpenclDevice)
      → IsValid s
      → Maps.has_key index s.buffer_table ≡ true
      → IsFine (after_create index tag buffer s)
  unfolding request
  after_create-IsFine index tag buffer s v key =
      let marked = mark_direction-IsValid index tag s key v in
      elim (Option-cases (get_kernel (mark_direction index tag s).kernels index)) [
        | inl e ↦ rw e (marked, tt)
        | inr (k, e) ↦ rw e (marked, tt)
      ]

  made-IsFine :
      (index : ℤ) (tag : Tag) (r : Result ℕ) (s : OpenclDevice)
      → IsMade index (r, s)
      → IsFine (continue r (after_create index tag) s)
  made-IsFine index tag (ok buffer) s m = after_create-IsFine index tag buffer s m.0 m.1
  made-IsFine index tag (err e) s m =
      continue-IsFine (after_create index tag) (err e) s m (λ a p. cc)

  pub set_buffer_arg-IsSafe :
      (create : ℤ → List MemFlag → ℕ → ℕ → Method ℕ)
      → ((index : ℤ) (flags : List MemFlag) (host_ptr size : ℕ) (s : OpenclDevice)
          → IsValid s
          → IsMade index (create index flags host_ptr size s))
      → (index : ℤ) (tag : Tag) (arg : BufferArg) → IsSafe (set_buffer_arg lib create index tag arg)
  unfolding set_buffer_arg
  set_buffer_arg-IsSafe create makes index tag arg s v =
      let result = create index (mem_flags tag) arg.ptr (size_in_bytes arg) s in
      made-IsFine index tag result.0 result.1
        (makes index (mem_flags tag) arg.ptr (size_in_bytes arg) s v)
