-- ===== src/Instance/Returning.antt =====
-- When `Instance::Invoke` returns on a Xilinx device.
use mathlib.Core.Path.{subst}
use fpga_runtime.Common.{ℕ, ◌≤◌, ◌<◌, ◌+◌, length, sym, [], ap, arith}
use fpga_runtime.Containers.Ordered.{OrderedMap}
use fpga_runtime.Exec.{Result}
use fpga_runtime.OpenclDevice.Validity.{IsValid}
use fpga_runtime.Instance.{set_args, invoke}
use fpga_runtime.Instance.Invocation.{invoke_lem}
use fpga_runtime.Common.{
  ℕ, ◌≡◌, refl, ◌∙◌, Option, none, some, Bool-cases, inl, inr, List, [], ◌∷◌, nat_eq,
}
use fpga_runtime.Common.Int.{ℤ, pos}
use fpga_runtime.Exec.{ok, ◌>>=◌}
use fpga_runtime.Opencl.{Library, Accepts, StreamFlag}
use fpga_runtime.Tag.{Tag, place_holder, read_write, read_only, write_only}
use fpga_runtime.Buffer.{BufferArg, buffer_arg}
use fpga_runtime.Streams.{
  StreamWrapper, XilinxOpenclStream, release, attach, open_stream, new_stream, stream_flags,
}
use fpga_runtime.OpenclDevice.{
  OpenclDevice, Method, request, get_kernel, set_scalar_arg, mark_direction,
}
use fpga_runtime.OpenclDevice.Requests.{checked_ok}
use fpga_runtime.XilinxDevice.{set_buffer, set_stream_arg}
use fpga_runtime.XilinxDevice.Arguments.{after_set_buffer, set_buffer_lem}
use fpga_runtime.Instance.{Arg, scalar, buffer, stream, xilinx_device, set_arg}

-- A method that returns and leaves the kernel table alone.
abbrev pub Returns : {A : Type 0} → Method A → OpenclDevice → Type 0
Returns {A = A} m s = (a : A) × (t : OpenclDevice) × (m s ≡ (ok a, t)) × (t.kernels ≡ s.kernels)

-- A stream of one of the two classes that there are, or another argument.
abbrev pub IsTyped : Arg → Type 0
IsTyped (stream read_only w) = Unit {0}
IsTyped (stream write_only w) = Unit {0}
IsTyped (stream _ w) = ⊥
IsTyped _ = Unit {0}

abbrev pub AllTyped : List Arg → Type 0
AllTyped [] = Unit {0}
AllTyped (arg ∷ rest) = IsTyped arg × AllTyped rest

bind-Returns :
    {A B : Type 0} (m : Method A) (f : A → Method B) (s : OpenclDevice)
    → Returns m s
    → ((a : A) (t : OpenclDevice) → t.kernels ≡ s.kernels → Returns (f a) t)
    → Returns (m >>= f) s
bind-Returns m f s (a, t, e, k) next = let (b, u, e', k') = next a t k in (b, u, rw e e', k' ∙ k)

module _ (lib : Library) where
  release-Returns : (x : Option XilinxOpenclStream) (s : OpenclDevice) → Returns (release lib x) s
  unfolding release request
  release-Returns none s = (tt, s, refl, refl)
  release-Returns (some x) s = elim (Bool-cases (nat_eq x.stream 0)) [
    | inl e ↦ rw e (tt, s, refl, refl)
    | inr e ↦ rw e (tt, _, refl, refl)
  ]

  attach-Returns :
      (w : StreamWrapper) (x : XilinxOpenclStream) (s : OpenclDevice) → Returns (attach lib w x) s
  unfolding attach
  attach-Returns w x s =
      bind-Returns (release lib w.stream) _ s (release-Returns w.stream s)
        (λ _ t k. (_, t, refl, refl))

  open_stream-Returns :
      Accepts lib
      → (name : List ℕ) (device kernel : ℕ) (i : ℤ) (flags : StreamFlag) (s : OpenclDevice)
      → Returns (open_stream lib name device kernel i (some flags)) s
  unfolding open_stream
  open_stream-Returns a name device kernel i flags s =
      rw (checked_ok lib _ _ s (a s.calls _)) (_, _, refl, refl)

  new_stream-Returns :
      Accepts lib
      → (name : List ℕ) (device kernel : ℕ) (i : ℤ) (tag : Tag) (w : StreamWrapper)
        (s : OpenclDevice)
      → IsTyped (stream tag w)
      → Returns (new_stream lib name device kernel i tag) s
  unfolding new_stream stream_flags
  new_stream-Returns a name device kernel i read_only w s h =
      open_stream-Returns a name device kernel i _ s
  new_stream-Returns a name device kernel i place_holder w s h = absurd h
  new_stream-Returns a name device kernel i read_write w s h = absurd h
  new_stream-Returns a name device kernel i write_only w s h =
      open_stream-Returns a name device kernel i _ s

  set_stream_arg-Returns :
      Accepts lib
      → (index : ℤ) (tag : Tag) (w : StreamWrapper) (s : OpenclDevice) (k : ℤ × ℕ)
      → get_kernel s.kernels index ≡ some k
      → IsTyped (stream tag w)
      → Returns (set_stream_arg lib index tag w) s
  unfolding set_stream_arg
  set_stream_arg-Returns a index tag w s (i, kernel) e h = rw e (
      bind-Returns (new_stream lib w.name s.device kernel i tag) (attach lib w) s
        (new_stream-Returns a w.name s.device kernel i tag w s h) (λ x t k. attach-Returns w x t))

  set_scalar_arg-Returns :
      (index : ℤ) (bytes : List ℕ) (s : OpenclDevice) (k : ℤ × ℕ)
      → get_kernel s.kernels index ≡ some k
      → Returns (set_scalar_arg lib index bytes) s
  unfolding set_scalar_arg request
  set_scalar_arg-Returns index bytes s k e = rw e (tt, _, refl, refl)

  set_buffer-Returns :
      Accepts lib
      → (index : ℤ) (tag : Tag) (arg : BufferArg) (s : OpenclDevice) (k : ℤ × ℕ)
      → get_kernel s.kernels index ≡ some k
      → Returns (set_buffer lib index tag arg) s
  unfolding mark_direction
  set_buffer-Returns a index tag arg s (i, kernel) e = (
    tt,
    after_set_buffer lib index tag arg i kernel s,
    set_buffer_lem lib index tag arg s i kernel a e,
    refl,
  )

  set_arg-Returns :
      Accepts lib
      → (index : ℕ) (arg : Arg) (s : OpenclDevice) (k : ℤ × ℕ)
      → get_kernel s.kernels (pos index) ≡ some k
      → IsTyped arg
      → Returns (set_arg (xilinx_device lib) index arg) s
  unfolding set_arg xilinx_device
  set_arg-Returns a index (scalar bytes) s k e h =
      bind-Returns (set_scalar_arg lib (pos index) bytes) _ s
        (set_scalar_arg-Returns (pos index) bytes s k e) (λ _ t q. (_, t, refl, refl))
  set_arg-Returns a index (buffer b) s k e h =
      bind-Returns (set_buffer lib (pos index) b.tag (buffer_arg b)) _ s
        (set_buffer-Returns a (pos index) b.tag (buffer_arg b) s k e) (λ _ t q. (_, t, refl, refl))
  set_arg-Returns a index (stream tag w) s k e h =
      bind-Returns (set_stream_arg lib (pos index) tag w) _ s
        (set_stream_arg-Returns a (pos index) tag w s k e h) (λ _ t q. (_, t, refl, refl))

  -- `GetKernel` finds the arguments from `index` up to `end`.
  abbrev pub Covers : OrderedMap ℕ → (index end : ℕ) → Type 0
  Covers kernels index end =
      (i : ℕ) → index ≤ i → i < end → (k : ℤ × ℕ) × (get_kernel kernels (pos i) ≡ some k)

  pub set_args-Returns :
      Accepts lib
      → (index : ℕ) (args : List Arg) (s : OpenclDevice)
      → Covers s.kernels index (index + length args)
      → AllTyped args
      → Returns (set_args (xilinx_device lib) index args) s
  unfolding set_args
  set_args-Returns a index [] s c h = ([], s, refl, refl)
  set_args-Returns a index (arg ∷ rest) s c h =
      let (k, found) = c index (omega arith) (omega arith) in
      bind-Returns (set_arg (xilinx_device lib) index arg) _ s
        (set_arg-Returns a index arg s k found h.0)
        (λ arg' t q.
          bind-Returns (set_args (xilinx_device lib) (index + 1) rest) _ t
            (set_args-Returns a (index + 1) rest t
              (λ i l u.
                subst (λ (m : OrderedMap ℕ). (k : ℤ × ℕ) × (get_kernel m (pos i) ≡ some k)) (sym q)
                  (c i (omega arith) (omega arith)))
              h.1)
            (λ _ u p. (_, u, refl, refl)))

  -- With a library that turns nothing down, `Invoke` on a valid Xilinx device returns, whatever its
  -- arguments are, if `GetKernel` finds each of them and each stream is one that the host reads or one
  -- that it writes.
  pub invoke_returns :
      (args : List Arg) (s : OpenclDevice)
      → Accepts lib
      → IsValid s
      → Covers s.kernels 0 (length args)
      → AllTyped args
      → (args' : List Arg) × ((invoke (xilinx_device lib) args s).0 ≡ ok args')
  invoke_returns args s a v c h =
      let (args', s1, e, q) = set_args-Returns a 0 args s (λ i l u. c i l (omega arith)) h in
      (
        args',
        ap (λ (r : Result (List Arg) × OpenclDevice). r.0) (invoke_lem lib args args' s s1 a v e),
      )
