-- ===== src/Instance/Marks/Invoking.antt =====
-- `Invoke` as the calls that it makes for its arguments, where it returns.
use mathlib.Core.Path.{subst}
use fpga_runtime.Common.{ℕ, ◌+◌, ◌≡◌, Bool, true, false, List, [], ◌∷◌, if◌then◌else◌}
use fpga_runtime.Common.Int.{pos}
use fpga_runtime.Exec.{Exec, Result, ok, err, continue, pure, ◌>>=◌, ◌>>◌}
use fpga_runtime.Buffer.{buffer_arg}
use fpga_runtime.Instance.{
  Device, Arg, scalar, buffer, stream, set_arg, set_args, invoke, has_stream,
}
use fpga_runtime.Instance.Marks.{
  Marks, Marking, Directions, Command, Refines, expect, expect_all, set_scalar, set_buffer,
  set_stream, marked-Refines,
}

-- The call for an argument, and those for all, from a number on.
unfoldable pub arg_command : ℕ → Arg → Command
arg_command i (scalar bytes) = set_scalar (pos i) bytes
arg_command i (buffer b) = set_buffer (pos i) b.tag (buffer_arg b)
arg_command i (stream tag w) = set_stream (pos i) tag w

unfoldable pub arg_commands : ℕ → List Arg → List Command
arg_commands i [] = []
arg_commands i (arg ∷ rest) = arg_command i arg ∷ arg_commands (i + 1) rest

-- What holds of the state if the method has returned.
abbrev IfOk : {S A : Type 0} → (S → Type 0) → Result A × S → Type 0
IfOk P (ok a, s) = P s
IfOk P (err e, s) = Unit {0}

IfOk-intro : {S A : Type 0} (P : S → Type 0) (r : Result A) (s : S) → P s → IfOk P (r, s)
IfOk-intro P (ok a) s h = h
IfOk-intro P (err e) s h = tt

continue-IfOk :
    {S A B : Type 0} (P Q : S → Type 0) (r : Result A) (f : A → Exec S B) (s : S)
    → IfOk P (r, s)
    → ((a : A) (t : S) → P t → IfOk Q (f a t))
    → IfOk Q (continue r f s)
continue-IfOk P Q (ok a) f s h next = next a s h
continue-IfOk P Q (err e) f s h next = tt

bind-IfOk :
    {S A B : Type 0} (P Q : S → Type 0) (m : Exec S A) (f : A → Exec S B) (s : S)
    → IfOk P (m s)
    → ((a : A) (t : S) → P t → IfOk Q (f a t))
    → IfOk Q ((m >>= f) s)
bind-IfOk P Q m f s = continue-IfOk P Q (m s).0 f (m s).1

module _ {S : Type 0} (d : Device S) (view : S → Marks) (m : Marking d view) where
  -- The object holds the marks that are expected.
  abbrev Holds : Directions → S → Type 0
  Holds e s = Refines (view s) e

  kept-Holds :
      {A : Type 0} (x : Exec S A) (e : Directions) (s : S)
      → view (x s).1 ≡ view s
      → Holds e s
      → IfOk (Holds e) (x s)
  kept-Holds x e s same h = IfOk-intro (Holds e) (x s).0 (x s).1 (rw same h)

  set_arg-Holds :
      (i : ℕ) (arg : Arg) (e : Directions) (s : S)
      → Holds e s
      → IfOk (Holds (expect (arg_command i arg) e)) (set_arg d i arg s)
  unfolding set_arg arg_command expect
  set_arg-Holds i (scalar bytes) e s h =
      bind-IfOk (Holds e) (Holds e) (d.set_scalar (pos i) bytes) _ s
        (kept-Holds (d.set_scalar (pos i) bytes) e s (m.set_scalar-Keeps (pos i) bytes s) h)
        (λ a t k. k)
  set_arg-Holds i (buffer b) e s h =
      let e' = expect (set_buffer (pos i) b.tag (buffer_arg b)) e in
      bind-IfOk (Holds e') (Holds e') (d.set_buffer (pos i) b.tag (buffer_arg b)) _ s
        (IfOk-intro (Holds e') _ _ (
          rw (m.set_buffer-marks (pos i) b.tag (buffer_arg b) s)
            (marked-Refines (pos i) b.tag (buffer_arg b) (view s) e h)))
        (λ a t k. k)
  set_arg-Holds i (stream tag w) e s h =
      bind-IfOk (Holds e) (Holds e) (d.set_stream (pos i) tag w) _ s
        (kept-Holds (d.set_stream (pos i) tag w) e s (m.set_stream-Keeps (pos i) tag w s) h)
        (λ a t k. k)

  set_args-Holds :
      (i : ℕ) (args : List Arg) (e : Directions) (s : S)
      → Holds e s
      → IfOk (Holds (expect_all (arg_commands i args) e)) (set_args d i args s)
  unfolding set_args arg_commands expect_all
  set_args-Holds i [] e s h = h
  set_args-Holds i (arg ∷ rest) e s h =
      let e' = expect (arg_command i arg) e in
      let e'' = expect_all (arg_commands (i + 1) rest) e' in
      bind-IfOk (Holds e') (Holds e'') (set_arg d i arg) _ s (set_arg-Holds i arg e s h) (λ a t k.
        bind-IfOk (Holds e'') (Holds e'') (set_args d (i + 1) rest) _ t
          (set_args-Holds (i + 1) rest e' t k) (λ b u l. l))

  last-Holds :
      (streams : Bool) (args : List Arg) (e : Directions) (s : S)
      → Holds e s
      → IfOk (Holds e) ((if streams then pure args else (do d.finish; pure args)) s)
  last-Holds true args e s h = h
  last-Holds false args e s h =
      bind-IfOk (Holds e) (Holds e) d.finish _ s (kept-Holds d.finish e s (m.finish-Keeps s) h)
        (λ a t k. k)

  invoke-Holds :
      (args : List Arg) (e : Directions) (s : S)
      → Holds e s
      → IfOk (Holds (expect_all (arg_commands 0 args) e)) (invoke d args s)
  unfolding invoke
  invoke-Holds args e s h =
      let e' = expect_all (arg_commands 0 args) e in
      let P = Holds e' in
      bind-IfOk P P (set_args d 0 args) _ s (set_args-Holds 0 args e s h) (λ args' t k.
        bind-IfOk P P d.write _ t (kept-Holds d.write e' t (m.write-Keeps t) k) (λ a u l.
          bind-IfOk P P d.run _ u (kept-Holds d.run e' u (m.run-Keeps u) l) (λ b v n.
            bind-IfOk P P d.read _ v (kept-Holds d.read e' v (m.read-Keeps v) n)
              (λ c. last-Holds (has_stream args) args' e'))))

  pub invoke-Refines :
      (args args' : List Arg) (e : Directions) (s t : S)
      → Refines (view s) e
      → invoke d args s ≡ (ok args', t)
      → Refines (view t) (expect_all (arg_commands 0 args) e)
  invoke-Refines args args' e s t h returned =
      subst (IfOk (Holds (expect_all (arg_commands 0 args) e))) returned (invoke-Holds args e s h)
