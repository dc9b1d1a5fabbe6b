-- ===== src/Exec/Frames.antt =====
-- Methods that leave a view of their object alone, whatever else they change and whether or not they
-- throw.
use fpga_runtime.Common.{◌≡◌, refl, ◌∙◌, Option, none, some, List, [], ◌∷◌}
use fpga_runtime.Exec.{Exec, Error, Result, ok, err, continue, require, for_each, ◌>>=◌}

module _ {S V : Type 0} (view : S → V) where
  abbrev pub Keeps : {A : Type 0} → Exec S A → Type 0
  Keeps m = (s : S) → view (m s).1 ≡ view s

  continue-Keeps :
      {A B : Type 0} (r : Result A) (f : A → Exec S B) (s : S)
      → ((a : A) → Keeps (f a))
      → view (continue r f s).1 ≡ view s
  continue-Keeps (ok a) f s next = next a s
  continue-Keeps (err e) f s next = refl

  pub bind-Keeps :
      {A B : Type 0} (m : Exec S A) (f : A → Exec S B)
      → Keeps m
      → ((a : A) → Keeps (f a))
      → Keeps (m >>= f)
  bind-Keeps m f h next s = continue-Keeps (m s).0 f (m s).1 next ∙ h s

  pub require-Keeps : {A : Type 0} (e : Error) (o : Option A) → Keeps (require e o)
  require-Keeps e none s = refl
  require-Keeps e (some a) s = refl

  pub for_each-Keeps :
      {A : Type 0} (f : A → Exec S (Unit {0}))
      → ((a : A) → Keeps (f a))
      → (xs : List A) → Keeps (for_each f xs)
  unfolding for_each
  for_each-Keeps f h [] s = refl
  for_each-Keeps f h (a ∷ xs) s = bind-Keeps (f a) _ (h a) (λ _. for_each-Keeps f h xs) s
