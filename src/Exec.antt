-- ===== src/Exec.antt =====
-- Methods that change an object and may throw. What was written before a throw stays written, so
-- the state comes back beside the error too.
pub mod Frames
pub mod Blame
use fpga_runtime.Common.{Text, Option, none, some, List, [], ◌∷◌}

pub data Error : Type 0 where
  -- `std::runtime_error` of `CL_CHECK`, with its text
  cl_error : Text → Error
  -- `std::runtime_error` thrown by the program itself
  runtime_error : Text → Error
  -- `std::out_of_range` of `unordered_map::at`
  out_of_range : Error
  -- `LOG(FATAL)`, which ends the process
  fatal : Text → Error
  -- the exception of `subprocess::check_output` for a command that fails
  command_failed : Error
  -- what C++ leaves undefined
  undefined : Error

pub data Result {ℓ} (A : Type ℓ) : Type ℓ where
  ok : A → Result A
  err : Error → Result A

abbrev pub Exec {ℓ} : Type ℓ → Type ℓ → Type ℓ
Exec S A = S → Result A × S

module _ {ℓ} {S A : Type ℓ} where
  abbrev pub pure : A → Exec S A
  pure a s = (ok a, s)

  abbrev pub raise : Error → Exec S A
  raise e s = (err e, s)

  abbrev pub gets : (S → A) → Exec S A
  gets f s = (ok (f s), s)

  -- A value that has to be there.
  abbrev pub require : Error → Option A → Exec S A
  require e none s = (err e, s)
  require e (some a) s = (ok a, s)

abbrev pub modify : {S : Type 0} → (S → S) → Exec S (Unit {0})
modify f s = (ok tt, f s)

module _ {ℓ} {S A B : Type ℓ} where
  abbrev pub continue : Result A → (A → Exec S B) → Exec S B
  continue (ok a) f s = f a s
  continue (err e) f s = (err e, s)

  infixl 10 ◌>>=◌ ◌>>◌
  abbrev pub ◌>>=◌ : Exec S A → (A → Exec S B) → Exec S B
  ◌>>=◌ m f s = let (r, s') = m s in continue r f s'

  abbrev pub ◌>>◌ : Exec S A → Exec S B → Exec S B
  m >> n = m >>= λ _. n

-- `for (auto& x : xs) body(x);`, which an exception leaves
unfoldable pub for_each {ℓ} :
    {S : Type 0} {A : Type ℓ} → (A → Exec S (Unit {0})) → List A → Exec S (Unit {0})
for_each f [] = pure tt
for_each f (x ∷ xs) = let go_on = for_each f xs in do f x; go_on
