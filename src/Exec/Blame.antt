-- ===== src/Exec/Blame.antt =====
-- Methods whose every `std::runtime_error` of `CL_CHECK` is explained by the object that is left.
use fpga_runtime.Common.{Option, none, some, Text}
use fpga_runtime.Exec.{
  Exec, Error, Result, ok, err, cl_error, runtime_error, out_of_range, fatal, command_failed,
  undefined, continue, require, raise, ◌>>=◌,
}

module _ {S : Type 0} (P : Text → S → Type 0) where
  abbrev pub IsExplained : {A : Type 0} → Result A × S → Type 0
  IsExplained (err (cl_error name), s) = P name s
  IsExplained _ = Unit {0}

  abbrev pub Explains : {A : Type 0} → Exec S A → Type 0
  Explains m = (s : S) → IsExplained (m s)

  continue-IsExplained :
      {A B : Type 0} (r : Result A) (f : A → Exec S B) (s : S)
      → IsExplained (r, s)
      → ((a : A) → Explains (f a))
      → IsExplained (continue r f s)
  continue-IsExplained (ok a) f s h next = next a s
  continue-IsExplained (err (cl_error name)) f s h next = h
  continue-IsExplained (err (runtime_error x)) f s h next = tt
  continue-IsExplained (err out_of_range) f s h next = tt
  continue-IsExplained (err (fatal x)) f s h next = tt
  continue-IsExplained (err command_failed) f s h next = tt
  continue-IsExplained (err undefined) f s h next = tt

  pub bind-Explains :
      {A B : Type 0} (m : Exec S A) (f : A → Exec S B)
      → Explains m
      → ((a : A) → Explains (f a))
      → Explains (m >>= f)
  bind-Explains m f h next s = continue-IsExplained (m s).0 f (m s).1 (h s) next

  pub require-Explains :
      {A : Type 0} (e : Error) (o : Option A) → Explains {A = A} (raise e) → Explains (require e o)
  require-Explains e none h s = h s
  require-Explains e (some a) h s = tt
