-- ===== src/Common/Split.antt =====
-- Texts taken apart: at a separator, at a first byte, by a prefix and a suffix.
use mathlib.Core.Path.{◌≡◌, refl, ap}
use mathlib.Core.Logic.{◌≢◌}
use mathlib.Core.Bool.{Bool, true, false, ◌&&◌}
use mathlib.Core.Option.{Option, none, some}
use mathlib.Core.List.{append_assoc, List, [], ◌∷◌, ◌++◌}
use Prim.Native.Nat.{ℕ, ◌-◌}
use native.Mathlib.Omega.{arith}
use fpga_runtime.Common.Tests.{nat_eq, if◌then◌else◌}
use fpga_runtime.Common.Lists.{
  length-append, length, take, drop, All, drop-length-append, take-length-append,
}
use fpga_runtime.Common.Codes.{Text}
use fpga_runtime.Common.Eq.{text_eq, text_eq_iff}

abbrev pub Without : ℕ → Text → Type 0
Without c s = All (λ b. b ≢ c) s

-- A byte in front of the first line.
abbrev pub attach_byte : ℕ → List Text → List Text
attach_byte c [] = (c ∷ []) ∷ []
attach_byte c (line ∷ rest) = (c ∷ line) ∷ rest

-- The lines that end in `sep`, or, the last one, at the end of the text.
unfoldable pub lines : ℕ → Text → List Text
lines sep [] = []
lines sep (c ∷ s) = let rest = lines sep s in if nat_eq c sep then [] ∷ rest else attach_byte c rest

pub lines-append :
    (sep : ℕ) (line s : Text) → Without sep line → lines sep (line ++ sep ∷ s) ≡ line ∷ lines sep s
unfolding lines
lines-append sep [] s h = let same : nat_eq sep sep ≡ true = ground arith in rw same
lines-append sep (c ∷ line) s h =
    let differ : nat_eq c sep ≡ false = ground (arith, h.0) in
    rw (differ, lines-append sep line s h.1)

-- What stands before the first `c`, and behind it if there is one.
unfoldable pub before_first : ℕ → Text → Text
before_first c [] = []
before_first c (b ∷ s) = let rest = before_first c s in if nat_eq b c then [] else b ∷ rest

unfoldable pub after_first : ℕ → Text → Option Text
after_first c [] = none
after_first c (b ∷ s) = let rest = after_first c s in if nat_eq b c then some s else rest

pub before_first-append : (c : ℕ) (s t : Text) → Without c s → before_first c (s ++ c ∷ t) ≡ s
unfolding before_first
before_first-append c [] t h = let same : nat_eq c c ≡ true = ground arith in rw same
before_first-append c (b ∷ s) t h =
    let differ : nat_eq b c ≡ false = ground (arith, h.0) in
    rw (differ, before_first-append c s t h.1)

pub after_first-append : (c : ℕ) (s t : Text) → Without c s → after_first c (s ++ c ∷ t) ≡ some t
unfolding after_first
after_first-append c [] t h = let same : nat_eq c c ≡ true = ground arith in rw same
after_first-append c (b ∷ s) t h =
    let differ : nat_eq b c ≡ false = ground (arith, h.0) in
    rw (differ, after_first-append c s t h.1)

pub before_first-Without : (c : ℕ) (s : Text) → Without c s → before_first c s ≡ s
unfolding before_first
before_first-Without c [] h = refl
before_first-Without c (b ∷ s) h =
    let differ : nat_eq b c ≡ false = ground (arith, h.0) in
    rw (differ, before_first-Without c s h.1)

-- `s.compare(0, prefix.size(), prefix) == 0`
abbrev pub starts_with : Text → Text → Bool
starts_with prefix s = text_eq (take (length prefix) s) prefix

-- A text that begins with another.
unfoldable pub has_prefix : Text → Text → Bool
has_prefix [] s = true
has_prefix (c ∷ prefix) [] = false
has_prefix (c ∷ prefix) (d ∷ s) = nat_eq d c && has_prefix prefix s

pub starts_with_lem : (prefix s : Text) → starts_with prefix s ≡ has_prefix prefix s
unfolding has_prefix
starts_with_lem [] s = refl
starts_with_lem (c ∷ prefix) [] = refl
starts_with_lem (c ∷ prefix) (d ∷ s) = ap (λ b. nat_eq d c && b) (starts_with_lem prefix s)

-- `s.compare(s.size() - suffix.size(), suffix.size(), suffix) == 0`, of a text that is long enough
abbrev pub ends_with : Text → Text → Bool
ends_with suffix s = text_eq (drop (length s - length suffix) s) suffix

-- A text in three parts has the first as a prefix and the last as a suffix, and what is cut out
-- between them is the second.
module _ (p t u : Text) where
  pub starts_with-append : starts_with p (p ++ (t ++ u)) ≡ true
  starts_with-append = rw (take-length-append p (t ++ u)) ((text_eq_iff p p).1 refl)

  pub ends_with-append : ends_with u (p ++ (t ++ u)) ≡ true
  ends_with-append =
      let n : length (p ++ (t ++ u)) - length u ≡ length (p ++ t) =
        omega (arith, length-append p (t ++ u), length-append t u, length-append p t) in
      rw (n, ← append_assoc p t u, drop-length-append (p ++ t) u) ((text_eq_iff u u).1 refl)

  pub take-drop-append :
      take (length (p ++ (t ++ u)) - length p - length u) (drop (length p) (p ++ (t ++ u))) ≡ t
  take-drop-append =
      let n : length (p ++ (t ++ u)) - length p - length u ≡ length t =
        omega (arith, length-append p (t ++ u), length-append t u) in
      rw (n, drop-length-append p (t ++ u), take-length-append t u)
