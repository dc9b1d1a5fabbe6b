-- ===== src/CosimDevice/Paths.antt =====
-- The files of the work directory do not get into each other's way.
use fpga_runtime.Common.{ℕ, ◌≡◌, ◌≢◌, refl, [], ◌∷◌, ◌++◌, All, Text, codes, arith}
use mathlib.Core.List.{head-eq_of_cons-eq, tail-eq_of_cons-eq}
use fpga_runtime.Common.Int.{ℤ}
use fpga_runtime.Common.Decimal.{to_string, IsDecimal, to_string-IsDecimal, to_string_injective}
use fpga_runtime.CosimDevice.{input_data_path, output_data_path, config_path}

append_cancel : (p s t : Text) → p ++ s ≡ p ++ t → s ≡ t
append_cancel [] s t e = e
append_cancel (c ∷ p) s t e = append_cancel p s t (tail-eq_of_cons-eq e)

-- Decimal texts end where the first other byte stands.
decimal_split :
    (s t : Text) (c d : ℕ) (u v : Text)
    → All IsDecimal s
    → All IsDecimal t
    → ¬ IsDecimal c
    → ¬ IsDecimal d
    → s ++ c ∷ u ≡ t ++ d ∷ v
    → (s ≡ t) × (c ∷ u ≡ d ∷ v)
decimal_split [] [] c d u v hs ht hc hd e = (refl, e)
decimal_split [] (y ∷ t) c d u v hs ht hc hd e = absurd (hc (rw (head-eq_of_cons-eq e) ht.0))
decimal_split (x ∷ s) [] c d u v hs ht hc hd e = absurd (hd (rw (← head-eq_of_cons-eq e) hs.0))
decimal_split (x ∷ s) (y ∷ t) c d u v hs ht hc hd e =
    let (same, rest) = decimal_split s t c d u v hs.1 ht.1 hc hd (tail-eq_of_cons-eq e) in
    (cc (head-eq_of_cons-eq e, same), rest)

-- The names of two files in the work directory, each a number and a rest.
names_split :
    (work_dir : Text) (i j : ℤ) (c d : ℕ) (u v : Text)
    → ¬ IsDecimal c
    → ¬ IsDecimal d
    → work_dir ++ (codes "/" ++ (to_string i ++ c ∷ u))
      ≡ work_dir ++ (codes "/" ++ (to_string j ++ d ∷ v))
    → (to_string i ≡ to_string j) × (c ∷ u ≡ d ∷ v)
names_split work_dir i j c d u v hc hd e =
    decimal_split (to_string i) (to_string j) c d u v (to_string-IsDecimal i)
      (to_string-IsDecimal j) hc hd (tail-eq_of_cons-eq (append_cancel work_dir _ _ e))

not_config :
    (work_dir : Text) (i : ℤ) (c : ℕ) (u v : Text)
    → ¬ IsDecimal c
    → c ≢ 99
    → work_dir ++ (codes "/" ++ (to_string i ++ c ∷ u)) ≢ work_dir ++ (codes "/" ++ 99 ∷ v)
not_config work_dir i c u v hc ne e =
    let (same, rest) =
      decimal_split (to_string i) [] c 99 u v (to_string-IsDecimal i) tt hc (λ h. omega arith)
        (tail-eq_of_cons-eq (append_cancel work_dir _ _ e)) in
    ne (head-eq_of_cons-eq rest)

-- Whatever the work directory, two different arguments have different input files and different output
-- files.
pub data_paths_injective :
    (work_dir : Text) (i j : ℤ)
    → i ≢ j
    → (input_data_path work_dir i ≢ input_data_path work_dir j)
      × (output_data_path work_dir i ≢ output_data_path work_dir j)
unfolding input_data_path output_data_path
data_paths_injective work_dir i j differ = (
  λ e. differ (
      to_string_injective i j
        (names_split work_dir i j 46 46 _ _ (λ h. h.2 refl) (λ h. h.2 refl) e).0),
  λ e. differ (
      to_string_injective i j
        (names_split work_dir i j 95 95 _ _ (λ h. omega arith) (λ h. omega arith) e).0),
)

-- Whatever the work directory, no argument's input file is an argument's output file, and neither kind
-- of file is config.json.
pub data_paths_apart :
    (work_dir : Text) (i j : ℤ)
    → (input_data_path work_dir i ≢ output_data_path work_dir j)
      × (input_data_path work_dir i ≢ config_path work_dir)
      × (output_data_path work_dir i ≢ config_path work_dir)
unfolding input_data_path output_data_path config_path
data_paths_apart work_dir i j = (
  λ e.
      let rest = (names_split work_dir i j 46 95 _ _ (λ h. h.2 refl) (λ h. omega arith) e).1 in
      absurd (omega (arith, head-eq_of_cons-eq rest)),
  not_config work_dir i 46 _ _ (λ h. h.2 refl) (omega arith),
  not_config work_dir i 95 _ _ (λ h. omega arith) (omega arith),
)

-- Whatever the work directory, the input and the output files of two different arguments are four
-- different files, and config.json is a fifth.
pub data_paths_lem :
    (work_dir : Text) (i j : ℤ)
    → i ≢ j
    → ((input_data_path work_dir i ≢ input_data_path work_dir j)
        × (output_data_path work_dir i ≢ output_data_path work_dir j))
      × ((input_data_path work_dir i ≢ output_data_path work_dir i)
          × (input_data_path work_dir i ≢ output_data_path work_dir j))
      × ((input_data_path work_dir i ≢ config_path work_dir)
          × (output_data_path work_dir i ≢ config_path work_dir))
data_paths_lem work_dir i j differ = (
  data_paths_injective work_dir i j differ,
  ((data_paths_apart work_dir i i).0, (data_paths_apart work_dir i j).0),
  ((data_paths_apart work_dir i i).1, (data_paths_apart work_dir i i).2),
)
