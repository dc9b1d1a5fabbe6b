-- ===== src/CosimDevice/Configuration.antt =====
-- The configuration that `Exec` prints for the simulator.
use mathlib.Core.Option
use fpga_runtime.Common.{
  ◌≡◌, refl, ap, ◌∙◌, false, Option, none, some, [], ◌∷◌, Text, Bool-cases, inl, inr, arith, sym, ℕ,
  true,
}
use fpga_runtime.Common.Eq.{int_Eq, text_Eq, text_eq, text_eq_iff}
use fpga_runtime.Common.Int.{ℤ, int_eq, int_eq_iff}
use fpga_runtime.Common.Decimal.{to_string, to_string_injective}
use fpga_runtime.Containers.Maps
use fpga_runtime.Containers.Maps.{Map, or_else, lookup-assign}
use fpga_runtime.Buffer.{BufferArg, size_in_count}
use fpga_runtime.CosimDevice.{
  CosimDevice, input_data_path, config, scalar_values, array_sizes, data_files,
}
use fpga_runtime.CosimDevice.Files.{KeysDistinct, text_eq-false}

or_else-none : {A : Type 0} (o : Option A) → or_else o none ≡ o
or_else-none none = refl
or_else-none (some a) = refl

map-same : {A : Type 0} (o : Option A) → Option.map (λ a. a) o ≡ o
map-same none = refl
map-same (some a) = refl

module _ {V W : Type 0} (f : ℤ → V → W) where
  -- A loop that assigns a value for every entry, under the decimal text of its index.
  unfoldable fill : Map ℤ V → Map Text W → Map Text W
  fill [] m = m
  fill ((index, v) ∷ rest) m = fill rest (Maps.assign (to_string index) (f index v) m)

  lookup_of_no_key : (i : ℤ) (m : Map ℤ V) → Maps.has_key i m ≡ false → Maps.lookup i m ≡ none
  unfolding Maps.has_key Maps.lookup
  lookup_of_no_key i [] h = refl
  lookup_of_no_key i ((j, v) ∷ m) h = ground (arith, lookup_of_no_key i m)

  to_string-ne : (i j : ℤ) → int_eq i j ≡ false → text_eq (to_string i) (to_string j) ≡ false
  to_string-ne i j h =
      text_eq-false (to_string i) (to_string j)
        (λ e. cc ((int_eq_iff i j).1 (to_string_injective i j e), h))

  lookup-fill :
      (i : ℤ) (m : Map ℤ V) (acc : Map Text W)
      → KeysDistinct m
      → Maps.lookup (to_string i) (fill m acc)
        ≡ or_else (Option.map (f i) (Maps.lookup i m)) (Maps.lookup (to_string i) acc)
  unfolding fill Maps.lookup
  lookup-fill i [] acc d = refl
  lookup-fill i ((j, v) ∷ m) acc d =
      let rest = lookup-fill i m (Maps.assign (to_string j) (f j v) acc) d.1 in
      let step = lookup-assign (to_string j) (to_string i) (f j v) acc in
      elim (Bool-cases (int_eq i j)) [
        | inl same ↦
            let e : i ≡ j = (int_eq_iff i j).0 same in
            let gone : Maps.lookup i m ≡ none = lookup_of_no_key i m (rw e d.0) in
            let texts : text_eq (to_string i) (to_string j) ≡ true =
              (text_eq_iff (to_string i) (to_string j)).1 (ap to_string e) in
            rw (rest, step, same, texts, gone) (ap (λ (k : ℤ). some (f k v)) (sym e))
        | inr differ ↦ rw (rest, step, differ, to_string-ne i j differ)
      ]

  lookup-filled :
      (i : ℤ) (m : Map ℤ V)
      → KeysDistinct m
      → Maps.lookup (to_string i) (fill m []) ≡ Option.map (f i) (Maps.lookup i m)
  unfolding Maps.lookup
  lookup-filled i m d = lookup-fill i m [] d ∙ or_else-none _

scalar_values-fill :
    (m : Map ℤ Text) (acc : Map Text Text) → scalar_values m acc ≡ fill (λ i text. text) m acc
unfolding scalar_values fill
scalar_values-fill [] acc = refl
scalar_values-fill ((i, text) ∷ m) acc = scalar_values-fill m (Maps.assign (to_string i) text acc)

array_sizes-fill :
    (m : Map ℤ BufferArg) (acc : Map Text ℕ)
    → array_sizes m acc ≡ fill (λ i arg. size_in_count arg) m acc
unfolding array_sizes fill
array_sizes-fill [] acc = refl
array_sizes-fill ((i, arg) ∷ m) acc =
    array_sizes-fill m (Maps.assign (to_string i) (size_in_count arg) acc)

data_files-fill :
    (work_dir : Text) (m : Map ℤ BufferArg) (acc : Map Text Text)
    → data_files work_dir m acc ≡ fill (λ i arg. input_data_path work_dir i) m acc
unfolding data_files fill
data_files-fill work_dir [] acc = refl
data_files-fill work_dir ((i, arg) ∷ m) acc =
    data_files-fill work_dir m (Maps.assign (to_string i) (input_data_path work_dir i) acc)

-- Where no two scalars and no two buffers have the same index, the configuration that `Exec` prints has,
-- under the decimal text of an index, the text of the scalar if there is one, the element count and
-- the input file of the buffer if there is one, and else nothing; an index without a scalar has no
-- scalar text, and one without a buffer has no count and no file.
pub config_lem :
    (s : CosimDevice) (i : ℤ)
    → KeysDistinct s.scalars
    → KeysDistinct s.buffer_table
    → let c = config s in
      (Maps.lookup (to_string i) c.scalar_to_val ≡ Maps.lookup i s.scalars)
      × (Maps.lookup (to_string i) c.axi_to_c_array_size
          ≡ Option.map size_in_count (Maps.lookup i s.buffer_table))
      × (Maps.lookup (to_string i) c.axi_to_data_file
          ≡ Option.map (λ arg. input_data_path s.work_dir i) (Maps.lookup i s.buffer_table))
unfolding config
config_lem s i scalars buffers = (
  rw (scalar_values-fill s.scalars [])
      (lookup-filled (λ i text. text) i s.scalars scalars ∙ map-same _),
  rw (array_sizes-fill s.buffer_table [])
      (lookup-filled (λ i arg. size_in_count arg) i s.buffer_table buffers),
  rw (data_files-fill s.work_dir s.buffer_table [])
      (lookup-filled (λ i arg. input_data_path s.work_dir i) i s.buffer_table buffers),
)
