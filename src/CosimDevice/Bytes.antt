-- ===== src/CosimDevice/Bytes.antt =====
-- Which bytes of the host memory change when the simulator's device reads a file.
use fpga_runtime.Common.{
  ℕ, zero, suc, ◌+◌, ◌<◌, ◌≤◌, ◌≡◌, refl, ap, ◌∙◌, true, false, ◌⊎◌, Option, none, some, List, [],
  ◌∷◌, length, take, get_elem?, Text, nat_eq, arith,
}
use fpga_runtime.Common.Eq.{text_Eq}
use fpga_runtime.Containers.Maps
use fpga_runtime.Containers.Maps.{Map}
use fpga_runtime.Buffer.{BufferArg, size_in_bytes}
use fpga_runtime.CosimDevice.{or_empty, store_bytes_at, read_file}

-- A byte that a file has, or the one that was there before.
abbrev pub or_old : Option ℕ → ℕ → ℕ
or_old none old = old
or_old (some b) old = b

-- An address is not one of the `n` from `ptr` on.
abbrev pub Outside : (ptr n a : ℕ) → Type 0
Outside ptr n a = (a < ptr) ⊎ (ptr + n ≤ a)

pub or_old-twice : (b : Option ℕ) (x : ℕ) → or_old b (or_old b x) ≡ or_old b x
or_old-twice none x = refl
or_old-twice (some b) x = refl

store_bytes_at-inside :
    (ptr : ℕ) (bytes : List ℕ) (memory : ℕ → ℕ) (k a : ℕ)
    → a ≡ ptr + k
    → store_bytes_at ptr bytes memory a ≡ or_old (get_elem? bytes k) (memory a)
unfolding store_bytes_at
store_bytes_at-inside ptr [] memory k a e = refl
store_bytes_at-inside ptr (b ∷ bytes) memory zero a e =
    let here : nat_eq a ptr ≡ true = ground arith in rw here
store_bytes_at-inside ptr (b ∷ bytes) memory (suc k) a e =
    let behind : nat_eq a ptr ≡ false = ground arith in
    rw behind (store_bytes_at-inside (suc ptr) bytes memory k a (omega arith))

store_bytes_at-Outside :
    (ptr : ℕ) (bytes : List ℕ) (memory : ℕ → ℕ) (n a : ℕ)
    → length bytes ≤ n
    → Outside ptr n a
    → store_bytes_at ptr bytes memory a ≡ memory a
unfolding store_bytes_at
store_bytes_at-Outside ptr [] memory n a l out = refl
store_bytes_at-Outside ptr (b ∷ bytes) memory zero a l out = absurd (omega arith)
store_bytes_at-Outside ptr (b ∷ bytes) memory (suc n) a l out =
    let behind : nat_eq a ptr ≡ false = ground arith in
    rw behind (store_bytes_at-Outside (suc ptr) bytes memory n a (omega arith) (ground arith))

get_elem?-take : (n k : ℕ) (bytes : List ℕ) → k < n → get_elem? (take n bytes) k ≡ get_elem? bytes k
get_elem?-take zero k bytes h = absurd (omega arith)
get_elem?-take (suc n) k [] h = refl
get_elem?-take (suc n) zero (b ∷ bytes) h = refl
get_elem?-take (suc n) (suc k) (b ∷ bytes) h = get_elem?-take n k bytes (omega arith)

length-take_le : (n : ℕ) (bytes : List ℕ) → length (take n bytes) ≤ n
length-take_le zero bytes = omega arith
length-take_le (suc n) [] = omega arith
length-take_le (suc n) (b ∷ bytes) = omega (arith, length-take_le n bytes)

module _ (files : Map Text Text) (path : Text) (arg : BufferArg) (memory : ℕ → ℕ) where
  pub read_file-inside :
      (k : ℕ)
      → k < size_in_bytes arg
      → read_file files path arg memory (arg.ptr + k)
        ≡ or_old (get_elem? (or_empty (Maps.lookup path files)) k) (memory (arg.ptr + k))
  unfolding read_file
  read_file-inside k h =
      let content = or_empty (Maps.lookup path files) in
      store_bytes_at-inside arg.ptr (take (size_in_bytes arg) content) memory k (arg.ptr + k) refl
      ∙ ap (λ (b : Option ℕ). or_old b (memory (arg.ptr + k)))
          (get_elem?-take (size_in_bytes arg) k content h)

  pub read_file-Outside :
      (a : ℕ) → Outside arg.ptr (size_in_bytes arg) a → read_file files path arg memory a ≡ memory a
  unfolding read_file
  read_file-Outside a out =
      store_bytes_at-Outside arg.ptr _ memory (size_in_bytes arg) a (length-take_le _ _) out
