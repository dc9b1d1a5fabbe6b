-- ===== src/Instance/Bitstreams.antt =====
-- The choice of the device for a bitstream in the constructor of `Instance`.
use mathlib.Core.List.{head-eq_of_cons-eq}
use fpga_runtime.Common.{
  sym, ◌∙◌, ◌≢◌, ◌≡◌, true, [], ◌∷◌, Text, arith, Bool, ℕ, false, ◌↔◌, Bool-cases, inl, inr, codes,
}
use fpga_runtime.CosimDevice.{is_zip}
use fpga_runtime.Instance.{
  is_xclbin, is_elf, open_bitstream, ok, xilinx, intel, cosim, err, runtime_error,
}

-- The first byte of each kind of file.
xclbin_head : (b : Text) → is_xclbin b ≡ true → (s : Text) × (b ≡ 120 ∷ s)
unfolding is_xclbin
xclbin_head [] h = ground arith
xclbin_head (c ∷ s) h = (s, ground arith)

elf_head : (b : Text) → is_elf b ≡ true → (s : Text) × (b ≡ 127 ∷ s)
unfolding is_elf
elf_head [] h = ground arith
elf_head (c ∷ s) h = (s, ground arith)

zip_head : (b : Text) → is_zip b ≡ true → (s : Text) × (b ≡ 80 ∷ s)
unfolding is_zip
zip_head [] h = ground arith
zip_head (c ∷ s) h = (s, ground arith)

-- Tests that want different first bytes do not both succeed.
apart :
    (test : Text → Bool) (x y : ℕ) (b s : Text)
    → x ≢ y
    → b ≡ x ∷ s
    → ((c : Text) → test c ≡ true → (t : Text) × (c ≡ y ∷ t))
    → test b ≡ false
apart test x y b s differ e head = elim (Bool-cases (test b)) [
  | inl good ↦ let (t, f) = head b good in absurd (differ (head-eq_of_cons-eq (sym e ∙ f)))
  | inr bad ↦ bad
]

-- An `Instance` runs a file on the Xilinx, the Intel or the simulated device exactly if the test of that
-- device succeeds on it, so at most one of the three tests does; if none does, the constructor throws.
pub open_bitstream_lem :
    (b : Text)
    → ((open_bitstream b ≡ ok xilinx) ↔ (is_xclbin b ≡ true))
      × ((open_bitstream b ≡ ok intel) ↔ (is_elf b ≡ true))
      × ((open_bitstream b ≡ ok cosim) ↔ (is_zip b ≡ true))
      × ((open_bitstream b ≡ err (runtime_error (codes "unexpected bitstream file")))
          ↔ ((is_xclbin b ≡ false) × (is_elf b ≡ false) × (is_zip b ≡ false)))
unfolding open_bitstream
open_bitstream_lem b = elim (Bool-cases (is_xclbin b)) [
  | inl x ↦
      let (s, e) = xclbin_head b x in
      let no_elf = apart is_elf 120 127 b s (omega arith) e elf_head in
      let no_zip = apart is_zip 120 80 b s (omega arith) e zip_head in
      rw (x, no_elf, no_zip) (ground arith)
  | inr no_x ↦ elim (Bool-cases (is_elf b)) [
    | inl i ↦
        let (s, e) = elf_head b i in
        let no_zip = apart is_zip 127 80 b s (omega arith) e zip_head in
        rw (no_x, i, no_zip) (ground arith)
    | inr no_i ↦
        rw (no_x, no_i)
          (elim (Bool-cases (is_zip b)) [
            | inl z ↦ rw z (ground arith)
            | inr z ↦ rw z (ground arith)
          ])
  ]
]
