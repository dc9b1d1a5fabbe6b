-- ===== src/CosimDevice/Scalars.antt =====
-- `SetScalarArg` of the simulator: the Verilog number that it writes is the little-endian value of the
-- argument's bytes.
use fpga_runtime.Common.{ℕ, ◌+◌, ◌-◌, ◌*◌, List, [], ◌∷◌, Text, ltb, if◌then◌else◌}
use fpga_runtime.Common.Eq.{int_Eq}

-- The number that lower-case hexadecimal digits stand for, and the one that little-endian bytes do.
abbrev pub hex_value : ℕ → Text → ℕ
hex_value acc [] = acc
hex_value acc (c ∷ s) = hex_value (acc * 16 + (if ltb c 97 then c - 48 else c - 87)) s

abbrev pub little_endian : List ℕ → ℕ
little_endian [] = 0
little_endian (b ∷ bs) = b + 256 * little_endian bs
