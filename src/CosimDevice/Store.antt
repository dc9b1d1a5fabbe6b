-- ===== src/CosimDevice/Store.antt =====
-- The files and the host memory that src/frt/tapa_fast_cosim_device.cpp reads and writes, and the text
-- of a scalar.
use fpga_runtime.Common.{
  ℕ, zero, suc, ◌+◌, ◌/◌, ◌%◌, Option, none, some, List, [], ◌∷◌, ◌++◌, take, Text, codes, ltb,
  nat_eq, if◌then◌else◌,
}
use mathlib.Core.List.{reverse}
use fpga_runtime.Common.Eq.{text_Eq}
use fpga_runtime.Common.Int.{ℤ}
use fpga_runtime.Common.Decimal.{to_string}
use fpga_runtime.Containers.Maps
use fpga_runtime.Containers.Maps.{Map}
use fpga_runtime.Buffer.{BufferArg, size_in_bytes}

unfoldable pub input_data_path : Text → ℤ → Text
input_data_path work_dir index = work_dir ++ (codes "/" ++ (to_string index ++ codes ".bin"))

unfoldable pub output_data_path : Text → ℤ → Text
output_data_path work_dir index = work_dir ++ (codes "/" ++ (to_string index ++ codes "_out.bin"))

unfoldable pub config_path : Text → Text
config_path work_dir = work_dir ++ codes "/config.json"

-- The files, the bytes at the host's addresses, the readings of `std::chrono::steady_clock` in
-- nanoseconds, and how many were taken.
pub record World : Type 0 where
  pub files : Map Text Text
  pub memory : ℕ → ℕ
  pub clock : ℕ → ℕ
  pub readings : ℕ

-- A hexadecimal digit, and `std::setw(2)` with `std::setfill('0')` of a byte.
abbrev hex_digit : ℕ → ℕ
hex_digit n = if ltb n 10 then 48 + n else 87 + n

unfoldable pub hex_byte : ℕ → Text
hex_byte b = hex_digit (b / 16) ∷ hex_digit (b % 16) ∷ []

unfoldable pub hex_bytes : List ℕ → Text
hex_bytes [] = []
hex_bytes (b ∷ bs) = hex_byte b ++ hex_bytes bs

-- The text of a scalar: its bytes from the last to the first.
unfoldable pub scalar_text : List ℕ → Text
unfolding hex_bytes hex_byte
scalar_text arg = codes "'h" ++ hex_bytes (reverse arg)

-- The bytes from an address on.
unfoldable pub bytes_at : (ℕ → ℕ) → (ptr n : ℕ) → List ℕ
bytes_at memory ptr zero = []
bytes_at memory ptr (suc n) = memory ptr ∷ bytes_at memory (suc ptr) n

unfoldable pub store_bytes_at : ℕ → List ℕ → (ℕ → ℕ) → ℕ → ℕ
store_bytes_at ptr [] memory a = memory a
store_bytes_at ptr (b ∷ bs) memory a =
    if nat_eq a ptr then b else store_bytes_at (suc ptr) bs memory a

-- The loop of `WriteToDevice`, over all buffers.
unfoldable pub write_files : Text → (ℕ → ℕ) → Map ℤ BufferArg → Map Text Text → Map Text Text
write_files work_dir memory [] files = files
write_files work_dir memory ((index, arg) ∷ rest) files = write_files work_dir memory rest (
    Maps.assign (input_data_path work_dir index) (bytes_at memory arg.ptr (size_in_bytes arg))
      files)

-- What a file that is not there reads as.
abbrev pub or_empty : Option Text → Text
or_empty none = []
or_empty (some content) = content

-- `std::ifstream(path).read(ptr, n)`: as many bytes as the file has, and `n` at most.
unfoldable pub read_file : Map Text Text → Text → BufferArg → (ℕ → ℕ) → ℕ → ℕ
unfolding store_bytes_at
read_file files path arg memory =
    store_bytes_at arg.ptr (take (size_in_bytes arg) (or_empty (Maps.lookup path files))) memory
