-- ===== src/Tests/Files.antt =====
-- The theorems on the simulator's files at concrete data.
use fpga_runtime.Common.Decimal.{to_string}
use fpga_runtime.CosimDevice.Configuration.{config_lem}
use fpga_runtime.CosimDevice.Construction.Removal.{is_below, lookup-destroy}
use fpga_runtime.CosimDevice.Construction.{Places, has_no_flag, destroy}
use fpga_runtime.Common.{◌≡◌, ◌≢◌, refl, some, [], ◌∷◌, arith, codes, none, ◌&&◌, if◌then◌else◌}
use fpga_runtime.Common.Int.{int_eq_iff, pos}
use fpga_runtime.Common.Eq.{text_Eq, int_Eq}
use mathlib.Core.Option
use fpga_runtime.Containers.Maps
use fpga_runtime.Tag.{read_write}
use fpga_runtime.Buffer.{size_in_bytes, size_in_count}
use fpga_runtime.CosimDevice.{
  input_data_path, output_data_path, config_path, write_to_device, set_buffer_arg, bytes_at,
  CosimDevice, set_scalar_arg, config,
}
use fpga_runtime.CosimDevice.Paths.{data_paths_lem}
use fpga_runtime.CosimDevice.Files.{KeysDistinct, set_buffer_arg_again}
use fpga_runtime.Tests.{simulated, float_arg}

pos_1-ne-pos_3 : pos 1 ≢ pos 3
pos_1-ne-pos_3 = λ e. ground (arith, int_eq_iff (pos 1) (pos 3))

data_paths_example :
    ((input_data_path (codes "/w") (pos 1) ≢ input_data_path (codes "/w") (pos 3))
      × (output_data_path (codes "/w") (pos 1) ≢ output_data_path (codes "/w") (pos 3)))
    × ((input_data_path (codes "/w") (pos 1) ≢ output_data_path (codes "/w") (pos 1))
        × (input_data_path (codes "/w") (pos 1) ≢ output_data_path (codes "/w") (pos 3)))
    × ((input_data_path (codes "/w") (pos 1) ≢ config_path (codes "/w"))
        × (output_data_path (codes "/w") (pos 1) ≢ config_path (codes "/w")))
data_paths_example = data_paths_lem (codes "/w") (pos 1) (pos 3) pos_1-ne-pos_3

simulated-KeysDistinct : KeysDistinct simulated.buffer_table
unfolding Maps.has_key
simulated-KeysDistinct = (refl, (refl, tt))

simulated_1 : Maps.lookup (pos 1) simulated.buffer_table ≡ some float_arg
unfolding Maps.lookup
simulated_1 = refl

set_buffer_arg_again_example :
    Maps.lookup
      (input_data_path (codes "/w") (pos 1))
      (write_to_device
        (set_buffer_arg (pos 1) read_write (record { ptr = 64; size = 1; n = 2 }) simulated)).files
    ≡ some (bytes_at simulated.memory 4096 (size_in_bytes float_arg))
set_buffer_arg_again_example =
    set_buffer_arg_again simulated (pos 1) read_write float_arg
      (record { ptr = 64; size = 1; n = 2 }) simulated-KeysDistinct simulated_1

-- A process with a temporary work directory.
abbrev pub temporary : Places
temporary = record {
  xosim_work_dir = [];
  absolute = λ path. path;
  temp_path = λ name. name;
  create_directories = λ dir. none;
  mkdtemp = λ template. some template;
}

destroy_example :
    Maps.lookup (codes "/w/1.bin") (destroy temporary (write_to_device simulated)).files ≡ (
      if has_no_flag [] && is_below (write_to_device simulated).work_dir (codes "/w/1.bin")
      then none
      else Maps.lookup (codes "/w/1.bin") (write_to_device simulated).files)
destroy_example = lookup-destroy temporary (write_to_device simulated) (codes "/w/1.bin")

abbrev with_scalar : CosimDevice
with_scalar = set_scalar_arg (pos 0) (6 ∷ []) simulated

with_scalar-KeysDistinct : KeysDistinct with_scalar.scalars
unfolding set_scalar_arg Maps.assign Maps.has_key
with_scalar-KeysDistinct = (refl, tt)

with_scalar-buffers : KeysDistinct with_scalar.buffer_table
unfolding set_scalar_arg
with_scalar-buffers = simulated-KeysDistinct

config_example :
    let c = config with_scalar in
    (Maps.lookup (to_string (pos 1)) c.scalar_to_val ≡ Maps.lookup (pos 1) with_scalar.scalars)
    × (Maps.lookup (to_string (pos 1)) c.axi_to_c_array_size
        ≡ Option.map size_in_count (Maps.lookup (pos 1) with_scalar.buffer_table))
    × (Maps.lookup (to_string (pos 1)) c.axi_to_data_file
        ≡ Option.map
            (λ arg. input_data_path with_scalar.work_dir (pos 1))
            (Maps.lookup (pos 1) with_scalar.buffer_table))
config_example = config_lem with_scalar (pos 1) with_scalar-KeysDistinct with_scalar-buffers
