-- ===== src/Tests/Environs.antt =====
-- The theorems on `GetEnviron` at concrete outputs.
use fpga_runtime.Common.{
  ◌≡◌, ◌++◌, ℕ, refl, none, some, List, [], ◌∷◌, codes, Text, if◌then◌else◌, arith,
}
use fpga_runtime.Common.Eq.{text_eq, text_Eq}
use fpga_runtime.Common.Split.{lines}
use fpga_runtime.Containers.Maps
use fpga_runtime.Containers.Maps.{or_else}
use fpga_runtime.Exec.{ok}
use fpga_runtime.XilinxDevice.Environ.{Shell, read_environ, xilinx_tool, first_set, is_source_line}
use fpga_runtime.XilinxDevice.Environ.Laws.{
  print_environ, last_value, source_line, lookup-read_environ, xilinx_tool_lem,
}

abbrev variables : List (Text × Text)
variables = (codes "A", codes "1=2") ∷ (codes "B", []) ∷ (codes "A", codes "3") ∷ []

read_environ_example :
    Maps.lookup (codes "A") (read_environ (print_environ variables) ((codes "C", codes "4") ∷ []))
    ≡ or_else
        (last_value (codes "A") variables)
        (Maps.lookup (codes "A") ((codes "C", codes "4") ∷ []))
read_environ_example =
    lookup-read_environ variables ((codes "C", codes "4") ∷ []) (codes "A") (ground arith)

-- Both tools answer.
abbrev both : Shell
both = record {
  source = λ script environ. none;
  describe = λ tool env. some (
      if text_eq tool (codes "vitis_hls")
      then source_line (codes "vitis_hls") (codes "/vitis")
      else (codes "version\n" ++ source_line (codes "vivado_hls") (codes "/vivado")));
}

xilinx_tool_example :
    xilinx_tool {S = ℕ} both ((codes "HOME", codes "/root") ∷ []) 7 ≡ (ok (codes "/vivado"), 7)
xilinx_tool_example =
    xilinx_tool_lem both ((codes "HOME", codes "/root") ∷ []) 7 (codes "/vivado")
      (source_line (codes "vitis_hls") (codes "/vitis"))
      (codes "version\n" ++ source_line (codes "vivado_hls") (codes "/vivado"))
      (codes "version" ∷ []) [] (unfold first_set Maps.lookup in refl) refl refl
      (unfold lines in refl) (unfold is_source_line in (refl, tt)) (omega arith)
