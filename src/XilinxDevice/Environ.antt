-- ===== src/XilinxDevice/Environ.antt =====
-- `UpdateEnviron` and `XilinxOpenclDevice::GetEnviron` of src/frt/xilinx_opencl_device.cpp. What the
-- shell prints is a parameter; `none` stands for a command that fails.
pub mod Laws
pub mod Frames
pub mod Blame
use fpga_runtime.Common.{
  ℕ, ◌+◌, ◌-◌, Bool, true, false, ◌&&◌, Option, none, some, List, [], ◌∷◌, ◌++◌, length, take, drop,
  Text, codes, ltb, if◌then◌else◌,
}
use fpga_runtime.Common.Eq.{text_Eq}
use fpga_runtime.Common.Split.{lines, before_first, after_first, starts_with, ends_with}
use fpga_runtime.Containers.Maps
use fpga_runtime.Containers.Maps.{or_else, Map}
use fpga_runtime.Exec.{Exec, command_failed, pure, require, ◌>>=◌}

abbrev pub Environ : Type 0
Environ = Map Text Text

-- `source` is the output of `source "$0" >/dev/null 2>&1 && env -0` on a script in an environment,
-- `describe` that of `"$0" -version -help -l /dev/null 2>/dev/null` on a tool in the
-- environment of the process.
pub record Shell : Type 0 where
  pub source : Text → Environ → Option Text
  pub describe : Text → Environ → Option Text

-- The value of a line, all of it where there is no '='.
abbrev pub value_or : Text → Option Text → Text
value_or line none = line
value_or line (some value) = value

-- One round of the loop.
unfoldable pub update_line : Text → Environ → Environ
update_line line environ =
    Maps.assign (before_first b'=' line) (value_or line (after_first b'=' line)) environ

unfoldable pub update_lines : List Text → Environ → Environ
update_lines [] environ = environ
update_lines (line ∷ rest) environ = update_lines rest (update_line line environ)

-- The loop over the output: a line ends at a NUL.
unfoldable pub read_environ : Text → Environ → Environ
read_environ output environ = update_lines (lines 0 output) environ

-- The first variable of the list that is set.
unfoldable pub first_set : List Text → Environ → Option Text
first_set [] env = none
first_set (name ∷ rest) env = or_else (Maps.lookup name env) (first_set rest env)

abbrev pub tool_variables : List Text
tool_variables =
    codes "XILINX_VITIS" ∷ codes "XILINX_SDX" ∷ codes "XILINX_HLS" ∷ codes "XILINX_VIVADO" ∷ []

abbrev pub source_prefix : Text
source_prefix = codes "source "

abbrev pub script_suffix : Text → Text
script_suffix hls = codes "/scripts/" ++ (hls ++ codes "/hls.tcl -notrace")

-- The test on a line.
unfoldable pub is_source_line : Text → Text → Bool
is_source_line hls line =
    ltb (length source_prefix + length (script_suffix hls)) (length line)
    && (starts_with source_prefix line && ends_with (script_suffix hls) line)

unfoldable pub tool_of_line : Text → Text → Text
tool_of_line hls line =
    take (length line - length source_prefix - length (script_suffix hls))
      (drop (length source_prefix) line)

-- The loop over the lines, with the tool found before.
unfoldable pub find_tool : Text → List Text → Text → Text
unfolding is_source_line tool_of_line
find_tool hls [] tool = tool
find_tool hls (line ∷ rest) tool =
    let later = find_tool hls rest tool in
    if is_source_line hls line then tool_of_line hls line else later

abbrev pub hls_tools : List Text
hls_tools = codes "vitis_hls" ∷ codes "vivado_hls" ∷ []

abbrev pub is_empty : Text → Bool
is_empty [] = true
is_empty (c ∷ s) = false

abbrev pub or_blank : Option Text → Text
or_blank none = []
or_blank (some s) = s

module _ {S : Type 0} (shell : Shell) where
  -- `UpdateEnviron`
  unfoldable pub update_environ : Text → Environ → Exec S Environ
  unfolding read_environ
  update_environ script environ = do
    output ← require command_failed (shell.source script environ)
    pure (read_environ output environ)

  -- The loop over the two tools, with the tool found before. The `break` is that of the inner loop.
  unfoldable pub search_tools : Environ → List Text → Text → Exec S Text
  unfolding find_tool
  search_tools env [] tool = pure tool
  search_tools env (hls ∷ rest) tool = do
    output ← require command_failed (shell.describe hls env)
    search_tools env rest (find_tool hls (lines b'\n' output) tool)

  -- The directory of the tool: `env` is the environment of the process.
  unfoldable pub xilinx_tool : Environ → Exec S Text
  unfolding first_set
  xilinx_tool env =
      let tool = or_blank (first_set tool_variables env) in
      if is_empty tool then search_tools env hls_tools [] else pure tool

  unfoldable pub update_xrt : Option Text → Environ → Exec S Environ
  update_xrt none environ = pure environ
  update_xrt (some xrt) environ = update_environ (xrt ++ codes "/setup.sh") environ

  -- `GetEnviron`
  unfoldable pub get_environ : Environ → Exec S Environ
  get_environ env = do
    tool ← xilinx_tool env
    environ ← update_environ (tool ++ codes "/settings64.sh") []
    update_xrt (Maps.lookup (codes "XILINX_XRT") env) environ
