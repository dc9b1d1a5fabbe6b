-- ===== src/XilinxDevice/Environ/Laws.antt =====
-- What `UpdateEnviron` reads from the output of `env -0`, and which tool `GetEnviron` takes.
use fpga_runtime.Common.{
  ◌+◌, ◌<◌, ◌≡◌, refl, ap, Bool, true, false, Option, none, some, List, [], ◌∷◌, ◌++◌, length,
  length-append, All, Text, codes, arith, if◌then◌else◌, ltb,
}
use fpga_runtime.Common.Eq.{text_Eq, ◌==◌}
use fpga_runtime.Common.Split.{
  Without, lines, lines-append, before_first-append, after_first-append, starts_with-append,
  ends_with-append, take-drop-append,
}
use fpga_runtime.Containers.Maps
use fpga_runtime.Containers.Maps.{or_else, lookup-assign}
use fpga_runtime.Exec.{ok}
use fpga_runtime.XilinxDevice.Environ.{
  Environ, Shell, update_line, update_lines, read_environ, first_set, tool_variables, source_prefix,
  script_suffix, is_source_line, tool_of_line, find_tool, xilinx_tool, search_tools,
}

-- What `env -0` prints for a list of variables.
abbrev pub print_environ : List (Text × Text) → Text
print_environ [] = []
print_environ ((name, value) ∷ rest) = (name ++ b'=' ∷ value) ++ 0 ∷ print_environ rest

-- A name has no '=', and neither part has a NUL.
abbrev pub IsVariable : Text × Text → Type 0
IsVariable (name, value) = Without b'=' name × Without 0 name × Without 0 value

-- The last value that a list of variables gives a name.
abbrev pub last_value : Text → List (Text × Text) → Option Text
last_value key [] = none
last_value key ((name, value) ∷ rest) =
    or_else (last_value key rest) (if key == name then some value else none)

update_line_lem :
    (name value : Text) (environ : Environ)
    → Without b'=' name
    → update_line (name ++ b'=' ∷ value) environ ≡ Maps.assign name value environ
unfolding update_line
update_line_lem name value environ h =
    rw (before_first-append b'=' name value h, after_first-append b'=' name value h)

update_lines-cons :
    (line : Text) (rest : List Text) (environ : Environ)
    → update_lines (line ∷ rest) environ ≡ update_lines rest (update_line line environ)
unfolding update_lines
update_lines-cons line rest environ = refl

or_else-if :
    {A : Type 0} (o m : Option A) (b : Bool) (v : A)
    → or_else o (if b then some v else m) ≡ or_else (or_else o (if b then some v else none)) m
or_else-if (some a) m b v = refl
or_else-if none m true v = refl
or_else-if none m false v = refl

Without-line :
    (name value : Text) → Without 0 name → Without 0 value → Without 0 (name ++ b'=' ∷ value)
Without-line [] value h k = (omega arith, k)
Without-line (c ∷ name) value h k = (h.0, Without-line name value h.1 k)

-- Reading what `env -0` printed for any list of variables gives each name the last value that the
-- list gives it, and leaves the other names as they were.
pub lookup-read_environ :
    (es : List (Text × Text)) (environ : Environ) (key : Text)
    → All IsVariable es
    → Maps.lookup key (read_environ (print_environ es) environ)
      ≡ or_else (last_value key es) (Maps.lookup key environ)
unfolding read_environ update_lines
lookup-read_environ [] environ key h = unfold lines in refl
lookup-read_environ ((name, value) ∷ rest) environ key h =
    rw
      (
        lines-append 0 (name ++ b'=' ∷ value) (print_environ rest)
            (Without-line name value h.0.1 h.0.2),
        update_lines-cons (name ++ b'=' ∷ value) (lines 0 (print_environ rest)) environ,
        update_line_lem name value environ h.0.0,
        lookup-read_environ rest (Maps.assign name value environ) key h.1,
        lookup-assign name key value environ,
      )
      (or_else-if (last_value key rest) (Maps.lookup key environ) (key == name) value)

-- The line by which a tool names its directory.
abbrev pub source_line : Text → Text → Text
source_line hls tool = source_prefix ++ (tool ++ script_suffix hls)

source_line_lem :
    (hls tool : Text)
    → 0 < length tool
    → (is_source_line hls (source_line hls tool) ≡ true)
      × (tool_of_line hls (source_line hls tool) ≡ tool)
unfolding is_source_line tool_of_line
source_line_lem hls tool h =
    let long : ltb (length source_prefix + length (script_suffix hls))
          (length (source_line hls tool))
        ≡ true =
      ground (
        arith,
        length-append source_prefix (tool ++ script_suffix hls),
        length-append tool (script_suffix hls),
      ) in
    (
      rw (
        long,
        starts_with-append source_prefix tool (script_suffix hls),
        ends_with-append source_prefix tool (script_suffix hls),
      ),
      take-drop-append source_prefix tool (script_suffix hls),
    )

-- The first line that names a directory counts.
find_tool-append :
    (hls tool old : Text) (before after : List Text)
    → 0 < length tool
    → All (λ line. is_source_line hls line ≡ false) before
    → find_tool hls (before ++ source_line hls tool ∷ after) old ≡ tool
unfolding find_tool
find_tool-append hls tool old [] after h b = let (is, cut) = source_line_lem hls tool h in rw is cut
find_tool-append hls tool old (line ∷ before) after h b =
    rw b.0 (find_tool-append hls tool old before after h b.1)

-- Where none of the four variables is set and both tools answer, `GetEnviron` takes the directory that
-- vivado_hls names first, whatever vitis_hls has named.
pub xilinx_tool_lem :
    {S : Type 0} (shell : Shell) (env : Environ) (s : S) (tool vitis vivado : Text)
    (before after : List Text)
    → first_set tool_variables env ≡ none
    → shell.describe (codes "vitis_hls") env ≡ some vitis
    → shell.describe (codes "vivado_hls") env ≡ some vivado
    → lines b'\n' vivado ≡ before ++ source_line (codes "vivado_hls") tool ∷ after
    → All (λ line. is_source_line (codes "vivado_hls") line ≡ false) before
    → 0 < length tool
    → xilinx_tool shell env s ≡ (ok tool, s)
unfolding xilinx_tool search_tools
xilinx_tool_lem shell env s tool vitis vivado before after unset one two l b h =
    rw (unset, one, two, l)
      (ap (λ (t : Text). (ok t, s)) (find_tool-append (codes "vivado_hls") tool _ before after h b))
