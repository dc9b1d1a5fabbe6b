-- ===== src/XilinxDevice/Environ/Frames.antt =====
-- `GetEnviron` changes nothing of the object that calls it.
use fpga_runtime.Common.{refl, List, [], ◌∷◌, Option, none, some, Bool-cases, inl, inr, Text}
use fpga_runtime.Exec.{Exec, require}
use fpga_runtime.Exec.Frames
use fpga_runtime.Exec.Frames.{bind-Keeps, require-Keeps}
use fpga_runtime.XilinxDevice.Environ.{
  Environ, Shell, search_tools, xilinx_tool, update_environ, update_xrt, get_environ, or_blank,
  is_empty, first_set, tool_variables,
}

module _ {S V : Type 0} (view : S → V) (shell : Shell) (env : Environ) where
  abbrev Keeps : {A : Type 0} → Exec S A → Type 0
  Keeps m = Frames.Keeps view m

  search_tools-Keeps : (tools : List Text) (tool : Text) → Keeps (search_tools shell env tools tool)
  unfolding search_tools
  search_tools-Keeps [] tool s = refl
  search_tools-Keeps (hls ∷ rest) tool s =
      bind-Keeps view (require _ (shell.describe hls env)) _ (require-Keeps view _ _)
        (λ output. search_tools-Keeps rest _) s

  xilinx_tool-Keeps : Keeps (xilinx_tool shell env)
  unfolding xilinx_tool
  xilinx_tool-Keeps s = elim (Bool-cases (is_empty (or_blank (first_set tool_variables env)))) [
    | inl e ↦ rw e (search_tools-Keeps _ _ s)
    | inr e ↦ rw e refl
  ]

  update_environ-Keeps :
      (script : Text) (environ : Environ) → Keeps (update_environ shell script environ)
  unfolding update_environ
  update_environ-Keeps script environ =
      bind-Keeps view (require _ (shell.source script environ)) _ (require-Keeps view _ _)
        (λ output s. refl)

  update_xrt-Keeps : (xrt : Option Text) (environ : Environ) → Keeps (update_xrt shell xrt environ)
  unfolding update_xrt
  update_xrt-Keeps none environ s = refl
  update_xrt-Keeps (some xrt) environ s = update_environ-Keeps _ environ s

  pub get_environ-Keeps : Keeps (get_environ shell env)
  unfolding get_environ
  get_environ-Keeps = bind-Keeps view (xilinx_tool shell env) _ xilinx_tool-Keeps (λ tool.
      bind-Keeps view (update_environ shell _ []) _ (update_environ-Keeps _ [])
        (λ environ. update_xrt-Keeps _ environ))
