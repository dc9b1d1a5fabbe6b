-- ===== src/XilinxDevice/Environ/Blame.antt =====
-- `GetEnviron` makes no request under `CL_CHECK`.
use fpga_runtime.Common.{List, [], ◌∷◌, Option, none, some, Bool-cases, inl, inr, Text}
use fpga_runtime.Exec.{Exec, require}
use fpga_runtime.Exec.Blame
use fpga_runtime.Exec.Blame.{bind-Explains, require-Explains}
use fpga_runtime.XilinxDevice.Environ.{
  Environ, Shell, search_tools, xilinx_tool, update_environ, update_xrt, get_environ, or_blank,
  is_empty, first_set, tool_variables,
}

module _ {S : Type 0} (P : Text → S → Type 0) (shell : Shell) (env : Environ) where
  abbrev Explains : {A : Type 0} → Exec S A → Type 0
  Explains m = Blame.Explains P m

  search_tools-Explains :
      (tools : List Text) (tool : Text) → Explains (search_tools shell env tools tool)
  unfolding search_tools
  search_tools-Explains [] tool s = tt
  search_tools-Explains (hls ∷ rest) tool s =
      bind-Explains P (require _ (shell.describe hls env)) _ (require-Explains P _ _ (λ u. tt))
        (λ output. search_tools-Explains rest _) s

  xilinx_tool-Explains : Explains (xilinx_tool shell env)
  unfolding xilinx_tool
  xilinx_tool-Explains s = elim (Bool-cases (is_empty (or_blank (first_set tool_variables env)))) [
    | inl e ↦ rw e (search_tools-Explains _ _ s)
    | inr e ↦ rw e tt
  ]

  update_environ-Explains :
      (script : Text) (environ : Environ) → Explains (update_environ shell script environ)
  unfolding update_environ
  update_environ-Explains script environ =
      bind-Explains P (require _ (shell.source script environ)) _ (require-Explains P _ _ (λ u. tt))
        (λ output s. tt)

  update_xrt-Explains :
      (xrt : Option Text) (environ : Environ) → Explains (update_xrt shell xrt environ)
  unfolding update_xrt
  update_xrt-Explains none environ s = tt
  update_xrt-Explains (some xrt) environ s = update_environ-Explains _ environ s

  pub get_environ-Explains : Explains (get_environ shell env)
  unfolding get_environ
  get_environ-Explains = bind-Explains P (xilinx_tool shell env) _ xilinx_tool-Explains (λ tool.
      bind-Explains P (update_environ shell _ []) _ (update_environ-Explains _ [])
        (λ environ. update_xrt-Explains _ environ))
