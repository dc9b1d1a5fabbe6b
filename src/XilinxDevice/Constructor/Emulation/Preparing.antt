-- ===== src/XilinxDevice/Constructor/Emulation/Preparing.antt =====
-- The branch of the Xilinx constructor for an emulation.
use mathlib.Core.List.{append_assoc}
use fpga_runtime.XilinxDevice.Environ.Laws.{last_value}
use fpga_runtime.Common.{
  sym, ◌∙◌, ◌≡◌, refl, false, Option, none, some, Bool-cases, inl, inr, [], ◌∷◌, ◌++◌, Text, codes,
  if◌then◌else◌, arith,
}
use fpga_runtime.Common.Eq.{text_Eq, ◌==◌}
use fpga_runtime.Containers.Maps
use fpga_runtime.Containers.Maps.{or_else, lookup-insert, lookup-assign}
use fpga_runtime.Exec.{ok}
use fpga_runtime.XilinxDevice.Environ.{Environ, get_environ, is_empty}
use fpga_runtime.XilinxDevice.Constructor.{
  Host, Construction, set_missing, set_variables, uid, frt_tmpdir, make_directory,
  prepare_emulation, emconfig_command, or_default, set_variable,
}
use fpga_runtime.XilinxDevice.Constructor.Emulation.{
  or_else-none, or_else_assoc, or_else-chain, lookup-set_missing,
}

lookup-set_variable :
    (name value key : Text) (env : Environ)
    → is_empty key ≡ false
    → Maps.lookup key (set_variable name value env)
      ≡ or_else (if key == name then some value else none) (Maps.lookup key env)
unfolding set_variable
lookup-set_variable [] value [] env h = ground arith
lookup-set_variable [] value (c ∷ key) env h = refl
lookup-set_variable (n ∷ name) value key env h =
    rw (lookup-assign (n ∷ name) key value env)
      (elim (Bool-cases (key == n ∷ name)) [ inl e ↦ rw e refl | inr e ↦ rw e refl ])

lookup-set_variables :
    (key : Text) (environ env : Environ)
    → is_empty key ≡ false
    → Maps.lookup key (set_variables environ env)
      ≡ or_else (last_value key environ) (Maps.lookup key env)
unfolding set_variables
lookup-set_variables key [] env h = refl
lookup-set_variables key ((name, value) ∷ rest) env h =
    rw
      (
        lookup-set_variables key rest (set_variable name value env) h,
        lookup-set_variable name value key env h,
      )
      (sym (or_else_assoc (last_value key rest) _ (Maps.lookup key env)))

-- The two parts of the command for the configuration of a target.
abbrev pub boards_query : (target dir : Text) → Text
boards_query target dir =
    codes "jq --exit-status '.Platform.Boards[]|select(.Devices[]|select(.Name==\""
    ++ (target ++ (codes "\"))' " ++ (dir ++ codes "/emconfig.json >/dev/null 2>&1")))

abbrev pub emconfigutil_call : (target dir : Text) → Text
emconfigutil_call target dir =
    codes "emconfigutil --platform " ++ (target ++ (codes " --od " ++ dir))

emconfig_command_lem :
    (target dir : Text)
    → emconfig_command target dir
      ≡ boards_query target dir ++ (codes " || " ++ emconfigutil_call target dir)
unfolding emconfig_command
emconfig_command_lem target dir = simp (append_assoc)

module _ (host : Host) where
  -- What the constructor sets if nothing else has: the user, and two directories below `dir`.
  unfoldable pub default_value : (target dir key : Text) → Option Text
  default_value target dir key =
      if key == codes "USER"
      then some (uid host)
      else if key == codes "SDACCEL_EM_RUN_DIR"
      then some dir
      else if key == codes "EMCONFIG_PATH"
      then some (dir ++ (codes "/emconfig." ++ target))
      else none

  or_default_lem : (d : Text) (o : Option Text) → some (or_default d o) ≡ or_else o (some d)
  or_default_lem d none = refl
  or_default_lem d (some a) = refl

  make_directory_lem :
      (dir : Text) (c : Construction)
      → host.mkdir dir ≡ none
      → make_directory host dir c ≡ (ok tt, c)
  unfolding make_directory
  make_directory_lem dir c h = rw h

  -- The directory of the runtime, for the variables of the tool.
  abbrev pub emulation_dir : Environ → Environ → Text
  emulation_dir environ env =
      frt_tmpdir host (set_missing (codes "USER") (uid host) (set_variables environ env))

  -- The environment after the branch, but for EMCONFIG_PATH.
  abbrev pub base_env : Environ → Environ → Environ
  base_env environ env =
      set_missing (codes "SDACCEL_EM_RUN_DIR") (emulation_dir environ env)
        (set_missing (codes "USER") (uid host) (set_variables environ env))

  abbrev pub default_emconfig : Text → Environ → Environ → Text
  default_emconfig target environ env = emulation_dir environ env ++ (codes "/emconfig." ++ target)

  -- The process after the branch.
  abbrev pub prepared : Text → Environ → Construction → Construction
  prepared target environ c =
      let default = default_emconfig target environ c.env in
      let env = base_env environ c.env in
      let dir = or_default default (Maps.lookup (codes "EMCONFIG_PATH") env) in
      record c {
        env = set_missing (codes "EMCONFIG_PATH") default env;
        commands = c.commands ++ emconfig_command target dir ∷ [];
      }

  prepare_emulation-prepared :
      (target : Text) (environ : Environ) (c : Construction)
      → get_environ host.shell c.env c ≡ (ok environ, c)
      → host.mkdir (emulation_dir environ c.env) ≡ none
      → prepare_emulation host target c ≡ (ok tt, prepared target environ c)
  unfolding prepare_emulation
  prepare_emulation-prepared target environ c e made =
      let c2 : Construction = record c {
        env = set_missing (codes "USER") (uid host) (set_variables environ c.env);
      } in
      rw (e, make_directory_lem (emulation_dir environ c.env) c2 made)

  prepare_emulation-steps :
      (target key : Text) (environ : Environ) (c : Construction)
      → get_environ host.shell c.env c ≡ (ok environ, c)
      → host.mkdir (emulation_dir environ c.env) ≡ none
      → let (r, c') = prepare_emulation host target c in
        (r ≡ ok tt)
        × (Maps.lookup key c'.env
            ≡ or_else
                (Maps.lookup key (set_variables environ c.env))
                (default_value target (emulation_dir environ c.env) key))
        × ((dir : Text) × (Maps.lookup (codes "EMCONFIG_PATH") c'.env ≡ some dir)
            × (c'.commands ≡ c.commands ++ emconfig_command target dir ∷ []))
  prepare_emulation-steps target key environ c e made =
      let default = default_emconfig target environ c.env in
      rw (prepare_emulation-prepared target environ c e made) (
        refl,
        rw
            (
              lookup-set_missing (codes "EMCONFIG_PATH") default key (base_env environ c.env),
              lookup-set_missing (codes "SDACCEL_EM_RUN_DIR") (emulation_dir environ c.env) key
                  (set_missing (codes "USER") (uid host) (set_variables environ c.env)),
              lookup-set_missing (codes "USER") (uid host) key (set_variables environ c.env),
            )
            (unfold default_value in
              or_else-chain _ (key == codes "USER") (key == codes "SDACCEL_EM_RUN_DIR")
                (key == codes "EMCONFIG_PATH") _ _ _),
        (
          or_default default (Maps.lookup (codes "EMCONFIG_PATH") (base_env environ c.env)),
          lookup-set_missing (codes "EMCONFIG_PATH") default (codes "EMCONFIG_PATH") _
              ∙ sym (or_default_lem default _),
          refl,
        ),
      )

  -- What the branch takes for a variable that the tool's or the process' environment has.
  abbrev pub given_value : Environ → Environ → Text → Option Text
  given_value environ env key = or_else (last_value key environ) (Maps.lookup key env)

  -- The directory of the runtime, for these environments.
  abbrev pub runtime_dir : Environ → Environ → Text
  runtime_dir environ env =
      or_default (codes "/tmp") (given_value environ env (codes "TMPDIR"))
      ++ (codes "/.frt." ++ uid host)

  frt_tmpdir_lem : (environ env : Environ) → emulation_dir environ env ≡ runtime_dir environ env
  unfolding frt_tmpdir
  frt_tmpdir_lem environ env =
      rw
        (
          lookup-set_missing (codes "USER") (uid host) (codes "TMPDIR") (set_variables environ env),
          lookup-set_variables (codes "TMPDIR") environ env refl,
          ← or_else-none (given_value environ env (codes "TMPDIR")),
        )
        refl

  -- Where `GetEnviron` returns and the directory of the runtime is there, the branch for an emulation
  -- returns. Each variable with a name then has the last value that the tool's environment gives it,
  -- else the one of the process, else its default: the user's number for USER, the directory of the
  -- runtime for SDACCEL_EM_RUN_DIR, and one in it for the target for EMCONFIG_PATH. That directory
  -- stands below the one that TMPDIR names, else below /tmp. One command was run: it looks for the
  -- target in the configuration in the directory that EMCONFIG_PATH then names, and has
  -- `emconfigutil` make that configuration if the target is not there.
  pub prepare_emulation_lem :
      (target key : Text) (environ : Environ) (c : Construction)
      → get_environ host.shell c.env c ≡ (ok environ, c)
      → host.mkdir (runtime_dir environ c.env) ≡ none
      → is_empty key ≡ false
      → let (r, c') = prepare_emulation host target c in
        (r ≡ ok tt)
        × (Maps.lookup key c'.env
            ≡ or_else
                (given_value environ c.env key)
                (default_value target (runtime_dir environ c.env) key))
        × ((dir : Text) × (Maps.lookup (codes "EMCONFIG_PATH") c'.env ≡ some dir)
            × (c'.commands
                ≡ c.commands
                  ++ (boards_query target dir ++ (codes " || " ++ emconfigutil_call target dir))
                    ∷ []))
  prepare_emulation_lem target key environ c e made named =
      let same = frt_tmpdir_lem environ c.env in
      let (returned, value, (dir, there, ran)) =
        prepare_emulation-steps target key environ c e (rw same made) in
      (
        returned,
        value ∙ rw (lookup-set_variables key environ c.env named, same) refl,
        (dir, there, rw ran (rw (emconfig_command_lem target dir) refl)),
      )
