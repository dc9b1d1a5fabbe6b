-- ===== src/XilinxDevice/Constructor/Emulation.antt =====
-- The environment variables of the constructor.
pub mod Preparing
use mathlib.Core.List.{append_assoc}
use fpga_runtime.XilinxDevice.Environ.Laws.{last_value}
use fpga_runtime.Common.{
  sym, ◌∙◌, ◌≡◌, ◌≢◌, refl, Bool, true, false, Option, none, some, Bool-cases, inl, inr, [], ◌∷◌,
  ◌++◌, Text, codes, if◌then◌else◌, arith,
}
use fpga_runtime.Common.Eq.{text_Eq, ◌==◌}
use fpga_runtime.Containers.Maps
use fpga_runtime.Containers.Maps.{or_else, lookup-insert, lookup-assign}
use fpga_runtime.Exec.{ok, ◌>>◌}
use fpga_runtime.XilinxDevice.Environ.{Environ, get_environ, is_empty}
use fpga_runtime.XilinxDevice.Constructor.{
  Mode, xclbin_hw_emu, xclbin_sw_emu, unlisted, Host, Construction, Step, set_missing,
  set_variables, emulation_mode, set_mode, set_target, uid, frt_tmpdir, make_directory,
  prepare_emulation, emconfig_command, or_default, set_variable,
}

-- The emulation that a mode asks for, and that a target asks for.
unfoldable pub emulation_of_mode : Mode → Option Text
emulation_of_mode xclbin_hw_emu = some (codes "hw_emu")
emulation_of_mode xclbin_sw_emu = some (codes "sw_emu")
emulation_of_mode _ = none

unfoldable pub emulation_of_target : Text → Option Text
emulation_of_target target =
    if target == codes "hw_em"
    then some (codes "hw_emu")
    else if target == codes "csim"
    then some (codes "sw_emu")
    else none

pub or_else-none : {A : Type 0} (o : Option A) → o ≡ or_else o none
or_else-none none = refl
or_else-none (some a) = refl

pub or_else_assoc :
    {A : Type 0} (a b c : Option A) → or_else (or_else a b) c ≡ or_else a (or_else b c)
or_else_assoc none b c = refl
or_else_assoc (some a) b c = refl

pub or_else-chain :
    {A : Type 0} (o : Option A) (a b d : Bool) (x y z : A)
    → or_else
        (or_else (or_else o (if a then some x else none)) (if b then some y else none))
        (if d then some z else none)
      ≡ or_else o (if a then some x else if b then some y else if d then some z else none)
or_else-chain (some v) a b d x y z = refl
or_else-chain none true b d x y z = refl
or_else-chain none false true d x y z = refl
or_else-chain none false false d x y z = refl

pub lookup-set_missing :
    (name value key : Text) (env : Environ)
    → Maps.lookup key (set_missing name value env)
      ≡ or_else (Maps.lookup key env) (if key == name then some value else none)
unfolding set_missing
lookup-set_missing name value key env = lookup-insert name key value env

-- A step that returns and leaves the variable at a value.
abbrev pub Leaves : Option Text → Step → Construction → Type 0
Leaves value step c =
    let (r, c') = step c in (r ≡ ok tt) × (Maps.lookup emulation_mode c'.env ≡ value)

set_emulation-Leaves :
    (mode : Text) (env : Environ)
    → Maps.lookup emulation_mode (set_missing emulation_mode mode env)
      ≡ or_else (Maps.lookup emulation_mode env) (some mode)
set_emulation-Leaves mode env = lookup-set_missing emulation_mode mode emulation_mode env

set_mode-Leaves :
    (mode : Mode) (c : Construction)
    → mode ≢ unlisted
    → Leaves (or_else (Maps.lookup emulation_mode c.env) (emulation_of_mode mode)) (set_mode mode) c
unfolding set_mode emulation_of_mode
set_mode-Leaves xclbin_hw_emu c h = (refl, set_emulation-Leaves _ c.env)
set_mode-Leaves xclbin_sw_emu c h = (refl, set_emulation-Leaves _ c.env)
set_mode-Leaves unlisted c h = absurd (h refl)
set_mode-Leaves _ c h = (refl, or_else-none _)

set_target-Leaves :
    (target : Text) (c : Construction)
    → Leaves
        (or_else (Maps.lookup emulation_mode c.env) (emulation_of_target target))
        (set_target target)
        c
unfolding set_target emulation_of_target
set_target-Leaves target c = elim (Bool-cases (target == codes "hw_em")) [
  | inl e ↦ rw e (refl, set_emulation-Leaves _ c.env)
  | inr e ↦ rw e (elim (Bool-cases (target == codes "csim")) [
    | inl f ↦ rw f (refl, set_emulation-Leaves _ c.env)
    | inr f ↦ rw f (refl, or_else-none _)
  ])
]

-- For any mode that is listed, after the two places that set it, XCL_EMULATION_MODE has the value that
-- the process had, else the one for the mode of the binary, else the one for the target of the
-- metadata, and else none.
pub set_mode-set_target :
    (mode : Mode) (target : Text) (c : Construction)
    → mode ≢ unlisted
    → let (r, c') = (set_mode mode >> set_target target) c in
      (r ≡ ok tt)
      × (Maps.lookup emulation_mode c'.env
          ≡ or_else
              (Maps.lookup emulation_mode c.env)
              (or_else (emulation_of_mode mode) (emulation_of_target target)))
set_mode-set_target mode target c h =
    let (r1, e1) = set_mode-Leaves mode c h in
    let (r2, e2) = set_target-Leaves target (set_mode mode c).1 in
    rw r1 (r2, rw (e2, e1) (or_else_assoc _ (emulation_of_mode mode) (emulation_of_target target)))
