-- ===== src/CosimDevice/Construction/Removal.antt =====
-- What the destructor of the simulator removes.
use fpga_runtime.Common.{
  ◌≡◌, Bool, ◌||◌, ◌&&◌, none, [], ◌∷◌, ◌++◌, ap, Text, codes, if◌then◌else◌, Bool-cases, inl, inr,
}
use fpga_runtime.Common.Eq.{text_eq, text_Eq, text_eq_iff}
use fpga_runtime.Common.Split.{starts_with, has_prefix, starts_with_lem}
use fpga_runtime.Containers.Maps
use fpga_runtime.Containers.Maps.{Map}
use fpga_runtime.CosimDevice.{CosimDevice}
use fpga_runtime.CosimDevice.Construction.{Places, has_no_flag, remove_all, destroy}

-- The directory, or a path below it.
abbrev pub is_below : Text → Text → Bool
is_below dir path = text_eq path dir || has_prefix (dir ++ codes "/") path

is_below_lem :
    (dir path : Text)
    → (text_eq path dir || starts_with (dir ++ codes "/") path) ≡ is_below dir path
is_below_lem dir path = ap (λ b. text_eq path dir || b) (starts_with_lem (dir ++ codes "/") path)

lookup-remove_all :
    (dir path : Text) (files : Map Text Text)
    → Maps.lookup path (remove_all dir files)
      ≡ (if is_below dir path then none else Maps.lookup path files)
unfolding remove_all Maps.lookup
lookup-remove_all dir path [] = elim (Bool-cases (is_below dir path)) [
  | inl below ↦ rw below
  | inr beside ↦ rw beside
]
lookup-remove_all dir path ((other, content) ∷ files) =
    let rest = lookup-remove_all dir path files in
    elim (Bool-cases (text_eq path other)) [
      | inl same ↦
          let e : path ≡ other = (text_eq_iff path other).0 same in
          let both : is_below dir path ≡ is_below dir other = ap (λ t. is_below dir t) e in
          elim (Bool-cases (is_below dir other)) [
            | inl below ↦ rw (is_below_lem dir other, below, rest, both, below)
            | inr beside ↦ rw (is_below_lem dir other, beside, same, both, beside)
          ]
      | inr differ ↦ elim (Bool-cases (is_below dir other)) [
        | inl below ↦ rw (is_below_lem dir other, below, differ) rest
        | inr beside ↦ rw (is_below_lem dir other, beside, differ) rest
      ]
    ]

-- Without the flag for a work directory the destructor removes the work directory and all files below
-- it, and no other; with the flag it removes none.
pub lookup-destroy :
    (p : Places) (s : CosimDevice) (path : Text)
    → Maps.lookup path (destroy p s).files ≡ (
        if has_no_flag p.xosim_work_dir && is_below s.work_dir path
        then none
        else Maps.lookup path s.files)
unfolding destroy
lookup-destroy p s path = elim (Bool-cases (has_no_flag p.xosim_work_dir)) [
  | inl no_flag ↦ rw no_flag (lookup-remove_all s.work_dir path s.files)
  | inr flag ↦ rw flag
]
