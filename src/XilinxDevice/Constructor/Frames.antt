-- ===== src/XilinxDevice/Constructor/Frames.antt =====
-- The constructor of a Xilinx device leaves the indices to load and to store alone.
use fpga_runtime.Common.{refl, Bool-cases, inl, inr, List, Option, none, some, Text, codes}
use fpga_runtime.Common.Eq.{text_eq}
use fpga_runtime.Common.Int.{ℤ}
use fpga_runtime.Exec.{Exec, require}
use fpga_runtime.Exec.Frames
use fpga_runtime.Exec.Frames.{bind-Keeps, require-Keeps}
use fpga_runtime.Opencl.{Library}
use fpga_runtime.OpenclDevice.Frames.{marks}
use fpga_runtime.OpenclDevice.Initialize.{Target}
use fpga_runtime.OpenclDevice.Opening.{initialize-Keeps}
use fpga_runtime.XilinxDevice.Environ.{get_environ}
use fpga_runtime.XilinxDevice.Environ.Frames.{get_environ-Keeps}
use fpga_runtime.XilinxDevice.Constructor.{
  Mode, unlisted, Construction, Host, Xclbin, XmlCore, set_mode, set_target, directory_made,
  make_directory, prepare_emulation, prepare, initialize_device, construct_core, construct,
}

-- The indices of the device that is constructed.
abbrev pub device_marks : Construction → List ℤ × List ℤ
device_marks c = marks c.device

abbrev Keeps : {A : Type 0} → Exec Construction A → Type 0
Keeps m = Frames.Keeps device_marks m

set_mode-Keeps : (mode : Mode) → Keeps (set_mode mode)
unfolding set_mode
set_mode-Keeps unlisted c = refl
set_mode-Keeps _ c = refl

set_target-Keeps : (target : Text) → Keeps (set_target target)
unfolding set_target
set_target-Keeps target c = elim (Bool-cases (text_eq target (codes "hw_em"))) [
  | inl e ↦ rw e refl
  | inr e ↦
      rw e (elim (Bool-cases (text_eq target (codes "csim"))) [
        | inl f ↦ rw f refl
        | inr f ↦ rw f refl
      ])
]

directory_made-Keeps : (dir : Text) (error : Option Text) → Keeps (directory_made dir error)
directory_made-Keeps dir none c = refl
directory_made-Keeps dir (some error) c = refl

module _ (host : Host) where
  make_directory-Keeps : (dir : Text) → Keeps (make_directory host dir)
  unfolding make_directory
  make_directory-Keeps dir = directory_made-Keeps dir (host.mkdir dir)

  prepare-Keeps : (target : Text) (mode : Option Text) → Keeps (prepare host target mode)
  unfolding prepare prepare_emulation
  prepare-Keeps target none c = refl
  prepare-Keeps target (some mode) c =
      bind-Keeps device_marks (get_environ host.shell c.env) _
        (get_environ-Keeps device_marks host.shell c.env)
        (λ environ d.
          bind-Keeps device_marks (make_directory host _) _ (make_directory-Keeps _) (λ _ e. refl)
            _)
        c

  module _ (lib : Library) where
    initialize_device-Keeps : (t : Target) → Keeps (initialize_device lib host t)
    initialize_device-Keeps t c = initialize-Keeps lib t c.device

    construct_core-Keeps :
        (binary : Text) (x : Xclbin) (core : XmlCore)
        → Keeps (construct_core lib host binary x core)
    unfolding construct_core
    construct_core-Keeps binary x core c =
        bind-Keeps device_marks (set_target core.target) _ (set_target-Keeps core.target)
          (λ _ d.
            bind-Keeps device_marks (prepare host x.platform_vbnv _) _
              (prepare-Keeps x.platform_vbnv _) (λ _. initialize_device-Keeps _) d)
          _

    pub construct-Keeps : (binary : Text) → Keeps (construct lib host binary)
    unfolding construct
    construct-Keeps binary =
        bind-Keeps device_marks (set_mode (host.read_xclbin binary).mode) _ (set_mode-Keeps _) (λ _.
          bind-Keeps device_marks (require _ (host.read_xclbin binary).metadata) _
            (require-Keeps device_marks _ _)
            (λ core. construct_core-Keeps binary (host.read_xclbin binary) core))
