-- ===== src/IntelDevice/Constructor/Frames.antt =====
-- The constructor of an Intel device leaves the indices to load and to store alone.
use fpga_runtime.Common.{ℕ, refl, ◌||◌, Bool-cases, inl, inr, List, Text, nat_eq, get_elem?}
use fpga_runtime.Common.Int.{ℤ}
use fpga_runtime.Exec.{Exec, require}
use fpga_runtime.Exec.Frames
use fpga_runtime.Exec.Frames.{bind-Keeps, require-Keeps}
use fpga_runtime.Opencl.{Library}
use fpga_runtime.OpenclDevice.Frames.{marks}
use fpga_runtime.OpenclDevice.Initialize.{Target}
use fpga_runtime.OpenclDevice.Opening.{initialize-Keeps}
use fpga_runtime.XilinxDevice.Environ.{is_empty}
use fpga_runtime.IntelDevice.Constructor.{
  Construction, ElfReader, Contents, has_none, has_names, initialize_device, construct_found,
  construct_elf32, construct_class, construct,
}

-- The indices of the device that is constructed.
abbrev pub device_marks : Construction → List ℤ × List ℤ
device_marks c = marks c.device

abbrev Keeps : {A : Type 0} → Exec Construction A → Type 0
Keeps m = Frames.Keeps device_marks m

module _ (lib : Library) (reader : ElfReader) where
  initialize_device-Keeps : (t : Target) → Keeps (initialize_device lib reader t)
  initialize_device-Keeps t c = initialize-Keeps lib t c.device

  construct_found-Keeps :
      (binary : Text) (f : Contents) → Keeps (construct_found lib reader binary f)
  unfolding construct_found
  construct_found-Keeps binary f c =
      elim (Bool-cases (has_none f.scan.kernel_names || is_empty f.target_device_name)) [
        | inl e ↦ rw e refl
        | inr e ↦ rw e (
            initialize_device-Keeps _ (record c {
              device = record (c.device) { arg_table = f.scan.arg_table };
              env = f.env;
            }))
      ]

  construct_elf32-Keeps : (binary : Text) → Keeps (construct_elf32 lib reader binary)
  unfolding construct_elf32
  construct_elf32-Keeps binary c =
      elim (Bool-cases (has_names reader binary || nat_eq (reader.shnum binary) 0)) [
        | inl e ↦ rw e (construct_found-Keeps binary _ c)
        | inr e ↦ rw e refl
      ]

  construct_class-Keeps :
      (elf_class : ℕ) (binary : Text) → Keeps (construct_class lib reader elf_class binary)
  unfolding construct_class
  construct_class-Keeps elf_class binary c = elim (Bool-cases (nat_eq elf_class 1)) [
    | inl e ↦ rw e (construct_elf32-Keeps binary c)
    | inr e ↦
        rw e (elim (Bool-cases (nat_eq elf_class 2)) [ inl f ↦ rw f refl | inr f ↦ rw f refl ])
  ]

  pub construct-Keeps : (binary : Text) → Keeps (construct lib reader binary)
  unfolding construct
  construct-Keeps binary =
      bind-Keeps device_marks (require _ (get_elem? binary 4)) _ (require-Keeps device_marks _ _)
        (λ elf_class. construct_class-Keeps elf_class binary)
