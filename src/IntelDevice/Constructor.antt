-- ===== src/IntelDevice/Constructor.antt =====
-- The constructor of `IntelOpenclDevice` in src/frt/intel_opencl_device.cpp. The structures of elf.h
-- and what TinyXML reads are parameters; a string that no NUL ends is read to the end of the binary.
pub mod Sections
pub mod Frames
use fpga_runtime.Common.{
  ℕ, zero, suc, Bool, true, false, ◌||◌, Option, none, some, List, [], ◌∷◌, Text, codes, take, drop,
  get_elem?, nat_eq, if◌then◌else◌,
}
use fpga_runtime.Common.Eq.{text_eq, text_Eq}
use fpga_runtime.Common.Split.{before_first}
use fpga_runtime.Containers.Maps
use fpga_runtime.Exec.{Exec, runtime_error, undefined, pure, raise, modify, require, ◌>>=◌, ◌>>◌}
use fpga_runtime.Opencl.{Library}
use fpga_runtime.Metadata.{XmlKernel, Scan, start, read_kernels, intel_cat}
use fpga_runtime.OpenclDevice.{OpenclDevice}
use fpga_runtime.OpenclDevice.Initialize.{Target, initialize}
use fpga_runtime.XilinxDevice.Environ.{Environ, is_empty}

-- `sh_name`, `sh_offset` and `sh_size`
pub record SectionHeader : Type 0 where
  pub name : ℕ
  pub offset : ℕ
  pub size : ℕ

-- `e_shstrndx`, `e_shnum` and the entries of the section header table, and the children `kernel` of
-- the root `board` of a document.
pub record ElfReader : Type 0 where
  pub shstrndx : Text → ℕ
  pub shnum : Text → ℕ
  pub section : Text → ℕ → SectionHeader
  pub parse_board : Text → List XmlKernel

-- The object that is constructed, and the environment of the process.
pub record Construction : Type 0 where
  pub device : OpenclDevice
  pub env : Environ

abbrev pub Step : Type 0
Step = Exec Construction (Unit {0})

-- What the loop has found.
pub record Contents : Type 0 where
  pub scan : Scan
  pub target_device_name : Text
  pub env : Environ

-- `std::string` of a pointer into the binary.
abbrev pub c_string : ℕ → Text → Text
c_string offset binary = before_first 0 (drop offset binary)

abbrev pub kernel_section : Text
kernel_section = codes ".acl.kernel_arg_info.xml"

abbrev pub board_section : Text
board_section = codes ".acl.board"

-- The variables that a board's name asks for.
unfoldable pub set_board_variables : Text → Environ → Environ
set_board_variables board env =
    let with_emulator =
      if text_eq board (codes "EmulatorDevice")
      then Maps.insert (codes "CL_CONTEXT_EMULATOR_DEVICE_INTELFPGA") (codes "1") env
      else env in
    if text_eq board (codes "SimulatorDevice")
    then Maps.insert (codes "CL_CONTEXT_MPSIM_DEVICE_INTELFPGA") (codes "1") with_emulator
    else with_emulator

module _ (reader : ElfReader) (binary : Text) where
  -- `elf_str_table + section_header->sh_name`, where there is a table
  abbrev pub section_name : SectionHeader → Text
  section_name header =
      let table = reader.section binary (reader.shstrndx binary) in
      c_string header.name (drop table.offset binary)

  abbrev pub section_kernels : SectionHeader → List XmlKernel
  section_kernels header = reader.parse_board (c_string header.offset binary)

  abbrev pub board_name : SectionHeader → Text
  board_name header = take header.size (drop header.offset binary)

  -- One round of the loop.
  unfoldable pub read_section : SectionHeader → Contents → Contents
  read_section header f =
      if text_eq (section_name header) kernel_section
      then record f { scan = read_kernels intel_cat f.scan (section_kernels header) }
      else if text_eq (section_name header) board_section
      then record f {
        target_device_name = board_name header;
        env = set_board_variables (board_name header) f.env;
      }
      else f

  -- The loop from the section `i` on, of which `n` are left.
  unfoldable pub read_sections : (i n : ℕ) → Contents → Contents
  read_sections i zero f = f
  read_sections i (suc n) f = read_sections (suc i) n (read_section (reader.section binary i) f)

  abbrev pub has_names : Bool
  has_names = if nat_eq (reader.shstrndx binary) 0 then false else true

-- `kernel_names.empty()`
abbrev pub has_none : List Text → Bool
has_none [] = true
has_none (name ∷ rest) = false

module _ (lib : Library) (reader : ElfReader) where
  abbrev pub initialize_device : Target → Step
  initialize_device t c =
      let (r, device) = initialize lib t c.device in (r, record c { device = device })

  -- From the test on what the loop has found on.
  unfoldable pub construct_found : Text → Contents → Step
  construct_found binary f = do
    modify
        (λ c. record c { device = record (c.device) { arg_table = f.scan.arg_table }; env = f.env })
    if has_none f.scan.kernel_names || is_empty f.target_device_name
        then raise (runtime_error (codes "unexpected ELF file"))
        else initialize_device (record {
          binary = binary;
          vendor_name = codes "Intel(R) FPGA SDK for OpenCL(TM)";
          device_name = f.target_device_name;
          kernel_names = f.scan.kernel_names;
          kernel_arg_counts = f.scan.kernel_arg_counts;
        })

  -- A section whose name is read from a null pointer is undefined.
  unfoldable pub construct_elf32 : Text → Step
  construct_elf32 binary c =
      let found =
        read_sections reader binary 0 (reader.shnum binary)
          (record { scan = start; target_device_name = []; env = c.env }) in
      (if has_names reader binary || nat_eq (reader.shnum binary) 0
          then construct_found binary found
          else raise undefined)
        c

  -- The constructor, by `EI_CLASS`.
  unfoldable pub construct_class : ℕ → Text → Step
  construct_class elf_class binary =
      if nat_eq elf_class 1
      then construct_elf32 binary
      else if nat_eq elf_class 2
      then raise (runtime_error (codes "fast emulator not supported"))
      else raise (runtime_error (codes "unexpected ELF file"))

  unfoldable pub construct : Text → Step
  construct binary = do
    elf_class ← require undefined (get_elem? binary 4)
    construct_class elf_class binary
