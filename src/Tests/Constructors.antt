-- ===== src/Tests/Constructors.antt =====
-- The theorems on the constructors and on a whole run, on a small machine with a binary for it.
use fpga_runtime.Common.Split.{lines, before_first, after_first, has_prefix}
use fpga_runtime.Common.{
  ◌≡◌, ◌++◌, ℕ, refl, true, false, none, some, List, [], ◌∷◌, length, codes, ◌+◌, nat_eq, Text,
  if◌then◌else◌, arith, ◌||◌,
}
use fpga_runtime.Common.Eq.{text_Eq}
use fpga_runtime.Exec.{ok, err, runtime_error, ◌>>◌}
use fpga_runtime.OpenclUtil.{cl_success}
use fpga_runtime.Opencl
use fpga_runtime.Opencl.{Library, Call, Accepts, get_platforms}
use fpga_runtime.OpenclDevice.Initialize.{initialize}
use fpga_runtime.OpenclDevice.Machine.{
  Machine, Describes, Builds, select, select_device, platform_calls,
}
use fpga_runtime.OpenclDevice.Selection.{opened_or_thrown, initialize_lem}
use fpga_runtime.Containers.Maps
use fpga_runtime.Containers.Maps.{or_else, has_key}
use fpga_runtime.XilinxDevice.Environ.{
  Environ, get_environ, is_empty, xilinx_tool, update_environ, update_xrt, update_lines,
  update_line,
}
use fpga_runtime.XilinxDevice
use fpga_runtime.XilinxDevice.Constructor.{
  Mode, xclbin_flat, xclbin_hw_emu, XmlCore, Xclbin, Host, Construction, emulation_mode, set_mode,
  set_target, prepare_emulation, set_variables, emconfig_command,
}
use fpga_runtime.XilinxDevice.Constructor.Emulation.{
  emulation_of_mode, emulation_of_target, set_mode-set_target,
}
use fpga_runtime.XilinxDevice.Constructor.Emulation.Preparing.{
  default_value, given_value, runtime_dir, boards_query, emconfigutil_call, prepare_emulation_lem,
}
use fpga_runtime.XilinxDevice.Constructor.Hardware.{
  IsHardware, target_of, described_by, initialized, construct-IsHardware,
}
use fpga_runtime.IntelDevice
use fpga_runtime.IntelDevice.Constructor.{ElfReader, SectionHeader}
use fpga_runtime.IntelDevice.Constructor.Sections
use fpga_runtime.IntelDevice.Constructor.Sections.{construct_elf_lem, no_kernel, elf_target}
use fpga_runtime.Tests.{opened, adder, idle}

-- Two platforms, of which the second has two devices.
abbrev pub machine : Machine
machine = record {
  platforms = 1 ∷ 2 ∷ [];
  platform_name = λ p. if nat_eq p 1 then codes "Other" else codes "Xilinx";
  devices = λ p. if nat_eq p 1 then [] else 5 ∷ 6 ∷ [];
  device_name = λ d. if nat_eq d 5 then codes "u250" else codes "u280";
}

abbrev listed_items : Machine → Call → List ℕ
listed_items m Opencl.get_platforms = m.platforms
listed_items m (Opencl.get_platform_name p) = m.platform_name p
listed_items m (Opencl.get_devices p) = m.devices p
listed_items m (Opencl.get_device_name d) = m.device_name d
listed_items m _ = []

-- A library that lists a machine.
abbrev pub listing_of : Machine → Library
listing_of m = record {
  headers = record {
    version_1_1 = true;
    version_1_2 = true;
    version_2_0 = true;
    version_2_2 = false;
  };
  has_xcl_write_only = true;
  has_xcl_read_only = true;
  respond = λ before c. record {
    status = cl_success;
    value = 100 + length before;
    items = listed_items m c;
    statuses = cl_success ∷ [];
  };
}

abbrev pub listing : Library
listing = listing_of machine

pub listing-Accepts : Accepts listing
listing-Accepts = λ before c. refl

pub listing-Builds : Builds listing
listing-Builds = λ before c. (refl, tt)

pub listing-Describes : Describes listing machine
listing-Describes = λ before. (refl, λ p. refl, λ p. refl, λ d. refl)

-- A binary for hardware.
abbrev pub core : XmlCore
core = record { target = codes "bitstream"; kernels = adder ∷ idle ∷ [] }

abbrev pub hardware : Xclbin
hardware = record { mode = xclbin_flat; platform_vbnv = codes "u280"; metadata = some core }

-- A tool that sets one variable.
abbrev pub tool_environ : Environ
tool_environ = (codes "PATH", codes "/bin") ∷ []

abbrev pub host : Host
host = record {
  shell = record {
    source = λ script environ. some (codes "PATH=/bin" ++ 0 ∷ []);
    describe = λ tool env. none;
  };
  euid = 1000;
  mkdir = λ dir. none;
  read_xclbin = λ binary. hardware;
}

abbrev pub process : Construction
process = record { device = opened; env = (codes "XILINX_HLS", codes "/hls") ∷ []; commands = [] }

pub hardware-IsHardware : IsHardware hardware core
unfolding emulation_of_mode emulation_of_target
hardware-IsHardware = record {
  listed = λ e. ground arith;
  mode_plain = refl;
  target_plain = refl;
  found = refl;
}

abbrev pub bitstream : Text
bitstream = codes "xclbin2" ++ 0 ∷ []

pub selected : select (target_of bitstream hardware core) machine machine.platforms ≡ ok 6
unfolding select select_device has_prefix
selected = refl

initialize_example :
    let t = target_of bitstream hardware core in
    initialize listing t opened
    ≡ opened_or_thrown listing core.kernels t.binary
        (select t machine machine.platforms)
        (opened.calls ++ get_platforms ∷ platform_calls t machine machine.platforms)
        opened
initialize_example =
    initialize_lem listing core.kernels machine (target_of bitstream hardware core) listing-Accepts
      listing-Builds listing-Describes refl refl opened

pub no_mode : Maps.lookup emulation_mode process.env ≡ none
unfolding Maps.lookup
no_mode = refl

construct_example :
    XilinxDevice.Constructor.construct listing host bitstream process
    ≡ initialized listing host
        (target_of bitstream hardware core)
        (record process { device = described_by core opened })
construct_example =
    construct-IsHardware listing host bitstream core process hardware-IsHardware no_mode

set_mode_example :
    let (r, c') = (set_mode xclbin_hw_emu >> set_target (codes "csim")) process in
    (r ≡ ok tt)
    × (Maps.lookup emulation_mode c'.env
        ≡ or_else
            (Maps.lookup emulation_mode process.env)
            (or_else (emulation_of_mode xclbin_hw_emu) (emulation_of_target (codes "csim"))))
set_mode_example = set_mode-set_target xclbin_hw_emu (codes "csim") process (λ e. ground arith)

pub got_environ : {S : Type 0} (u : S) → get_environ host.shell process.env u ≡ (ok tool_environ, u)
unfolding get_environ xilinx_tool Maps.lookup update_environ update_xrt update_lines lines
    update_line Maps.assign before_first after_first
got_environ u = refl

prepare_emulation_example :
    let (r, c') = prepare_emulation host (codes "u280") process in
    (r ≡ ok tt)
    × (Maps.lookup (codes "USER") c'.env
        ≡ or_else (given_value host tool_environ process.env (codes "USER")) (
            default_value host
              (codes "u280")
              (runtime_dir host tool_environ process.env)
              (codes "USER")))
    × ((dir : Text) × (Maps.lookup (codes "EMCONFIG_PATH") c'.env ≡ some dir)
        × (c'.commands
            ≡ []
              ++ (boards_query (codes "u280") dir
                  ++ (codes " || " ++ emconfigutil_call (codes "u280") dir))
                ∷ []))
prepare_emulation_example =
    prepare_emulation_lem host (codes "u280") (codes "USER") tool_environ process
      (got_environ process) refl refl

-- An ELF file: the class, a table of names at 5, and the name of a board at 42.
abbrev pub elf_file : Text
elf_file =
    127
    ∷ 69
    ∷ 76
    ∷ 70
    ∷ 1
    ∷ 0
    ∷ (codes ".acl.board" ++ 0 ∷ (codes ".acl.kernel_arg_info.xml" ++ 0 ∷ codes "a10"))

abbrev section_at : ℕ → SectionHeader
section_at i =
    if nat_eq i 0
    then record { name = 1; offset = 42; size = 3 }
    else if nat_eq i 1
    then record { name = 12; offset = 45; size = 0 }
    else record { name = 0; offset = 5; size = 37 }

abbrev pub reader : ElfReader
reader = record {
  shstrndx = λ binary. 2;
  shnum = λ binary. 3;
  section = λ binary i. section_at i;
  parse_board = λ document. adder ∷ idle ∷ [];
}

abbrev intel_process : IntelDevice.Constructor.Construction
intel_process = record { device = opened; env = [] }

construct_elf_example :
    let (r, c') = IntelDevice.Constructor.construct listing reader elf_file intel_process in
    let ks = Sections.file_kernels listing reader elf_file in
    let device = Sections.described_by listing reader elf_file opened in
    let (started, after) = initialize listing (elf_target listing reader elf_file) device in
    let lacks = no_kernel ks || is_empty (Sections.file_board listing reader elf_file) in
    (r ≡ (if lacks then err (runtime_error (codes "unexpected ELF file")) else started))
    × (c'.device ≡ (if lacks then device else after))
construct_elf_example = construct_elf_lem listing reader elf_file intel_process refl refl
