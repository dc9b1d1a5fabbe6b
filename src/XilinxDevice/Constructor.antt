-- ===== src/XilinxDevice/Constructor.antt =====
-- The constructor of `XilinxOpenclDevice` in src/frt/xilinx_opencl_device.cpp. What xclbin.h and
-- TinyXML read from a binary is a parameter, as are the shell, `mkdir` and the user; a command of
-- `system` is logged, since its failure is only a warning.
pub mod Emulation
pub mod Frames
pub mod Hardware
use fpga_runtime.Common.{
  ℕ, Bool, true, false, Option, none, some, List, [], ◌∷◌, ◌++◌, Text, codes, if◌then◌else◌,
}
use fpga_runtime.Common.Eq.{text_eq, text_Eq}
use fpga_runtime.Common.Int.{pos}
use fpga_runtime.Common.Decimal.{to_string}
use fpga_runtime.Containers.Maps
use fpga_runtime.Exec.{
  Exec, Result, ok, err, fatal, pure, raise, gets, modify, require, ◌>>=◌, ◌>>◌,
}
use fpga_runtime.Opencl.{Library}
use fpga_runtime.Metadata.{XmlKernel, read_kernels, start, xilinx_cat}
use fpga_runtime.OpenclDevice.{OpenclDevice}
use fpga_runtime.OpenclDevice.Initialize.{Target, initialize}
use fpga_runtime.XilinxDevice.Environ.{Environ, Shell, get_environ, is_empty}

-- `m_mode` of the header; `unlisted` is any other value.
pub data Mode : Type 0 where
  xclbin_flat xclbin_pr xclbin_tandem_stage2 xclbin_tandem_stage2_with_pr : Mode
  xclbin_hw_emu xclbin_sw_emu unlisted : Mode

-- The element `core` of the embedded metadata.
pub record XmlCore : Type 0 where
  pub target : Text
  pub kernels : List XmlKernel

-- What the constructor reads of a binary; `metadata` is `none` where the section is missing.
pub record Xclbin : Type 0 where
  pub mode : Mode
  pub platform_vbnv : Text
  pub metadata : Option XmlCore

-- `mkdir` gives the text of its error, or `none` where the directory is there.
pub record Host : Type 0 where
  pub shell : Shell
  pub euid : ℕ
  pub mkdir : Text → Option Text
  pub read_xclbin : Text → Xclbin

-- The object that is constructed, and the process around it.
pub record Construction : Type 0 where
  pub device : OpenclDevice
  pub env : Environ
  pub commands : List Text

abbrev pub Step : Type 0
Step = Exec Construction (Unit {0})

-- `setenv(name, value, 0)` and `setenv(name, value, 1)`; the second fails on an empty name.
unfoldable pub set_missing : Text → Text → Environ → Environ
set_missing name value env = Maps.insert name value env

unfoldable pub set_variable : Text → Text → Environ → Environ
set_variable name value env = if is_empty name then env else Maps.assign name value env

-- The loop over `GetEnviron()`.
unfoldable pub set_variables : Environ → Environ → Environ
set_variables [] env = env
set_variables ((name, value) ∷ rest) env = set_variables rest (set_variable name value env)

abbrev pub emulation_mode : Text
emulation_mode = codes "XCL_EMULATION_MODE"

abbrev pub set_emulation : Text → Step
set_emulation mode = modify (λ c. record c { env = set_missing emulation_mode mode c.env })

-- The `switch` over the mode.
unfoldable pub set_mode : Mode → Step
unfolding set_missing
set_mode xclbin_hw_emu = set_emulation (codes "hw_emu")
set_mode xclbin_sw_emu = set_emulation (codes "sw_emu")
set_mode unlisted = raise (fatal (codes "unknown xclbin mode"))
set_mode _ = pure tt

-- The tests on the target of the metadata.
unfoldable pub set_target : Text → Step
unfolding set_missing
set_target target =
    if text_eq target (codes "hw_em")
    then set_emulation (codes "hw_emu")
    else if text_eq target (codes "csim")
    then set_emulation (codes "sw_emu")
    else pure tt

abbrev pub or_default : Text → Option Text → Text
or_default default none = default
or_default default (some value) = value

unfoldable pub emconfig_command : Text → Text → Text
emconfig_command target dir =
    codes "jq --exit-status '.Platform.Boards[]|select(.Devices[]|select(.Name==\""
    ++ (target
        ++ (codes "\"))' "
            ++ (dir
                ++ (codes "/emconfig.json >/dev/null 2>&1 || emconfigutil --platform "
                    ++ (target ++ (codes " --od " ++ dir))))))

-- What follows `mkdir`.
abbrev pub directory_made : Text → Option Text → Step
directory_made dir none = pure tt
directory_made dir (some error) =
    raise (fatal (codes "cannot create FRT tmpdir '" ++ (dir ++ (codes "': " ++ error))))

module _ (host : Host) where
  abbrev pub uid : Text
  uid = to_string (pos host.euid)

  -- The directory of the runtime, below that of `TMPDIR`.
  unfoldable pub frt_tmpdir : Environ → Text
  frt_tmpdir env =
      or_default (codes "/tmp") (Maps.lookup (codes "TMPDIR") env) ++ (codes "/.frt." ++ uid)

  unfoldable pub make_directory : Text → Step
  make_directory dir = directory_made dir (host.mkdir dir)

  -- The branch for an emulation, for a target.
  unfoldable pub prepare_emulation : Text → Step
  unfolding set_missing
  prepare_emulation target = do
    env ← gets (λ c. c.env)
    environ ← get_environ host.shell env
    modify (λ c. record c { env = set_variables environ c.env })
    modify (λ c. record c { env = set_missing (codes "USER") uid c.env })
    tmpdir ← gets (λ c. frt_tmpdir c.env)
    make_directory tmpdir
    modify (λ c. record c { env = set_missing (codes "SDACCEL_EM_RUN_DIR") tmpdir c.env })
    found ← gets (λ c. Maps.lookup (codes "EMCONFIG_PATH") c.env)
    modify (λ c. record c {
      env = set_missing (codes "EMCONFIG_PATH") (tmpdir ++ (codes "/emconfig." ++ target)) c.env;
    })
    modify (λ c. record c {
      commands =
          c.commands
          ++ emconfig_command target (or_default (tmpdir ++ (codes "/emconfig." ++ target)) found)
            ∷ [];
    })

  unfoldable pub prepare : Text → Option Text → Step
  prepare target none = pure tt
  prepare target (some mode) = prepare_emulation target

module _ (lib : Library) (host : Host) where
  -- `Initialize` on the object.
  abbrev pub initialize_device : Target → Step
  initialize_device t c =
      let (r, device) = initialize lib t c.device in (r, record c { device = device })

  unfoldable pub construct_core : Text → Xclbin → XmlCore → Step
  construct_core binary x core = do
    modify (λ c. record c {
      device = record (c.device) {
        arg_table = (read_kernels xilinx_cat start core.kernels).arg_table;
      };
    })
    set_target core.target
    mode ← gets (λ c. Maps.lookup emulation_mode c.env)
    prepare host x.platform_vbnv mode
    initialize_device (record {
      binary = binary;
      vendor_name = codes "Xilinx";
      device_name = x.platform_vbnv;
      kernel_names = (read_kernels xilinx_cat start core.kernels).kernel_names;
      kernel_arg_counts = (read_kernels xilinx_cat start core.kernels).kernel_arg_counts;
    })

  -- The constructor.
  unfoldable pub construct : Text → Step
  construct binary = do
    set_mode (host.read_xclbin binary).mode
    core ←
        require (fatal (codes "cannot determine kernel name from binary"))
          (host.read_xclbin binary).metadata
    construct_core binary (host.read_xclbin binary) core
