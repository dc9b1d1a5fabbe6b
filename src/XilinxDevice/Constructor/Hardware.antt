-- ===== src/XilinxDevice/Constructor/Hardware.antt =====
-- The constructor on a binary for hardware: it goes on to `Initialize` with nothing else done.
use fpga_runtime.Common.{◌≡◌, ◌≢◌, refl, none, some, Bool-cases, inl, inr, Text, codes, arith, map}
use fpga_runtime.Common.Eq.{text_Eq, text_eq}
use fpga_runtime.Containers.Maps
use fpga_runtime.Exec.{ok, Result}
use fpga_runtime.Opencl.{Library}
use fpga_runtime.Metadata.{xilinx_cat}
use fpga_runtime.Metadata.Numbering.{number, arg_infos, kernel_args, prefix_sums, read_kernels_lem}
use fpga_runtime.OpenclDevice.{OpenclDevice}
use fpga_runtime.OpenclDevice.Initialize.{Target, initialize}
use fpga_runtime.XilinxDevice.Constructor.{
  Mode, unlisted, XmlCore, Xclbin, Host, Construction, emulation_mode, set_mode, set_target,
  prepare, construct, construct_core,
}
use fpga_runtime.XilinxDevice.Constructor.Emulation.{emulation_of_mode, emulation_of_target}

-- A binary with metadata, in a mode and with a target that ask for no emulation.
pub record IsHardware (x : Xclbin) (core : XmlCore) : Type 0 where
  pub listed : x.mode ≢ unlisted
  pub mode_plain : emulation_of_mode x.mode ≡ none
  pub target_plain : emulation_of_target core.target ≡ none
  pub found : x.metadata ≡ some core

-- The arguments of `Initialize` for a binary.
abbrev pub target_of : Text → Xclbin → XmlCore → Target
target_of binary x core = record {
  binary = binary;
  vendor_name = codes "Xilinx";
  device_name = x.platform_vbnv;
  kernel_names = map (λ k. k.name) core.kernels;
  kernel_arg_counts = prefix_sums 0 core.kernels;
}

-- The object with the arguments of the metadata.
abbrev pub described_by : XmlCore → OpenclDevice → OpenclDevice
described_by core s = record s {
  arg_table = number 0 (arg_infos xilinx_cat 0 (kernel_args core.kernels));
}

some-ne-none : {A : Type 0} {a : A} → some a ≢ none
some-ne-none = λ e. ground arith

set_mode-plain :
    (mode : Mode) (c : Construction)
    → mode ≢ unlisted
    → emulation_of_mode mode ≡ none
    → set_mode mode c ≡ (ok tt, c)
unfolding set_mode emulation_of_mode
set_mode-plain Mode.xclbin_hw_emu c l h = ground arith
set_mode-plain Mode.xclbin_sw_emu c l h = ground arith
set_mode-plain unlisted c l h = absurd (l refl)
set_mode-plain _ c l h = refl

set_target-plain :
    (target : Text) (c : Construction)
    → emulation_of_target target ≡ none
    → set_target target c ≡ (ok tt, c)
unfolding set_target emulation_of_target
set_target-plain target c h = elim (Bool-cases (text_eq target (codes "hw_em"))) [
  | inl e ↦ absurd (some-ne-none (rw e at h))
  | inr e ↦ rw e (elim (Bool-cases (text_eq target (codes "csim"))) [
    | inl f ↦ absurd (some-ne-none (rw (e, f) at h))
    | inr f ↦ rw f
  ])
]

module _ (lib : Library) (host : Host) where
  -- The result of `Initialize` on the object of a construction.
  abbrev pub initialized : Target → Construction → Result (Unit {0}) × Construction
  initialized t c = let (r, device) = initialize lib t c.device in (r, record c { device = device })

  -- On a binary for hardware, in an environment without XCL_EMULATION_MODE, the constructor takes the
  -- arguments from the metadata and calls `Initialize` for the vendor Xilinx and the platform of the
  -- binary with the kernels of the metadata; it changes no variable and runs no command.
  pub construct-IsHardware :
      (binary : Text) (core : XmlCore) (c : Construction)
      → IsHardware (host.read_xclbin binary) core
      → Maps.lookup emulation_mode c.env ≡ none
      → construct lib host binary c
        ≡ initialized
            (target_of binary (host.read_xclbin binary) core)
            (record c { device = described_by core c.device })
  unfolding construct construct_core prepare
  construct-IsHardware binary core c h unset =
      let x = host.read_xclbin binary in
      let c1 : Construction = record c { device = described_by core c.device } in
      rw (
        set_mode-plain x.mode c h.listed h.mode_plain,
        h.found,
        read_kernels_lem xilinx_cat core.kernels,
        set_target-plain core.target c1 h.target_plain,
        unset,
      )
