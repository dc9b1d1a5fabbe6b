-- ===== src/Instance/Program/Objects.antt =====
-- The object that the function `Invoke` of src/frt.h returns on the binaries of the two OpenCL devices.
use fpga_runtime.Metadata.{XmlKernel}
use mathlib.Core.Path.{subst}
use fpga_runtime.Common.{
  ℕ, ◌≤◌, ◌≡◌, refl, some, none, true, false, ◌||◌, List, [], length, Text, arith, get_elem?,
  nat_eq, ◌∷◌,
}
use fpga_runtime.Common.Eq.{text_Eq}
use fpga_runtime.Containers.Maps
use fpga_runtime.Containers.Ordered.{assign_all}
use fpga_runtime.Exec.{Result, ok}
use fpga_runtime.Opencl.{Accepts, get_platforms, Library}
use fpga_runtime.Metadata.Numbering.{kernel_args}
use fpga_runtime.OpenclDevice.{OpenclDevice}
use fpga_runtime.OpenclDevice.Initialize.{initialize, Target}
use fpga_runtime.OpenclDevice.Kernels.{starts, total_args, made_kernels, total_args-made_kernels}
use fpga_runtime.OpenclDevice.Machine.{Machine, Describes, Builds, select, platform_calls}
use fpga_runtime.OpenclDevice.Selection.{
  open_program, built_calls, opened_with, opened_or_thrown, initialize_lem,
}
use fpga_runtime.XilinxDevice
use fpga_runtime.XilinxDevice.Environ.{is_empty}
use fpga_runtime.XilinxDevice.Constructor.{XmlCore, emulation_mode}
use fpga_runtime.XilinxDevice.Constructor.Hardware
use fpga_runtime.XilinxDevice.Constructor.Hardware.{IsHardware, target_of, construct-IsHardware}
use fpga_runtime.IntelDevice
use fpga_runtime.IntelDevice.Constructor.Sections
use fpga_runtime.IntelDevice.Constructor.Sections.{
  file_kernels, file_board, elf_target, no_kernel, construct_elf_lem,
}
use fpga_runtime.Instance.{Arg, is_xclbin, is_elf, has_stream}
use fpga_runtime.Instance.Bitstreams.{open_bitstream_lem}
use fpga_runtime.Instance.Object.{
  Runtime, Process, xilinx_object, intel_object, fresh, construct, make, on_device,
}
use fpga_runtime.Instance.Program.{invoke_bitstream}
use fpga_runtime.Containers.Sets.{contains}
use fpga_runtime.OpenclDevice.Validity.{IsValid}
use fpga_runtime.Common.Eq.{int_Eq}
use fpga_runtime.Instance.Returning.{AllTyped}
use fpga_runtime.Instance.Tracing.Invoking.{returned, invoked, invoke-invoked}
use fpga_runtime.Instance.Tracing.Intel.{IsBacked}
use fpga_runtime.Instance.Tracing.Intel.Invoking.{invoked_intel, invoke-invoked_intel}

pub fresh-IsValid : IsValid fresh
unfolding contains Maps.has_key
fresh-IsValid = record {
  load = record { distinct = tt; backed = λ i h. ground arith };
  store = record { distinct = tt; backed = λ i h. ground arith };
}

-- The object after `Initialize` has opened the device `d` of a machine, and its kernels with the numbers
-- of their arguments.
module _ (lib : Library) (m : Machine) (t : Target) (ks : List XmlKernel) (d : ℕ) where
  abbrev pub found_object : OpenclDevice → OpenclDevice
  found_object s = opened_with lib ks t.binary d (get_platforms ∷ platform_calls t m m.platforms) s

  abbrev pub found_kernels : List (ℕ × ℕ)
  found_kernels =
      let asked = get_platforms ∷ platform_calls t m m.platforms in
      made_kernels lib (built_calls lib ks t.binary d asked) (open_program lib ks t.binary d asked)
        ks

pub total_args-found :
    (lib : Library) (m : Machine) (t : Target) (ks : List XmlKernel) (d : ℕ)
    → total_args (found_kernels lib m t ks d) ≡ length (kernel_args ks)
total_args-found lib m t ks d = total_args-made_kernels lib _ _ ks

-- The end of a run, where `Initialize` succeeds.
invoke_opened :
    (r : Runtime) (path binary : Text) (core : XmlCore) (p : Process) (args : List Arg)
    (made : List (ℕ × ℕ)) (o : OpenclDevice)
    → Accepts r.lib
    → is_xclbin binary ≡ true
    → IsHardware (r.host.read_xclbin binary) core
    → Maps.lookup emulation_mode p.env ≡ none
    → initialize r.lib
        (target_of binary (r.host.read_xclbin binary) core)
        (Hardware.described_by core fresh)
      ≡ (ok tt, o)
    → IsValid o
    → o.kernels ≡ assign_all (starts 0 made) []
    → length args ≤ total_args made
    → AllTyped args
    → (invoke_bitstream r path binary args p).0
      ≡ ok (xilinx_object (invoked r.lib made args o), returned r.lib made args o)
unfolding invoke_bitstream construct make on_device
invoke_opened r path binary core p args made o a magic hw unset e v table n typed =
    let c : XilinxDevice.Constructor.Construction = record {
      device = fresh;
      env = p.env;
      commands = p.commands;
    } in
    rw
      (
        (open_bitstream_lem binary).0.1 magic,
        construct-IsHardware r.lib r.host binary core c hw unset,
        e,
        invoke-invoked r.lib made args o a v table n typed,
      )
      refl

-- What `invoke_bitstream` returns.
pub invoke_bitstream-invoked :
    (r : Runtime) (m : Machine) (path binary : Text) (core : XmlCore) (p : Process) (d : ℕ)
    (args : List Arg)
    → Accepts r.lib
    → Builds r.lib
    → Describes r.lib m
    → is_xclbin binary ≡ true
    → IsHardware (r.host.read_xclbin binary) core
    → Maps.lookup emulation_mode p.env ≡ none
    → select (target_of binary (r.host.read_xclbin binary) core) m m.platforms ≡ ok d
    → length args ≤ length (kernel_args core.kernels)
    → AllTyped args
    → let t = target_of binary (r.host.read_xclbin binary) core in
      let made = found_kernels r.lib m t core.kernels d in
      let s = found_object r.lib m t core.kernels d (Hardware.described_by core fresh) in
      (invoke_bitstream r path binary args p).0
      ≡ ok (xilinx_object (invoked r.lib made args s), returned r.lib made args s)
invoke_bitstream-invoked r m path binary core p d args a b describes magic hw unset chosen n typed =
    let t = target_of binary (r.host.read_xclbin binary) core in
    let described = Hardware.described_by core fresh in
    let e : initialize r.lib t described
        ≡ (ok tt, found_object r.lib m t core.kernels d described) =
      subst
        (λ (x : Result ℕ).
          initialize r.lib t described
          ≡ opened_or_thrown r.lib core.kernels t.binary x
              (get_platforms ∷ platform_calls t m m.platforms) described)
        chosen (initialize_lem r.lib core.kernels m t a b describes refl refl described) in
    let made = found_kernels r.lib m t core.kernels d in
    let s = found_object r.lib m t core.kernels d described in
    invoke_opened r path binary core p args made s a magic hw unset e fresh-IsValid refl
      (omega (arith, total_args-found r.lib m t core.kernels d)) typed

-- The same on an ELF file.
invoke_opened_intel :
    (r : Runtime) (path binary : Text) (p : Process) (args : List Arg) (made : List (ℕ × ℕ))
    (o : OpenclDevice)
    → Accepts r.lib
    → is_elf binary ≡ true
    → get_elem? binary 4 ≡ some 1
    → nat_eq (r.elf.shstrndx binary) 0 ≡ false
    → (no_kernel (file_kernels r.lib r.elf binary) || is_empty (file_board r.lib r.elf binary))
      ≡ false
    → initialize r.lib
        (elf_target r.lib r.elf binary)
        (Sections.described_by r.lib r.elf binary fresh)
      ≡ (ok tt, o)
    → IsBacked o
    → o.kernels ≡ assign_all (starts 0 made) []
    → length args ≤ total_args made
    → has_stream args ≡ false
    → (invoke_bitstream r path binary args p).0
      ≡ ok (intel_object (invoked_intel r.lib made args o), args)
unfolding invoke_bitstream construct make on_device
invoke_opened_intel r path binary p args made o a magic is_32 named complete e v table n h =
    let c : IntelDevice.Constructor.Construction = record { device = fresh; env = p.env } in
    let built = construct_elf_lem r.lib r.elf binary c is_32 named in
    rw
      (
        (open_bitstream_lem binary).1.1 magic,
        (rw (complete, e) at built).0,
        (rw (complete, e) at built).1,
        invoke-invoked_intel r.lib made args o a v table n h,
      )
      refl

-- What `invoke_bitstream` returns on an ELF file.
pub invoke_bitstream-invoked_intel :
    (r : Runtime) (m : Machine) (path binary : Text) (p : Process) (d : ℕ) (args : List Arg)
    → Accepts r.lib
    → Builds r.lib
    → Describes r.lib m
    → is_elf binary ≡ true
    → get_elem? binary 4 ≡ some 1
    → nat_eq (r.elf.shstrndx binary) 0 ≡ false
    → (no_kernel (file_kernels r.lib r.elf binary) || is_empty (file_board r.lib r.elf binary))
      ≡ false
    → select (elf_target r.lib r.elf binary) m m.platforms ≡ ok d
    → length args ≤ length (kernel_args (file_kernels r.lib r.elf binary))
    → has_stream args ≡ false
    → let t = elf_target r.lib r.elf binary in
      let ks = file_kernels r.lib r.elf binary in
      let made = found_kernels r.lib m t ks d in
      let s = found_object r.lib m t ks d (Sections.described_by r.lib r.elf binary fresh) in
      (invoke_bitstream r path binary args p).0
      ≡ ok (intel_object (invoked_intel r.lib made args s), args)
invoke_bitstream-invoked_intel r m path binary p d args a b describes magic is_32 named complete
      chosen n h =
    let ks = file_kernels r.lib r.elf binary in
    let t = elf_target r.lib r.elf binary in
    let described = Sections.described_by r.lib r.elf binary fresh in
    let e : initialize r.lib t described ≡ (ok tt, found_object r.lib m t ks d described) =
      subst
        (λ (x : Result ℕ).
          initialize r.lib t described
          ≡ opened_or_thrown r.lib ks t.binary x (get_platforms ∷ platform_calls t m m.platforms)
              described)
        chosen (initialize_lem r.lib ks m t a b describes refl refl described) in
    let made = found_kernels r.lib m t ks d in
    let s = found_object r.lib m t ks d described in
    invoke_opened_intel r path binary p args made s a magic is_32 named complete e
      (fresh-IsValid, fresh-IsValid) refl (omega (arith, total_args-found r.lib m t ks d)) h
