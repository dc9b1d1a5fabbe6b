-- ===== src/Instance/Program/Repetition.antt =====
-- The function `Invoke` of src/frt.h, and then further calls of `Invoke` on the object that it returns.
use mathlib.Core.Path.{subst}
use fpga_runtime.Common.{
  ℕ, ◌≤◌, ◌≡◌, refl, sym, false, some, ◌||◌, get_elem?, nat_eq, All, none, true, List, ◌∷◌, length,
  Text,
}
use fpga_runtime.Common.Eq.{text_Eq}
use fpga_runtime.Containers.Maps
use fpga_runtime.Exec.{ok}
use fpga_runtime.Opencl.{Accepts}
use fpga_runtime.Metadata.Numbering.{kernel_args}
use fpga_runtime.OpenclDevice.Kernels.{total_args}
use fpga_runtime.OpenclDevice.Machine.{Machine, Describes, Builds, select}
use fpga_runtime.XilinxDevice.Constructor.{XmlCore, emulation_mode}
use fpga_runtime.XilinxDevice.Constructor.Hardware
use fpga_runtime.XilinxDevice.Constructor.Hardware.{IsHardware, target_of}
use fpga_runtime.XilinxDevice.Environ.{is_empty}
use fpga_runtime.IntelDevice.Constructor.Sections
use fpga_runtime.IntelDevice.Constructor.Sections.{file_kernels, file_board, elf_target, no_kernel}
use fpga_runtime.Instance.{Arg, xilinx_device, intel_device, is_xclbin, is_elf, has_stream}
use fpga_runtime.Instance.Object.{Runtime, Process, xilinx_object, intel_object, fresh}
use fpga_runtime.Instance.Program.{invoke_bitstream}
use fpga_runtime.Instance.Program.Objects.{
  found_object, found_kernels, total_args-found, fresh-IsValid, invoke_bitstream-invoked,
  invoke_bitstream-invoked_intel,
}
use fpga_runtime.Instance.Returning.{AllTyped}
use fpga_runtime.Instance.Tracing.Invoking.{owner, returned, invoked}
use fpga_runtime.Instance.Tracing.Intel.{placed_intel-IsBacked}
use fpga_runtime.Instance.Tracing.Intel.Invoking.{invoked_intel}
use fpga_runtime.Instance.Repetition.{
  invokes, returned_all, invoked_all, invoked-IsValid, invokes-invoked_all, invoked_all_intel,
  invokes-invoked_all_intel,
}

-- With a library that turns nothing down, takes the binary and lists the platforms and devices of a
-- machine, in an environment without XCL_EMULATION_MODE, on an xclbin file for hardware whose platform
-- the machine has: `Invoke` makes an object and returns it, and any number of further calls of
-- `Invoke` on that object, one after the other, return, if none of all these calls has more arguments
-- than the metadata has and the streams of each are of one of the two classes. The object is what
-- `invoked` makes of the one that `Initialize` leaves, with a context, a queue, the program of the
-- binary and the kernels of the metadata on the device of that platform; and each further call does
-- the same to the object that the one before left.
pub invoke_bitstream-invokes :
    (r : Runtime) (m : Machine) (path binary : Text) (core : XmlCore) (p : Process) (d : ℕ)
    (args : List Arg) (runs : List (List Arg))
    → Accepts r.lib
    → Builds r.lib
    → Describes r.lib m
    → is_xclbin binary ≡ true
    → IsHardware (r.host.read_xclbin binary) core
    → Maps.lookup emulation_mode p.env ≡ none
    → select (target_of binary (r.host.read_xclbin binary) core) m m.platforms ≡ ok d
    → All (λ (given : List Arg). length given ≤ length (kernel_args core.kernels)) (args ∷ runs)
    → All (λ (given : List Arg). AllTyped given) (args ∷ runs)
    → let t = target_of binary (r.host.read_xclbin binary) core in
      let made = found_kernels r.lib m t core.kernels d in
      let s = found_object r.lib m t core.kernels d (Hardware.described_by core fresh) in
      let o = invoked r.lib made args s in
      ((invoke_bitstream r path binary args p).0 ≡ ok (xilinx_object o, returned r.lib made args s))
      × (invokes (xilinx_device r.lib) runs o
          ≡ (ok (returned_all r.lib made runs o), invoked_all r.lib made runs o))
invoke_bitstream-invokes r m path binary core p d args runs a b describes magic hw unset chosen n
      typed =
    let e =
      invoke_bitstream-invoked r m path binary core p d args a b describes magic hw unset chosen n.0
        typed.0 in
    let t = target_of binary (r.host.read_xclbin binary) core in
    let made = found_kernels r.lib m t core.kernels d in
    let s = found_object r.lib m t core.kernels d (Hardware.described_by core fresh) in
    let (fits, fit_all) : All (λ (given : List Arg). length given ≤ total_args made) (args ∷ runs) =
      subst (λ (k : ℕ). All (λ (given : List Arg). length given ≤ k) (args ∷ runs))
        (sym (total_args-found r.lib m t core.kernels d)) n in
    (
      e,
      invokes-invoked_all r.lib made runs (invoked r.lib made args s) a
          (invoked-IsValid r.lib made a args s fresh-IsValid refl fits typed.0) refl fit_all
          typed.1,
    )

-- With a library that turns nothing down, takes the binary and lists the platforms and devices of a
-- machine, on a 32-bit ELF file with section names, of which some give kernels and a board that the
-- machine has: `Invoke` makes an object and returns it, and any number of further calls of `Invoke` on
-- that object, one after the other, return, if none of all these calls has more arguments than the
-- metadata has and none has a stream. The object is what `invoked_intel` makes of the one that
-- `Initialize` leaves, with a context, a queue, the program of the binary and the kernels of the
-- metadata on the device of that board; and each further call does the same to the object that the one
-- before left.
pub invoke_bitstream-invokes_intel :
    (r : Runtime) (m : Machine) (path binary : Text) (p : Process) (d : ℕ) (args : List Arg)
    (runs : List (List Arg))
    → Accepts r.lib
    → Builds r.lib
    → Describes r.lib m
    → is_elf binary ≡ true
    → get_elem? binary 4 ≡ some 1
    → nat_eq (r.elf.shstrndx binary) 0 ≡ false
    → (no_kernel (file_kernels r.lib r.elf binary) || is_empty (file_board r.lib r.elf binary))
      ≡ false
    → select (elf_target r.lib r.elf binary) m m.platforms ≡ ok d
    → All
        (λ (given : List Arg).
          length given ≤ length (kernel_args (file_kernels r.lib r.elf binary)))
        (args ∷ runs)
    → All (λ (given : List Arg). has_stream given ≡ false) (args ∷ runs)
    → let t = elf_target r.lib r.elf binary in
      let ks = file_kernels r.lib r.elf binary in
      let made = found_kernels r.lib m t ks d in
      let s = found_object r.lib m t ks d (Sections.described_by r.lib r.elf binary fresh) in
      let o = invoked_intel r.lib made args s in
      ((invoke_bitstream r path binary args p).0 ≡ ok (intel_object o, args))
      × (invokes (intel_device r.lib) runs o ≡ (ok runs, invoked_all_intel r.lib made runs o))
invoke_bitstream-invokes_intel r m path binary p d args runs a b describes magic is_32 named
      complete chosen n h =
    let e =
      invoke_bitstream-invoked_intel r m path binary p d args a b describes magic is_32 named
        complete chosen n.0 h.0 in
    let ks = file_kernels r.lib r.elf binary in
    let t = elf_target r.lib r.elf binary in
    let made = found_kernels r.lib m t ks d in
    let s = found_object r.lib m t ks d (Sections.described_by r.lib r.elf binary fresh) in
    let (fits, fit_all) : All (λ (given : List Arg). length given ≤ total_args made) (args ∷ runs) =
      subst (λ (k : ℕ). All (λ (given : List Arg). length given ≤ k) (args ∷ runs))
        (sym (total_args-found r.lib m t ks d)) n in
    (
      e,
      invokes-invoked_all_intel r.lib made runs (invoked_intel r.lib made args s) a
          (placed_intel-IsBacked r.lib (owner made) 0 args s (fresh-IsValid, fresh-IsValid)) refl
          fit_all h.1,
    )
