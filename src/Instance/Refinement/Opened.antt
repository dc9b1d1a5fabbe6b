-- ===== src/Instance/Refinement/Opened.antt =====
-- An `Instance` from its constructor on.
use fpga_runtime.Common.{◌∙◌, ◌≡◌, refl, false, List, [], Text}
use fpga_runtime.Common.Int.{ℤ}
use fpga_runtime.Exec.{Result, ok, err}
use fpga_runtime.Opencl.{Accepts}
use fpga_runtime.XilinxDevice
use fpga_runtime.IntelDevice
use fpga_runtime.CosimDevice
use fpga_runtime.CosimDevice.Construction.{constructed}
use fpga_runtime.OpenclDevice.{OpenclDevice}
use fpga_runtime.Containers.Sets
use fpga_runtime.OpenclDevice.Frames.{marks}
use fpga_runtime.Instance.{Kind, xilinx, intel, cosim, open_bitstream}
use fpga_runtime.Instance.Marks.{Directions, Command, Refines, expect_all, directions_of}
use fpga_runtime.Instance.Refinement.{object_marks, session, session-Refines, suspend_buf-Refines}
use fpga_runtime.Instance.Object.{
  Runtime, Process, Object, xilinx_object, intel_object, suspend_buf, make, make_chosen, fresh,
  as_object, as_cosim, construct,
}

-- Nothing is to be transferred.
abbrev pub nothing : Directions
nothing = record { loads = λ j. false; stores = λ j. false }

module _ (r : Runtime) where
  -- The indices of an object that a constructor has made.
  as_object-marks :
      (f : OpenclDevice → Object) (same : (s : OpenclDevice) → object_marks (f s) ≡ marks s)
      (s : OpenclDevice) (result : Result (Unit {0})) (o : Object)
      → as_object f s result ≡ ok o
      → object_marks o ≡ marks s
  as_object-marks f same s (ok x) o e = let h = same s in cc
  as_object-marks f same s (err x) o e = cc

  as_cosim-marks :
      (path : Text) (world : CosimDevice.World) (dir : Result Text) (o : Object)
      → as_cosim (constructed path world dir) ≡ ok o
      → object_marks o ≡ ([], [])
  as_cosim-marks path world (ok d) o e = cc
  as_cosim-marks path world (err x) o e = cc

  make-marks :
      (path binary : Text) (kind : Kind) (p : Process) (o : Object)
      → (make r path binary kind p).0 ≡ ok o
      → object_marks o ≡ ([], [])
  unfolding make CosimDevice.Construction.construct
  make-marks path binary xilinx p o e =
      let process : XilinxDevice.Constructor.Construction = record {
        device = fresh;
        env = p.env;
        commands = p.commands;
      } in
      let c = XilinxDevice.Constructor.construct r.lib r.host binary process in
      as_object-marks xilinx_object (λ s. refl) c.1.device c.0 o e
      ∙ XilinxDevice.Constructor.Frames.construct-Keeps r.host r.lib binary process
  make-marks path binary intel p o e =
      let process : IntelDevice.Constructor.Construction = record { device = fresh; env = p.env } in
      let c = IntelDevice.Constructor.construct r.lib r.elf binary process in
      as_object-marks intel_object (λ s. refl) c.1.device c.0 o e
      ∙ IntelDevice.Constructor.Frames.construct-Keeps r.lib r.elf binary process
  make-marks path binary cosim p o e = as_cosim-marks _ _ _ o e

  make_chosen-marks :
      (path binary : Text) (kind : Result Kind) (p : Process) (o : Object)
      → (make_chosen r path binary kind p).0 ≡ ok o
      → object_marks o ≡ ([], [])
  make_chosen-marks path binary (ok kind) p o e = make-marks path binary kind p o e
  make_chosen-marks path binary (err x) p o e = cc

  pub construct-marks :
      (path binary : Text) (p : Process) (o : Object)
      → (construct r path binary p).0 ≡ ok o
      → object_marks o ≡ ([], [])
  unfolding construct
  construct-marks path binary p o e = make_chosen-marks path binary (open_bitstream binary) p o e

  Refines-nothing : Refines ([], []) nothing
  unfolding Sets.contains
  Refines-nothing = (tt, tt, λ j. (refl, refl))

  pub construct-Refines :
      (path binary : Text) (p : Process) (o : Object)
      → (construct r path binary p).0 ≡ ok o
      → Refines (object_marks o) nothing
  construct-Refines path binary p o e = rw (construct-marks path binary p o e) Refines-nothing

  -- With a library that turns nothing down, on an object that the constructor of `Instance` has made, of
  -- whichever device, after any sequence of calls: `SuspendBuf` returns the number of directions in
  -- which those calls let a host expect that the argument is moved, if none is moved at first.
  pub suspend_buf-session :
      (path binary : Text) (p : Process) (o : Object) (cs : List Command) (index : ℤ)
      → Accepts r.lib
      → (construct r path binary p).0 ≡ ok o
      → (suspend_buf r index (session r o cs)).0 ≡ ok (directions_of index (expect_all cs nothing))
  suspend_buf-session path binary p o cs index a e =
      suspend_buf-Refines r a index (session r o cs) (expect_all cs nothing)
        (session-Refines r a cs o nothing (construct-Refines path binary p o e))
