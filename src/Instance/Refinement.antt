-- ===== src/Instance/Refinement.antt =====
-- An `Instance` of any of the three devices, against the directions that a host expects.
pub mod Opened
use fpga_runtime.Tag.{Tag, tag_eq-is_load, tag_eq-is_store}
use mathlib.Core.Path.{subst}
use fpga_runtime.Instance.Marks.Invoking.{arg_commands, invoke-Refines}
use fpga_runtime.Common.{sym, ap, ◌∙◌, ℕ, ◌≡◌, refl, false, List, [], ◌∷◌, Text}
use fpga_runtime.Common.Int.{ℤ}
use fpga_runtime.Exec.{Exec, Result, ok, err}
use fpga_runtime.Opencl.{Library, Accepts}
use fpga_runtime.XilinxDevice
use fpga_runtime.IntelDevice
use fpga_runtime.CosimDevice
use fpga_runtime.CosimDevice.Construction.{constructed}
use fpga_runtime.OpenclDevice.{OpenclDevice, suspend_buffer, mark_direction}
use fpga_runtime.Containers.Sets
use fpga_runtime.OpenclDevice.Frames.{marks, set_scalar_arg-Keeps, exec-Keeps, finish_queue-Keeps}
use fpga_runtime.Instance.{
  Device, Arg, invoke, xilinx_device, intel_device, cosim_device, Kind, xilinx, intel, cosim,
  open_bitstream,
}
use fpga_runtime.Instance.Marks.{
  Marks, Marking, Directions, Command, Refines, call, expect, expect_all, directions_of,
  call-Refines, suspend-Refines, marked,
}
use fpga_runtime.Instance.Object.{
  Runtime, Process, Object, xilinx_object, intel_object, cosim_object, on_device, invoke_object,
  suspend_buf, make, make_chosen, fresh, as_object, as_cosim, construct,
}

marks-mark_direction :
    (index : ℤ) (tag : Tag) (s : OpenclDevice)
    → marks (mark_direction index tag s) ≡ marked index tag (marks s)
unfolding mark_direction
marks-mark_direction index tag s = rw (tag_eq-is_load tag, tag_eq-is_store tag) refl

module _ (lib : Library) (a : Accepts lib) where
  xilinx-Marking : Marking (xilinx_device lib) marks
  unfolding xilinx_device suspend_buffer mark_direction
  xilinx-Marking = record {
    set_scalar-Keeps = set_scalar_arg-Keeps lib;
    set_buffer-marks = λ index tag arg s.
        XilinxDevice.Frames.set_buffer-marks lib a index tag arg s
        ∙ marks-mark_direction index tag s;
    set_stream-Keeps = XilinxDevice.Frames.set_stream_arg-Keeps lib;
    suspend-marks = λ index s. refl;
    suspend-count = λ index s. refl;
    write-Keeps = XilinxDevice.Frames.write_to_device-Keeps lib;
    read-Keeps = XilinxDevice.Frames.read_from_device-Keeps lib;
    run-Keeps = exec-Keeps lib;
    finish-Keeps = finish_queue-Keeps lib;
  }

  intel-Marking : Marking (intel_device lib) marks
  unfolding intel_device suspend_buffer mark_direction
  intel-Marking = record {
    set_scalar-Keeps = set_scalar_arg-Keeps lib;
    set_buffer-marks = λ index tag arg s.
        IntelDevice.Frames.set_buffer-marks lib a index tag arg s
        ∙ marks-mark_direction index tag s;
    set_stream-Keeps = IntelDevice.Frames.set_stream_arg-Keeps lib;
    suspend-marks = λ index s. refl;
    suspend-count = λ index s. refl;
    write-Keeps = IntelDevice.Frames.write_to_device-Keeps lib;
    read-Keeps = IntelDevice.Frames.read_from_device-Keeps lib;
    run-Keeps = exec-Keeps lib;
    finish-Keeps = finish_queue-Keeps lib;
  }

cosim-Marking : (host : CosimDevice.Host) → Marking (cosim_device host) CosimDevice.Frames.marks
unfolding cosim_device CosimDevice.set_scalar_arg CosimDevice.set_buffer_arg
    CosimDevice.set_stream_arg CosimDevice.suspend_buffer CosimDevice.write_to_device
    CosimDevice.finish
cosim-Marking host = record {
  set_scalar-Keeps = λ index arg s. refl;
  set_buffer-marks = λ index tag arg s. rw (tag_eq-is_load tag, tag_eq-is_store tag) refl;
  set_stream-Keeps = λ index tag w s. refl;
  suspend-marks = λ index s. refl;
  suspend-count = λ index s. refl;
  write-Keeps = λ s. refl;
  read-Keeps = CosimDevice.Frames.read_from_device-Keeps;
  run-Keeps = CosimDevice.Frames.exec-Keeps host;
  finish-Keeps = λ s. refl;
}

-- The indices that an object has for transfer.
abbrev pub object_marks : Object → Marks
object_marks (xilinx_object s) = marks s
object_marks (intel_object s) = marks s
object_marks (cosim_object s) = CosimDevice.Frames.marks s

-- `Invoke` on the device of an object.
invoked-Refines :
    {S : Type 0} (d : Device S) (view : S → Marks) (m : Marking d view) (f : S → Object)
    (same : (t : S) → object_marks (f t) ≡ view t) (args args' : List Arg) (s : S) (o' : Object)
    (e : Directions)
    → Refines (view s) e
    → ◌≡◌ {A = Result (List Arg) × Object}
        ((invoke d args s).0, f (invoke d args s).1)
        (ok args', o')
    → Refines (object_marks o') (expect_all (arg_commands 0 args) e)
invoked-Refines d view m f same args args' s o' e h returned =
    let t = (invoke d args s).1 in
    let shown =
      invoke-Refines d view m args args' e s t h
        (ap (λ (x : Result (List Arg) × Object). (x.0, t)) returned) in
    subst (λ (x : Marks). Refines x (expect_all (arg_commands 0 args) e))
      (sym (same t) ∙ ap (λ (x : Result (List Arg) × Object). object_marks x.1) returned) shown

module _ (r : Runtime) where
  -- A call of a method of the object.
  unfoldable pub perform : Command → Exec Object (Unit {0})
  perform c = on_device r (λ S d. call d c)

  -- The object after a sequence of calls, where a call that throws is caught.
  unfoldable pub session : Object → List Command → Object
  session o [] = o
  session o (c ∷ cs) = session (perform c o).1 cs

module _ (r : Runtime) (a : Accepts r.lib) where
  perform-Refines :
      (c : Command) (o : Object) (e : Directions)
      → Refines (object_marks o) e
      → Refines (object_marks (perform r c o).1) (expect c e)
  unfolding perform on_device
  perform-Refines c (xilinx_object s) e h =
      call-Refines (xilinx_device r.lib) marks (xilinx-Marking r.lib a) c s e h
  perform-Refines c (intel_object s) e h =
      call-Refines (intel_device r.lib) marks (intel-Marking r.lib a) c s e h
  perform-Refines c (cosim_object s) e h =
      call-Refines (cosim_device r.simulator) CosimDevice.Frames.marks (cosim-Marking r.simulator) c
        s e h

  -- With a library that turns nothing down, after any sequence of calls on an object of any of the three
  -- devices its indices to load and to store are exactly those that the calls let a host expect, each
  -- once, if they were before: an argument moves in a direction if it did before or some later buffer
  -- had a tag with that direction, and it was not suspended since; calls that set scalars or streams,
  -- transfer, run or wait make no difference, whether or not they throw.
  pub session-Refines :
      (cs : List Command) (o : Object) (e : Directions)
      → Refines (object_marks o) e
      → Refines (object_marks (session r o cs)) (expect_all cs e)
  unfolding session expect_all
  session-Refines [] o e h = h
  session-Refines (c ∷ cs) o e h =
      session-Refines cs (perform r c o).1 (expect c e) (perform-Refines c o e h)

  pub suspend_buf-Refines :
      (index : ℤ) (o : Object) (e : Directions)
      → Refines (object_marks o) e
      → (suspend_buf r index o).0 ≡ ok (directions_of index e)
  unfolding on_device
  suspend_buf-Refines index (xilinx_object s) e h =
      suspend-Refines (xilinx_device r.lib) marks (xilinx-Marking r.lib a) index s e h
  suspend_buf-Refines index (intel_object s) e h =
      suspend-Refines (intel_device r.lib) marks (intel-Marking r.lib a) index s e h
  suspend_buf-Refines index (cosim_object s) e h =
      suspend-Refines (cosim_device r.simulator) CosimDevice.Frames.marks
        (cosim-Marking r.simulator) index s e h

  -- With a library that turns nothing down, where `Invoke` returns on an object of any of the three
  -- devices, the indices to load and to store are then exactly those that a host expects after the
  -- calls for its arguments, one after the other from number 0, if they were what it expected before.
  pub invoke_object-Refines :
      (args args' : List Arg) (o o' : Object) (e : Directions)
      → Refines (object_marks o) e
      → invoke_object r args o ≡ (ok args', o')
      → Refines (object_marks o') (expect_all (arg_commands 0 args) e)
  unfolding on_device
  invoke_object-Refines args args' (xilinx_object s) o' e h returned =
      invoked-Refines (xilinx_device r.lib) marks (xilinx-Marking r.lib a) xilinx_object (λ t. refl)
        args args' s o' e h returned
  invoke_object-Refines args args' (intel_object s) o' e h returned =
      invoked-Refines (intel_device r.lib) marks (intel-Marking r.lib a) intel_object (λ t. refl)
        args args' s o' e h returned
  invoke_object-Refines args args' (cosim_object s) o' e h returned =
      invoked-Refines (cosim_device r.simulator) CosimDevice.Frames.marks
        (cosim-Marking r.simulator) cosim_object (λ t. refl) args args' s o' e h returned
