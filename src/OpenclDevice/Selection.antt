-- ===== src/OpenclDevice/Selection.antt =====
-- Which device `OpenclDevice::Initialize` opens.
use mathlib.Core.List.{append_assoc, append-nil}
use fpga_runtime.Common.Split.{starts_with_lem}
use fpga_runtime.Common.{
  ℕ, ◌≡◌, refl, true, false, List, [], ◌∷◌, ◌++◌, All, map, Text, codes, arith, Bool-cases, inl,
  inr, ap, ◌||◌, ◌∙◌,
}
use fpga_runtime.Common.Eq.{text_eq}
use fpga_runtime.Containers.Ordered.{assign_all}
use fpga_runtime.Exec.{Result, ok, err, for_each}
use fpga_runtime.OpenclUtil.{ClInt, cl_device_not_available, is_success, Place}
use fpga_runtime.Opencl.{
  Library, Call, Accepts, get_platforms, get_platform_name, get_devices, get_device_name,
  create_command_queue, create_program, build_program, create_context,
}
use fpga_runtime.Metadata.{XmlKernel}
use fpga_runtime.Metadata.Numbering.{prefix_sums}
use fpga_runtime.OpenclDevice.{OpenclDevice, request, cl_check, here}
use fpga_runtime.OpenclDevice.Requests.{checked_ok}
use fpga_runtime.OpenclDevice.Initialize.{
  Target, is_target_device, is_not_available, checked_items, set_up, try_devices, use_device,
  try_platforms, initialize,
}
use fpga_runtime.OpenclDevice.Machine.{
  Machine, Describes, Builds, is_named, select_device, select, device_calls, platform_calls,
}
use fpga_runtime.OpenclDevice.Kernels.{create_calls, starts, made_kernels, create_kernels_lem}

is_target_device_lem : (target name : Text) → is_target_device target name ≡ is_named target name
unfolding is_target_device
is_target_device_lem target name =
    ap (λ b. text_eq name target || b) (starts_with_lem (target ++ codes " : ") name)

module _ (lib : Library) (ks : List XmlKernel) where
  -- The requests that open a device, with a context, a queue and a program on it, and the handles that
  -- the library gives for them.
  abbrev pub open_context : ℕ → List Call → ℕ
  open_context d asked = (lib.respond asked (create_context d)).value

  abbrev pub open_queue : ℕ → List Call → ℕ
  open_queue d asked =
      (lib.respond (asked ++ create_context d ∷ [])
        (create_command_queue (open_context d asked) d)).value

  abbrev pub open_calls : (binary : Text) → ℕ → List Call → List Call
  open_calls binary d asked =
      ((asked ++ create_context d ∷ []) ++ create_command_queue (open_context d asked) d ∷ [])
      ++ create_program (open_context d asked) d binary ∷ []

  abbrev pub open_program : (binary : Text) → ℕ → List Call → ℕ
  open_program binary d asked =
      (lib.respond
        ((asked ++ create_context d ∷ []) ++ create_command_queue (open_context d asked) d ∷ [])
        (create_program (open_context d asked) d binary)).value

  abbrev pub built_calls : (binary : Text) → ℕ → List Call → List Call
  built_calls binary d asked =
      open_calls binary d asked ++ build_program (open_program binary d asked) ∷ []

  -- The object after these requests and those for the kernels of the metadata.
  abbrev pub opened_with : (binary : Text) → ℕ → List Call → OpenclDevice → OpenclDevice
  opened_with binary d asked s =
      let program = open_program binary d asked in
      let built = built_calls binary d asked in
      record s {
        device = d;
        context = open_context d asked;
        cmd = open_queue d asked;
        program = program;
        kernels = assign_all (starts 0 (made_kernels lib built program ks)) s.kernels;
        calls = built ++ create_calls lib program ks;
      }

  -- That object where a device was selected, after these requests, or else the error.
  abbrev pub opened_or_thrown :
      Text → Result ℕ → List Call → OpenclDevice → Result (Unit {0}) × OpenclDevice
  opened_or_thrown binary (err e) asked s = (err e, record s { calls = asked })
  opened_or_thrown binary (ok d) asked s = (ok tt, opened_with binary d asked s)

  is_not_available_lem :
      (status : ClInt) → is_success status ≡ true → is_not_available status ≡ false
  unfolding is_not_available
  is_not_available_lem cl_device_not_available h = ground arith
  is_not_available_lem _ h = refl

  cl_check_lem :
      (at : Place) (status : ClInt) (s : OpenclDevice)
      → is_success status ≡ true
      → cl_check lib at status s ≡ (ok tt, s)
  unfolding cl_check
  cl_check_lem at status s h = rw h

  for_each-cl_check :
      (at : Place) (statuses : List ClInt) (s : OpenclDevice)
      → All (λ status. is_success status ≡ true) statuses
      → for_each (cl_check lib at) statuses s ≡ (ok tt, s)
  unfolding for_each
  for_each-cl_check at [] s h = refl
  for_each-cl_check at (x ∷ xs) s h = rw (cl_check_lem at x s h.0, for_each-cl_check at xs s h.1)

  checked_items_lem :
      (at : Place) (c : Call) (s : OpenclDevice)
      → Accepts lib
      → checked_items lib at c s
        ≡ (ok (lib.respond s.calls c).items, record s { calls = s.calls ++ c ∷ [] })
  unfolding checked_items request
  checked_items_lem at c s a =
      rw (cl_check_lem _ _ (record s { calls = s.calls ++ c ∷ [] }) (a s.calls c))

  -- `set_up`, on an object with the context that the library made for the device.
  abbrev with_context : ℕ → OpenclDevice → OpenclDevice
  with_context device s = record s {
    device = device;
    context = (lib.respond s.calls (create_context device)).value;
    calls = s.calls ++ create_context device ∷ [];
  }

  set_up_lem :
      (t : Target) (device : ℕ) (s : OpenclDevice)
      → Accepts lib
      → Builds lib
      → t.kernel_names ≡ map (λ k. k.name) ks
      → t.kernel_arg_counts ≡ prefix_sums 0 ks
      → set_up lib t device (with_context device s) ≡ (ok tt, opened_with t.binary device s.calls s)
  unfolding set_up request
  set_up_lem t device s0 a b names counts =
      let s = with_context device s0 in
      let queue = create_command_queue s.context device in
      let s1 : OpenclDevice = record s {
        calls = s.calls ++ queue ∷ [];
        cmd = (lib.respond s.calls queue).value;
      } in
      let make = create_program s.context device t.binary in
      let made = lib.respond s1.calls make in
      let s2 : OpenclDevice = record s1 { calls = s1.calls ++ make ∷ []; program = made.value } in
      let build = build_program made.value in
      let s3 : OpenclDevice = record s2 { calls = s2.calls ++ build ∷ [] } in
      rw
        (
          cl_check_lem _ _ s1 (a s.calls queue),
          for_each-cl_check _ made.statuses s2 (b s1.calls make),
          cl_check_lem _ _ s2 (a s1.calls make),
          checked_ok lib _ build s2 (a s2.calls build),
          names,
          counts,
        )
        (create_kernels_lem lib a 0 ks s3)

  -- A search that goes on, with one more request in the log.
  same_asked :
      (binary : Text) (r : Result ℕ) (s : OpenclDevice) (logged before : List Call) (c : Call)
      (rest : List Call)
      → opened_or_thrown binary r ((before ++ c ∷ []) ++ rest) (record s { calls = logged })
        ≡ opened_or_thrown binary r (before ++ c ∷ rest) s
  same_asked binary (ok d) s logged before c rest = rw (append_assoc before (c ∷ []) rest) refl
  same_asked binary (err e) s logged before c rest = rw (append_assoc before (c ∷ []) rest) refl

  module _ (m : Machine) (t : Target) (a : Accepts lib) (b : Builds lib)
      (describes : Describes lib m) (names : t.kernel_names ≡ map (λ k. k.name) ks)
      (counts : t.kernel_arg_counts ≡ prefix_sums 0 ks) where
    use_device_lem :
        (device : ℕ) (s : OpenclDevice)
        → use_device lib t device s ≡ (ok true, opened_with t.binary device s.calls s)
    unfolding use_device request
    use_device_lem device s =
        let c = create_context device in
        rw (
          is_not_available_lem _ (a s.calls c),
          cl_check_lem _ _ (with_context device s) (a s.calls c),
          set_up_lem t device s a b names counts,
        )

    try_devices_lem :
        (devices : List ℕ) (s : OpenclDevice)
        → try_devices lib t devices s
          ≡ opened_or_thrown t.binary
              (select_device t m devices)
              (s.calls ++ device_calls t m devices)
              s
    unfolding select_device device_calls try_devices
    try_devices_lem [] s = rw append-nil
    try_devices_lem (device ∷ rest) s =
        let s1 : OpenclDevice = record s { calls = s.calls ++ get_device_name device ∷ [] } in
        elim (Bool-cases (is_named t.device_name (m.device_name device))) [
          | inl is ↦ rw (
            checked_items_lem _ (get_device_name device) s a,
            (describes s.calls).3 device,
            is_target_device_lem t.device_name (m.device_name device),
            is,
            use_device_lem device s1,
          )
          | inr other ↦
              rw
                (
                  checked_items_lem _ (get_device_name device) s a,
                  (describes s.calls).3 device,
                  is_target_device_lem t.device_name (m.device_name device),
                  other,
                )
                (try_devices_lem rest s1
                  ∙ same_asked t.binary (select_device t m rest) s s1.calls s.calls
                      (get_device_name device) (device_calls t m rest))
        ]

    try_platforms_lem :
        (platforms : List ℕ) (s : OpenclDevice)
        → try_platforms lib t platforms s
          ≡ opened_or_thrown t.binary
              (select t m platforms)
              (s.calls ++ platform_calls t m platforms)
              s
    unfolding select platform_calls try_platforms
    try_platforms_lem [] s = rw append-nil
    try_platforms_lem (platform ∷ rest) s =
        let s1 : OpenclDevice = record s { calls = s.calls ++ get_platform_name platform ∷ [] } in
        let s2 : OpenclDevice = record s1 { calls = s1.calls ++ get_devices platform ∷ [] } in
        let name = checked_items_lem (here 156) (get_platform_name platform) s a in
        elim (Bool-cases (text_eq (m.platform_name platform) t.vendor_name)) [
          | inl is ↦
              rw
                (
                  name,
                  (describes s.calls).1 platform,
                  is,
                  checked_items_lem _ (get_devices platform) s1 a,
                  (describes s1.calls).2 platform,
                )
                (try_devices_lem (m.devices platform) s2
                  ∙ same_asked t.binary (select_device t m (m.devices platform)) s1 s2.calls
                      s1.calls (get_devices platform) (device_calls t m (m.devices platform))
                  ∙ same_asked t.binary (select_device t m (m.devices platform)) s s1.calls s.calls
                      (get_platform_name platform)
                      (get_devices platform ∷ device_calls t m (m.devices platform)))
          | inr other ↦
              rw (name, (describes s.calls).1 platform, other)
                (try_platforms_lem rest s1
                  ∙ same_asked t.binary (select t m rest) s s1.calls s.calls
                      (get_platform_name platform) (platform_calls t m rest))
        ]

    -- With a library that turns nothing down, takes the binary, and lists the platforms and devices of
    -- a machine, `Initialize` asks for the platforms, for their names up to the vendor's, for the
    -- devices of that one, and for their names up to the target's, alone or with a text behind it. On
    -- this device it makes a context, on that a queue and the program of the binary, builds it, and
    -- makes the kernels of the metadata in order; the object keeps each handle that the library gave,
    -- and its kernel table gets the kernels. Where that platform has no such device, or no platform has
    -- that name, it throws that this one was not found and changes nothing but the log.
    pub initialize_lem :
        (s : OpenclDevice)
        → initialize lib t s
          ≡ opened_or_thrown t.binary
              (select t m m.platforms)
              (s.calls ++ get_platforms ∷ platform_calls t m m.platforms)
              s
    unfolding initialize
    initialize_lem s =
        let s1 : OpenclDevice = record s { calls = s.calls ++ get_platforms ∷ [] } in
        rw (checked_items_lem _ get_platforms s a, (describes s.calls).0)
          (try_platforms_lem m.platforms s1
            ∙ same_asked t.binary (select t m m.platforms) s s1.calls s.calls get_platforms
                (platform_calls t m m.platforms))
