-- ===== src/OpenclDevice/Machine.antt =====
-- The machines on which `OpenclDevice::Initialize` looks for a device, and the one that it should open.
use fpga_runtime.Common.Split.{has_prefix}
use fpga_runtime.Common.{
  ℕ, ◌≡◌, Bool, true, ◌||◌, List, [], ◌∷◌, ◌++◌, All, Text, codes, if◌then◌else◌,
}
use fpga_runtime.Common.Eq.{text_eq}
use fpga_runtime.Exec.{Result, ok, err, runtime_error}
use fpga_runtime.OpenclUtil.{is_success}
use fpga_runtime.Opencl.{
  Library, Call, get_platforms, get_platform_name, get_devices, get_device_name,
}
use fpga_runtime.OpenclDevice.Initialize.{Target}

-- The platforms and devices of a machine.
pub record Machine : Type 0 where
  pub platforms : List ℕ
  pub platform_name : ℕ → Text
  pub devices : ℕ → List ℕ
  pub device_name : ℕ → Text

-- A library that lists the platforms and devices of a machine, under the same names at any time. (Where
-- a platform has no device OpenCL turns the question for its devices down, and `CL_CHECK` throws that.)
abbrev pub Describes : Library → Machine → Type 0
Describes lib m =
    (before : List Call)
    → ((lib.respond before get_platforms).items ≡ m.platforms)
      × ((p : ℕ) → (lib.respond before (get_platform_name p)).items ≡ m.platform_name p)
      × ((p : ℕ) → (lib.respond before (get_devices p)).items ≡ m.devices p)
      × ((d : ℕ) → (lib.respond before (get_device_name d)).items ≡ m.device_name d)

-- A library that takes every binary.
abbrev pub Builds : Library → Type 0
Builds lib =
    (before : List Call) (c : Call)
    → All (λ status. is_success status ≡ true) (lib.respond before c).statuses

-- The name of a device as the binary has it, alone or with a text behind it.
abbrev pub is_named : Text → Text → Bool
is_named target name = text_eq name target || has_prefix (target ++ codes " : ") name

-- The first device with the target's name, of the platform.
unfoldable pub select_device : Target → Machine → List ℕ → Result ℕ
select_device t m [] =
    err (runtime_error (codes "target device '" ++ (t.device_name ++ codes "' not found")))
select_device t m (device ∷ rest) =
    let later = select_device t m rest in
    if is_named t.device_name (m.device_name device) then ok device else later

-- The same, of the first platform with the vendor's name.
unfoldable pub select : Target → Machine → List ℕ → Result ℕ
select t m [] =
    err (runtime_error (codes "target platform '" ++ (t.vendor_name ++ codes "' not found")))
select t m (platform ∷ rest) =
    let later = select t m rest in
    if text_eq (m.platform_name platform) t.vendor_name
    then select_device t m (m.devices platform)
    else later

-- The questions of the search: for the names of the devices up to the one that is selected.
unfoldable pub device_calls : Target → Machine → List ℕ → List Call
device_calls t m [] = []
device_calls t m (device ∷ rest) =
    let later = device_calls t m rest in
    get_device_name device ∷ (if is_named t.device_name (m.device_name device) then [] else later)

-- For the names of the platforms up to the vendor's, and then for the devices of that one.
unfoldable pub platform_calls : Target → Machine → List ℕ → List Call
platform_calls t m [] = []
platform_calls t m (platform ∷ rest) =
    let later = platform_calls t m rest in
    get_platform_name platform
    ∷ (if text_eq (m.platform_name platform) t.vendor_name
        then get_devices platform ∷ device_calls t m (m.devices platform)
        else later)
