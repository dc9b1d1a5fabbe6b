-- ===== src/OpenclDevice/Initialize.antt =====
-- `OpenclDevice::Initialize` of src/frt/opencl_device.cpp. The binary is the one element of the vector
-- `binaries`, and the messages to `std::clog` are left out.
use fpga_runtime.Common.{
  Bool, true, false, List, [], ◌∷◌, ◌++◌, ◌||◌, Text, codes, ℕ, take, length, if◌then◌else◌,
}
use fpga_runtime.Common.Eq.{text_eq}
use fpga_runtime.Common.Int.{ℤ}
use fpga_runtime.Containers.Ordered
use fpga_runtime.Exec.{runtime_error, undefined, pure, raise, gets, modify, for_each, ◌>>=◌, ◌>>◌}
use fpga_runtime.OpenclUtil.{ClInt, cl_device_not_available, Place}
use fpga_runtime.Opencl.{
  Library, Call, get_platforms, get_platform_name, get_devices, get_device_name, create_context,
  create_command_queue, create_program, build_program, create_kernel,
}
use fpga_runtime.OpenclDevice.{Method, request, cl_check, checked, here}

-- The arguments of `Initialize`.
pub record Target : Type 0 where
  pub binary : Text
  pub vendor_name : Text
  pub device_name : Text
  pub kernel_names : List Text
  pub kernel_arg_counts : List ℤ

-- An Intel device has a text behind the name that the binary holds.
unfoldable pub is_target_device : Text → Text → Bool
is_target_device target name =
    let prefix = target ++ codes " : " in
    text_eq name target || text_eq (take (length prefix) name) prefix

unfoldable pub is_not_available : ClInt → Bool
is_not_available cl_device_not_available = true
is_not_available _ = false

module _ (lib : Library) where
  -- The last loop. `operator[]` on the counts is undefined beyond their end.
  unfoldable pub create_kernels : List Text → List ℤ → Method (Unit {0})
  create_kernels [] counts = pure tt
  create_kernels (name ∷ names) [] = raise undefined
  create_kernels (name ∷ names) (count ∷ counts) =
      let go_on = create_kernels names counts in
      do
        program ← gets (λ s. s.program)
        reply ← request lib (create_kernel program name)
        modify (λ s. record s { kernels = Ordered.assign count reply.value s.kernels })
        cl_check lib (here 197) reply.status
        go_on

  -- A request under `CL_CHECK`, for the list that it returns.
  unfoldable pub checked_items : Place → Call → Method (List ℕ)
  checked_items at c = do reply ← request lib c; cl_check lib at reply.status; pure reply.items

  -- From the command queue on, when the context is there.
  unfoldable pub set_up : Target → ℕ → Method (Unit {0})
  set_up t device = do
    context ← gets (λ s. s.context)
    queue ← request lib (create_command_queue context device)
    modify (λ s. record s { cmd = queue.value })
    cl_check lib (here 185) queue.status
    program ← request lib (create_program context device t.binary)
    modify (λ s. record s { program = program.value })
    for_each (cl_check lib (here 190)) program.statuses
    cl_check lib (here 192) program.status
    checked lib (here 193) (build_program program.value)
    create_kernels t.kernel_names t.kernel_arg_counts

  -- The body of `if (is_target_device)`: false for `continue`, true for `return`.
  unfoldable pub use_device : Target → ℕ → Method Bool
  use_device t device = do
    modify (λ s. record s { device = device })
    context ← request lib (create_context device)
    modify (λ s. record s { context = context.value })
    if is_not_available context.status
        then pure false
        else (do cl_check lib (here 180) context.status; set_up t device; pure true)

  unfoldable pub try_devices : Target → List ℕ → Method (Unit {0})
  try_devices t [] =
      raise (runtime_error (codes "target device '" ++ (t.device_name ++ codes "' not found")))
  try_devices t (device ∷ rest) =
      let go_on = try_devices t rest in
      do
        name ← checked_items (here 163) (get_device_name device)
        done ← if is_target_device t.device_name name then use_device t device else pure false
        if done then pure tt else go_on

  unfoldable pub try_platforms : Target → List ℕ → Method (Unit {0})
  try_platforms t [] =
      raise (runtime_error (codes "target platform '" ++ (t.vendor_name ++ codes "' not found")))
  try_platforms t (platform ∷ rest) =
      let go_on = try_platforms t rest in
      do
        name ← checked_items (here 156) (get_platform_name platform)
        if text_eq name t.vendor_name
            then (do
              devices ← checked_items (here 160) (get_devices platform)
              try_devices t devices)
            else go_on

  unfoldable pub initialize : Target → Method (Unit {0})
  initialize t = do platforms ← checked_items (here 152) get_platforms; try_platforms t platforms
