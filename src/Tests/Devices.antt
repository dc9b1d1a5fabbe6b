-- ===== src/Tests/Devices.antt =====
-- The theorems on the OpenCL devices and on the metadata at concrete objects.
use mathlib.Core.List.Perm
use fpga_runtime.Opencl.{enqueue_nd_range_kernel}
use fpga_runtime.OpenclDevice.{OpenclDevice, get_args_info, here}
use fpga_runtime.OpenclDevice.Info.{get_args_info_lem}
use fpga_runtime.OpenclDevice.Kernels.{create_calls}
use fpga_runtime.OpenclDevice.Program.{kept, exec-create_kernels}
use fpga_runtime.Common.{◌≡◌, ◌∷◌, [], refl, some, ◌+◌, ◌<◌, ◌≤◌, ◌++◌, map, arith, codes}
use fpga_runtime.Common.Int.{◌-ℤ◌}
use fpga_runtime.Containers.Ordered
use fpga_runtime.Exec.{ok}
use fpga_runtime.XilinxDevice.{write_to_device, read_from_device, at_line}
use fpga_runtime.XilinxDevice.Safety.{xilinx_overrides}
use fpga_runtime.OpenclDevice.Session.{
  session, perform, session-IsFine, set_buffer, suspend, write, read,
}
use fpga_runtime.OpenclDevice.Safety.{Found}
use fpga_runtime.Tag.{read_write}
use fpga_runtime.Common.Eq.{int_Eq}
use fpga_runtime.XilinxDevice.Transfers.{
  load_requests, store_requests, write_to_device-issues, read_from_device-issues,
}
use fpga_runtime.OpenclDevice.Requests.{outcome, issue}
use fpga_runtime.OpenclDevice.Launching.{launch_calls, exec-issues}
use fpga_runtime.OpenclDevice.Initialize.{create_kernels}
use fpga_runtime.OpenclDevice.{exec, get_kernel}
use fpga_runtime.Metadata.{read_kernels, xilinx_cat, start}
use fpga_runtime.Metadata.Numbering.{prefix_sums, number, arg_infos, kernel_args, read_kernels_lem}
use fpga_runtime.Buffer.{buffer_arg, buffer_bytes, size_in_bytes}
use fpga_runtime.Buffer.Sizes.{buffer_arg_covers}
use fpga_runtime.OpenclDevice.Kernels.{get_kernel-create_kernels, made_kernels, locate}
use fpga_runtime.Tests.{
  counting, counting-Accepts, opened, running, floats, float_arg, adder, idle, printer, pos,
}
use fpga_runtime.Containers.Maps.{has_key}
use fpga_runtime.Containers.Sets.{contains}
use fpga_runtime.OpenclDevice.Validity.{IsValid}

pub running-IsValid : IsValid running
unfolding contains has_key
running-IsValid = record {
  load = record { distinct = (refl, tt); backed = λ i h. ground arith };
  store = record { distinct = (refl, (refl, tt)); backed = λ i h. ground arith };
}

found_2 : get_kernel running.kernels (pos 2) ≡ some (pos 0, 11)
unfolding get_kernel Ordered.at_prev Ordered.upper_bound ◌-ℤ◌
found_2 = refl

get_kernel-create_kernels_example :
    let (r, s') =
      create_kernels counting
        (map (λ k. k.name) (adder ∷ idle ∷ printer ∷ []))
        (prefix_sums 0 (adder ∷ idle ∷ printer ∷ []))
        opened in
    (r ≡ ok tt)
    × (get_kernel s'.kernels (pos 2)
        ≡ locate 2 (made_kernels counting [] 4 (adder ∷ idle ∷ printer ∷ [])))
get_kernel-create_kernels_example =
    get_kernel-create_kernels counting counting-Accepts (adder ∷ idle ∷ printer ∷ []) opened 2 refl
      (omega arith)

session-IsFine_example :
    let o = xilinx_overrides counting in
    let cs = set_buffer (pos 1) read_write float_arg ∷ suspend (pos 0) ∷ write ∷ [] in
    IsValid (session counting o running cs)
    × Found (perform counting o read (session counting o running cs)).0
session-IsFine_example =
    session-IsFine counting (xilinx_overrides counting) running
      (set_buffer (pos 1) read_write float_arg ∷ suspend (pos 0) ∷ write ∷ []) read running-IsValid

exec-issues_example :
    outcome (exec counting running)
    ≡ issue counting (here 90) [] (launch_calls 3 [] ((pos 0, 10) ∷ (pos 2, 11) ∷ []))
exec-issues_example = exec-issues counting running

write_to_device-issues_example :
    outcome (write_to_device counting running)
    ≡ issue counting (at_line 194) [] (load_requests running running.load_indices)
write_to_device-issues_example = write_to_device-issues counting running running-IsValid

read_from_device-issues_example :
    outcome (read_from_device counting running)
    ≡ issue counting (at_line 205) [] (store_requests running running.store_indices)
read_from_device-issues_example = read_from_device-issues counting running running-IsValid

read_kernels_example : read_kernels xilinx_cat start (adder ∷ idle ∷ printer ∷ []) ≡ record {
  arg_count = 3;
  arg_table = number 0 (arg_infos xilinx_cat 0 (kernel_args (adder ∷ idle ∷ printer ∷ [])));
  kernel_names = codes "add" ∷ codes "idle" ∷ codes "print" ∷ [];
  kernel_arg_counts = pos 0 ∷ pos 2 ∷ pos 2 ∷ [];
}
read_kernels_example = read_kernels_lem xilinx_cat (adder ∷ idle ∷ printer ∷ [])

buffer_arg_covers_example :
    (size_in_bytes (buffer_arg floats) ≤ buffer_bytes floats)
    × (buffer_bytes floats < size_in_bytes (buffer_arg floats) + 4)
    × (buffer_bytes floats ≤ 24)
buffer_arg_covers_example = buffer_arg_covers floats (omega arith)

abbrev described : OpenclDevice
described = record opened {
  arg_table = (read_kernels xilinx_cat start (adder ∷ idle ∷ printer ∷ [])).arg_table;
}

get_args_info_example :
    get_args_info described ≡ arg_infos xilinx_cat 0 (kernel_args (adder ∷ idle ∷ printer ∷ []))
get_args_info_example =
    get_args_info_lem xilinx_cat (adder ∷ idle ∷ printer ∷ []) described Perm.rfl

exec-create_kernels_example :
    let ks = adder ∷ idle ∷ printer ∷ [] in
    let s' = (create_kernels counting (map (λ k. k.name) ks) (prefix_sums 0 ks) opened).1 in
    let (r, t) = exec counting s' in
    (r ≡ ok tt)
    × (t.calls
        ≡ ([] ++ create_calls counting 4 ks)
          ++ map (λ k. enqueue_nd_range_kernel 3 k.0 []) (kept (made_kernels counting [] 4 ks)))
exec-create_kernels_example =
    exec-create_kernels counting counting-Accepts (adder ∷ idle ∷ printer ∷ []) opened refl
