-- ===== src/Tests/Names.antt =====
-- The theorem on the names of the error codes, for headers of version 1.1.
use fpga_runtime.Common.{◌≡◌, true, false, some, none, if◌then◌else◌}
use fpga_runtime.OpenclUtil.{Headers, opencl_err_to_string, cl_linker_not_available}
use fpga_runtime.OpenclUtil.Names.{read_code, is_listed, opencl_err_to_string_lem}

abbrev old : Headers
old = record { version_1_1 = true; version_1_2 = false; version_2_0 = false; version_2_2 = false }

opencl_err_to_string_example :
    read_code (opencl_err_to_string old cl_linker_not_available)
    ≡ (if is_listed old cl_linker_not_available then some cl_linker_not_available else none)
opencl_err_to_string_example = opencl_err_to_string_lem old cl_linker_not_available
