-- ===== src/OpenclUtil.antt =====
-- src/frt/opencl_util.h: the names of the OpenCL error codes. A `cl_int` is modelled by the name of
-- the constant that it equals; `unlisted` holds every other value. A constant that the OpenCL headers
-- of the build lack is one of those that `switch` leaves to its default.
pub mod Names
use Prim.Native.String.{String}
use fpga_runtime.Common.{Bool, true, false, ℕ, Text, codes, ◌++◌, if◌then◌else◌}
use fpga_runtime.Common.Int.{ℤ, pos}
use fpga_runtime.Common.Decimal.{to_string}

-- Which of the macros `CL_VERSION_1_1` and so on the headers define.
pub record Headers : Type 0 where
  pub version_1_1 : Bool
  pub version_1_2 : Bool
  pub version_2_0 : Bool
  pub version_2_2 : Bool

pub data ClInt : Type 0 where
  cl_success cl_device_not_found cl_device_not_available cl_compiler_not_available : ClInt
  cl_mem_object_allocation_failure cl_out_of_resources cl_out_of_host_memory : ClInt
  cl_profiling_info_not_available cl_mem_copy_overlap cl_image_format_mismatch : ClInt
  cl_image_format_not_supported cl_build_program_failure cl_map_failure : ClInt
  cl_misaligned_sub_buffer_offset cl_exec_status_error_for_events_in_wait_list : ClInt
  cl_compile_program_failure cl_linker_not_available cl_link_program_failure : ClInt
  cl_device_partition_failed cl_kernel_arg_info_not_available cl_invalid_value : ClInt
  cl_invalid_device_type cl_invalid_platform cl_invalid_device cl_invalid_context : ClInt
  cl_invalid_queue_properties cl_invalid_command_queue cl_invalid_host_ptr : ClInt
  cl_invalid_mem_object cl_invalid_image_format_descriptor cl_invalid_image_size : ClInt
  cl_invalid_sampler cl_invalid_binary cl_invalid_build_options cl_invalid_program : ClInt
  cl_invalid_program_executable cl_invalid_kernel_name cl_invalid_kernel_definition : ClInt
  cl_invalid_kernel cl_invalid_arg_index cl_invalid_arg_value cl_invalid_arg_size : ClInt
  cl_invalid_kernel_args cl_invalid_work_dimension cl_invalid_work_group_size : ClInt
  cl_invalid_work_item_size cl_invalid_global_offset cl_invalid_event_wait_list : ClInt
  cl_invalid_event cl_invalid_operation cl_invalid_gl_object cl_invalid_buffer_size : ClInt
  cl_invalid_mip_level cl_invalid_global_work_size cl_invalid_property : ClInt
  cl_invalid_image_descriptor cl_invalid_compiler_options cl_invalid_linker_options : ClInt
  cl_invalid_device_partition_count cl_invalid_pipe_size cl_invalid_device_queue : ClInt
  cl_invalid_spec_id cl_max_size_restriction_exceeded : ClInt
  unlisted : ℤ → ClInt

unfoldable pub opencl_err_to_string : Headers → ClInt → String
opencl_err_to_string h cl_success = "CL_SUCCESS"
opencl_err_to_string h cl_device_not_found = "CL_DEVICE_NOT_FOUND"
opencl_err_to_string h cl_device_not_available = "CL_DEVICE_NOT_AVAILABLE"
opencl_err_to_string h cl_compiler_not_available = "CL_COMPILER_NOT_AVAILABLE"
opencl_err_to_string h cl_mem_object_allocation_failure = "CL_MEM_OBJECT_ALLOCATION_FAILURE"
opencl_err_to_string h cl_out_of_resources = "CL_OUT_OF_RESOURCES"
opencl_err_to_string h cl_out_of_host_memory = "CL_OUT_OF_HOST_MEMORY"
opencl_err_to_string h cl_profiling_info_not_available = "CL_PROFILING_INFO_NOT_AVAILABLE"
opencl_err_to_string h cl_mem_copy_overlap = "CL_MEM_COPY_OVERLAP"
opencl_err_to_string h cl_image_format_mismatch = "CL_IMAGE_FORMAT_MISMATCH"
opencl_err_to_string h cl_image_format_not_supported = "CL_IMAGE_FORMAT_NOT_SUPPORTED"
opencl_err_to_string h cl_build_program_failure = "CL_BUILD_PROGRAM_FAILURE"
opencl_err_to_string h cl_map_failure = "CL_MAP_FAILURE"
opencl_err_to_string h cl_misaligned_sub_buffer_offset =
    if h.version_1_1 then "CL_MISALIGNED_SUB_BUFFER_OFFSET" else "CL_UNKNOWN_ERROR"
opencl_err_to_string h cl_exec_status_error_for_events_in_wait_list =
    if h.version_1_1 then "CL_EXEC_STATUS_ERROR_FOR_EVENTS_IN_WAIT_LIST" else "CL_UNKNOWN_ERROR"
opencl_err_to_string h cl_compile_program_failure =
    if h.version_1_2 then "CL_COMPILE_PROGRAM_FAILURE" else "CL_UNKNOWN_ERROR"
opencl_err_to_string h cl_linker_not_available =
    if h.version_1_2 then "CL_LINKER_NOT_AVAILABLE" else "CL_UNKNOWN_ERROR"
opencl_err_to_string h cl_link_program_failure =
    if h.version_1_2 then "CL_LINK_PROGRAM_FAILURE" else "CL_UNKNOWN_ERROR"
opencl_err_to_string h cl_device_partition_failed =
    if h.version_1_2 then "CL_DEVICE_PARTITION_FAILED" else "CL_UNKNOWN_ERROR"
opencl_err_to_string h cl_kernel_arg_info_not_available =
    if h.version_1_2 then "CL_KERNEL_ARG_INFO_NOT_AVAILABLE" else "CL_UNKNOWN_ERROR"
opencl_err_to_string h cl_invalid_value = "CL_INVALID_VALUE"
opencl_err_to_string h cl_invalid_device_type = "CL_INVALID_DEVICE_TYPE"
opencl_err_to_string h cl_invalid_platform = "CL_INVALID_PLATFORM"
opencl_err_to_string h cl_invalid_device = "CL_INVALID_DEVICE"
opencl_err_to_string h cl_invalid_context = "CL_INVALID_CONTEXT"
opencl_err_to_string h cl_invalid_queue_properties = "CL_INVALID_QUEUE_PROPERTIES"
opencl_err_to_string h cl_invalid_command_queue = "CL_INVALID_COMMAND_QUEUE"
opencl_err_to_string h cl_invalid_host_ptr = "CL_INVALID_HOST_PTR"
opencl_err_to_string h cl_invalid_mem_object = "CL_INVALID_MEM_OBJECT"
opencl_err_to_string h cl_invalid_image_format_descriptor = "CL_INVALID_IMAGE_FORMAT_DESCRIPTOR"
opencl_err_to_string h cl_invalid_image_size = "CL_INVALID_IMAGE_SIZE"
opencl_err_to_string h cl_invalid_sampler = "CL_INVALID_SAMPLER"
opencl_err_to_string h cl_invalid_binary = "CL_INVALID_BINARY"
opencl_err_to_string h cl_invalid_build_options = "CL_INVALID_BUILD_OPTIONS"
opencl_err_to_string h cl_invalid_program = "CL_INVALID_PROGRAM"
opencl_err_to_string h cl_invalid_program_executable = "CL_INVALID_PROGRAM_EXECUTABLE"
opencl_err_to_string h cl_invalid_kernel_name = "CL_INVALID_KERNEL_NAME"
opencl_err_to_string h cl_invalid_kernel_definition = "CL_INVALID_KERNEL_DEFINITION"
opencl_err_to_string h cl_invalid_kernel = "CL_INVALID_KERNEL"
opencl_err_to_string h cl_invalid_arg_index = "CL_INVALID_ARG_INDEX"
opencl_err_to_string h cl_invalid_arg_value = "CL_INVALID_ARG_VALUE"
opencl_err_to_string h cl_invalid_arg_size = "CL_INVALID_ARG_SIZE"
opencl_err_to_string h cl_invalid_kernel_args = "CL_INVALID_KERNEL_ARGS"
opencl_err_to_string h cl_invalid_work_dimension = "CL_INVALID_WORK_DIMENSION"
opencl_err_to_string h cl_invalid_work_group_size = "CL_INVALID_WORK_GROUP_SIZE"
opencl_err_to_string h cl_invalid_work_item_size = "CL_INVALID_WORK_ITEM_SIZE"
opencl_err_to_string h cl_invalid_global_offset = "CL_INVALID_GLOBAL_OFFSET"
opencl_err_to_string h cl_invalid_event_wait_list = "CL_INVALID_EVENT_WAIT_LIST"
opencl_err_to_string h cl_invalid_event = "CL_INVALID_EVENT"
opencl_err_to_string h cl_invalid_operation = "CL_INVALID_OPERATION"
opencl_err_to_string h cl_invalid_gl_object = "CL_INVALID_GL_OBJECT"
opencl_err_to_string h cl_invalid_buffer_size = "CL_INVALID_BUFFER_SIZE"
opencl_err_to_string h cl_invalid_mip_level = "CL_INVALID_MIP_LEVEL"
opencl_err_to_string h cl_invalid_global_work_size = "CL_INVALID_GLOBAL_WORK_SIZE"
opencl_err_to_string h cl_invalid_property =
    if h.version_1_1 then "CL_INVALID_PROPERTY" else "CL_UNKNOWN_ERROR"
opencl_err_to_string h cl_invalid_image_descriptor =
    if h.version_1_2 then "CL_INVALID_IMAGE_DESCRIPTOR" else "CL_UNKNOWN_ERROR"
opencl_err_to_string h cl_invalid_compiler_options =
    if h.version_1_2 then "CL_INVALID_COMPILER_OPTIONS" else "CL_UNKNOWN_ERROR"
opencl_err_to_string h cl_invalid_linker_options =
    if h.version_1_2 then "CL_INVALID_LINKER_OPTIONS" else "CL_UNKNOWN_ERROR"
opencl_err_to_string h cl_invalid_device_partition_count =
    if h.version_1_2 then "CL_INVALID_DEVICE_PARTITION_COUNT" else "CL_UNKNOWN_ERROR"
opencl_err_to_string h cl_invalid_pipe_size =
    if h.version_2_0 then "CL_INVALID_PIPE_SIZE" else "CL_UNKNOWN_ERROR"
opencl_err_to_string h cl_invalid_device_queue =
    if h.version_2_0 then "CL_INVALID_DEVICE_QUEUE" else "CL_UNKNOWN_ERROR"
opencl_err_to_string h cl_invalid_spec_id =
    if h.version_2_2 then "CL_INVALID_SPEC_ID" else "CL_UNKNOWN_ERROR"
opencl_err_to_string h cl_max_size_restriction_exceeded =
    if h.version_2_2 then "CL_MAX_SIZE_RESTRICTION_EXCEEDED" else "CL_UNKNOWN_ERROR"
opencl_err_to_string h (unlisted n) = "CL_UNKNOWN_ERROR"

-- `error != CL_SUCCESS`, turned round.
abbrev pub is_success : ClInt → Bool
is_success cl_success = true
is_success _ = false

-- Where a `CL_CHECK` stands: `__FILE__`, here below the repository's root, and `__LINE__`, here the line
-- on which the macro begins.
pub record Place : Type 0 where
  pub file : String
  pub line : ℕ

-- The text of the exception of `CL_CHECK`: file, line and name of the code.
unfoldable pub check_text : Place → String → Text
check_text at name =
    codes at.file ++ (codes ":" ++ (to_string (pos at.line) ++ (codes ": " ++ codes name)))
