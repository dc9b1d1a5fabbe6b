-- ===== src/OpenclUtil/Names.antt =====
-- The names of the error codes, read back.
use Prim.Native.String
use Prim.Native.String.{String}
use Prim.Native.Nat.{lt, eq, gt}
use fpga_runtime.Common.{
  ◌≡◌, refl, Bool, true, false, Option, none, some, List, [], ◌∷◌, if◌then◌else◌,
}
use fpga_runtime.OpenclUtil.{
  Headers, ClInt, opencl_err_to_string, unlisted, cl_success, cl_device_not_found,
  cl_device_not_available, cl_compiler_not_available, cl_mem_object_allocation_failure,
  cl_out_of_resources, cl_out_of_host_memory, cl_profiling_info_not_available, cl_mem_copy_overlap,
  cl_image_format_mismatch, cl_image_format_not_supported, cl_build_program_failure, cl_map_failure,
  cl_misaligned_sub_buffer_offset, cl_exec_status_error_for_events_in_wait_list,
  cl_compile_program_failure, cl_linker_not_available, cl_link_program_failure,
  cl_device_partition_failed, cl_kernel_arg_info_not_available, cl_invalid_value,
  cl_invalid_device_type, cl_invalid_platform, cl_invalid_device, cl_invalid_context,
  cl_invalid_queue_properties, cl_invalid_command_queue, cl_invalid_host_ptr, cl_invalid_mem_object,
  cl_invalid_image_format_descriptor, cl_invalid_image_size, cl_invalid_sampler, cl_invalid_binary,
  cl_invalid_build_options, cl_invalid_program, cl_invalid_program_executable,
  cl_invalid_kernel_name, cl_invalid_kernel_definition, cl_invalid_kernel, cl_invalid_arg_index,
  cl_invalid_arg_value, cl_invalid_arg_size, cl_invalid_kernel_args, cl_invalid_work_dimension,
  cl_invalid_work_group_size, cl_invalid_work_item_size, cl_invalid_global_offset,
  cl_invalid_event_wait_list, cl_invalid_event, cl_invalid_operation, cl_invalid_gl_object,
  cl_invalid_buffer_size, cl_invalid_mip_level, cl_invalid_global_work_size, cl_invalid_property,
  cl_invalid_image_descriptor, cl_invalid_compiler_options, cl_invalid_linker_options,
  cl_invalid_device_partition_count, cl_invalid_pipe_size, cl_invalid_device_queue,
  cl_invalid_spec_id, cl_max_size_restriction_exceeded,
}

unfoldable pub string_eq : String → String → Bool
string_eq s t = elim (String.compare s t) [ lt ↦ false | eq ↦ true | gt ↦ false ]

-- The names of the constants in CL/cl.h, of the newest version.
abbrev pub code_names : List (String × ClInt)
code_names =
    ("CL_SUCCESS", cl_success)
    ∷ ("CL_DEVICE_NOT_FOUND", cl_device_not_found)
    ∷ ("CL_DEVICE_NOT_AVAILABLE", cl_device_not_available)
    ∷ ("CL_COMPILER_NOT_AVAILABLE", cl_compiler_not_available)
    ∷ ("CL_MEM_OBJECT_ALLOCATION_FAILURE", cl_mem_object_allocation_failure)
    ∷ ("CL_OUT_OF_RESOURCES", cl_out_of_resources)
    ∷ ("CL_OUT_OF_HOST_MEMORY", cl_out_of_host_memory)
    ∷ ("CL_PROFILING_INFO_NOT_AVAILABLE", cl_profiling_info_not_available)
    ∷ ("CL_MEM_COPY_OVERLAP", cl_mem_copy_overlap)
    ∷ ("CL_IMAGE_FORMAT_MISMATCH", cl_image_format_mismatch)
    ∷ ("CL_IMAGE_FORMAT_NOT_SUPPORTED", cl_image_format_not_supported)
    ∷ ("CL_BUILD_PROGRAM_FAILURE", cl_build_program_failure)
    ∷ ("CL_MAP_FAILURE", cl_map_failure)
    ∷ ("CL_MISALIGNED_SUB_BUFFER_OFFSET", cl_misaligned_sub_buffer_offset)
    ∷ ("CL_EXEC_STATUS_ERROR_FOR_EVENTS_IN_WAIT_LIST", cl_exec_status_error_for_events_in_wait_list)
    ∷ ("CL_COMPILE_PROGRAM_FAILURE", cl_compile_program_failure)
    ∷ ("CL_LINKER_NOT_AVAILABLE", cl_linker_not_available)
    ∷ ("CL_LINK_PROGRAM_FAILURE", cl_link_program_failure)
    ∷ ("CL_DEVICE_PARTITION_FAILED", cl_device_partition_failed)
    ∷ ("CL_KERNEL_ARG_INFO_NOT_AVAILABLE", cl_kernel_arg_info_not_available)
    ∷ ("CL_INVALID_VALUE", cl_invalid_value)
    ∷ ("CL_INVALID_DEVICE_TYPE", cl_invalid_device_type)
    ∷ ("CL_INVALID_PLATFORM", cl_invalid_platform)
    ∷ ("CL_INVALID_DEVICE", cl_invalid_device)
    ∷ ("CL_INVALID_CONTEXT", cl_invalid_context)
    ∷ ("CL_INVALID_QUEUE_PROPERTIES", cl_invalid_queue_properties)
    ∷ ("CL_INVALID_COMMAND_QUEUE", cl_invalid_command_queue)
    ∷ ("CL_INVALID_HOST_PTR", cl_invalid_host_ptr)
    ∷ ("CL_INVALID_MEM_OBJECT", cl_invalid_mem_object)
    ∷ ("CL_INVALID_IMAGE_FORMAT_DESCRIPTOR", cl_invalid_image_format_descriptor)
    ∷ ("CL_INVALID_IMAGE_SIZE", cl_invalid_image_size)
    ∷ ("CL_INVALID_SAMPLER", cl_invalid_sampler)
    ∷ ("CL_INVALID_BINARY", cl_invalid_binary)
    ∷ ("CL_INVALID_BUILD_OPTIONS", cl_invalid_build_options)
    ∷ ("CL_INVALID_PROGRAM", cl_invalid_program)
    ∷ ("CL_INVALID_PROGRAM_EXECUTABLE", cl_invalid_program_executable)
    ∷ ("CL_INVALID_KERNEL_NAME", cl_invalid_kernel_name)
    ∷ ("CL_INVALID_KERNEL_DEFINITION", cl_invalid_kernel_definition)
    ∷ ("CL_INVALID_KERNEL", cl_invalid_kernel)
    ∷ ("CL_INVALID_ARG_INDEX", cl_invalid_arg_index)
    ∷ ("CL_INVALID_ARG_VALUE", cl_invalid_arg_value)
    ∷ ("CL_INVALID_ARG_SIZE", cl_invalid_arg_size)
    ∷ ("CL_INVALID_KERNEL_ARGS", cl_invalid_kernel_args)
    ∷ ("CL_INVALID_WORK_DIMENSION", cl_invalid_work_dimension)
    ∷ ("CL_INVALID_WORK_GROUP_SIZE", cl_invalid_work_group_size)
    ∷ ("CL_INVALID_WORK_ITEM_SIZE", cl_invalid_work_item_size)
    ∷ ("CL_INVALID_GLOBAL_OFFSET", cl_invalid_global_offset)
    ∷ ("CL_INVALID_EVENT_WAIT_LIST", cl_invalid_event_wait_list)
    ∷ ("CL_INVALID_EVENT", cl_invalid_event)
    ∷ ("CL_INVALID_OPERATION", cl_invalid_operation)
    ∷ ("CL_INVALID_GL_OBJECT", cl_invalid_gl_object)
    ∷ ("CL_INVALID_BUFFER_SIZE", cl_invalid_buffer_size)
    ∷ ("CL_INVALID_MIP_LEVEL", cl_invalid_mip_level)
    ∷ ("CL_INVALID_GLOBAL_WORK_SIZE", cl_invalid_global_work_size)
    ∷ ("CL_INVALID_PROPERTY", cl_invalid_property)
    ∷ ("CL_INVALID_IMAGE_DESCRIPTOR", cl_invalid_image_descriptor)
    ∷ ("CL_INVALID_COMPILER_OPTIONS", cl_invalid_compiler_options)
    ∷ ("CL_INVALID_LINKER_OPTIONS", cl_invalid_linker_options)
    ∷ ("CL_INVALID_DEVICE_PARTITION_COUNT", cl_invalid_device_partition_count)
    ∷ ("CL_INVALID_PIPE_SIZE", cl_invalid_pipe_size)
    ∷ ("CL_INVALID_DEVICE_QUEUE", cl_invalid_device_queue)
    ∷ ("CL_INVALID_SPEC_ID", cl_invalid_spec_id)
    ∷ ("CL_MAX_SIZE_RESTRICTION_EXCEEDED", cl_max_size_restriction_exceeded)
    ∷ []

-- The first code of a table with a name.
unfoldable pub find_code : String → List (String × ClInt) → Option ClInt
find_code name [] = none
find_code name ((known, c) ∷ rest) =
    let later = find_code name rest in if string_eq known name then some c else later

unfoldable pub read_code : String → Option ClInt
read_code name = find_code name code_names

-- Whether the headers define the code.
unfoldable pub is_listed : Headers → ClInt → Bool
is_listed h cl_misaligned_sub_buffer_offset = h.version_1_1
is_listed h cl_exec_status_error_for_events_in_wait_list = h.version_1_1
is_listed h cl_compile_program_failure = h.version_1_2
is_listed h cl_linker_not_available = h.version_1_2
is_listed h cl_link_program_failure = h.version_1_2
is_listed h cl_device_partition_failed = h.version_1_2
is_listed h cl_kernel_arg_info_not_available = h.version_1_2
is_listed h cl_invalid_property = h.version_1_1
is_listed h cl_invalid_image_descriptor = h.version_1_2
is_listed h cl_invalid_compiler_options = h.version_1_2
is_listed h cl_invalid_linker_options = h.version_1_2
is_listed h cl_invalid_device_partition_count = h.version_1_2
is_listed h cl_invalid_pipe_size = h.version_2_0
is_listed h cl_invalid_device_queue = h.version_2_0
is_listed h cl_invalid_spec_id = h.version_2_2
is_listed h cl_max_size_restriction_exceeded = h.version_2_2
is_listed h (unlisted n) = false
is_listed h _ = true

-- A name that the headers may lack.
read_conditional :
    (b : Bool) (name : String) (c : ClInt)
    → read_code name ≡ some c
    → read_code (if b then name else "CL_UNKNOWN_ERROR") ≡ (if b then some c else none)
unfolding read_code find_code opencl_err_to_string string_eq
read_conditional true name c e = e
read_conditional false name c e = refl

-- The name of every error code that the headers define is that of its constant: looked up in a table of
-- the constants with their names it gives the code back. Every other number has a name that is in no
-- row of the table.
pub opencl_err_to_string_lem :
    (h : Headers) (c : ClInt)
    → read_code (opencl_err_to_string h c) ≡ (if is_listed h c then some c else none)
unfolding is_listed read_code find_code opencl_err_to_string string_eq
opencl_err_to_string_lem h cl_misaligned_sub_buffer_offset =
    read_conditional h.version_1_1 "CL_MISALIGNED_SUB_BUFFER_OFFSET" cl_misaligned_sub_buffer_offset
      refl
opencl_err_to_string_lem h cl_exec_status_error_for_events_in_wait_list =
    read_conditional h.version_1_1 "CL_EXEC_STATUS_ERROR_FOR_EVENTS_IN_WAIT_LIST"
      cl_exec_status_error_for_events_in_wait_list refl
opencl_err_to_string_lem h cl_compile_program_failure =
    read_conditional h.version_1_2 "CL_COMPILE_PROGRAM_FAILURE" cl_compile_program_failure refl
opencl_err_to_string_lem h cl_linker_not_available =
    read_conditional h.version_1_2 "CL_LINKER_NOT_AVAILABLE" cl_linker_not_available refl
opencl_err_to_string_lem h cl_link_program_failure =
    read_conditional h.version_1_2 "CL_LINK_PROGRAM_FAILURE" cl_link_program_failure refl
opencl_err_to_string_lem h cl_device_partition_failed =
    read_conditional h.version_1_2 "CL_DEVICE_PARTITION_FAILED" cl_device_partition_failed refl
opencl_err_to_string_lem h cl_kernel_arg_info_not_available =
    read_conditional h.version_1_2 "CL_KERNEL_ARG_INFO_NOT_AVAILABLE"
      cl_kernel_arg_info_not_available refl
opencl_err_to_string_lem h cl_invalid_property =
    read_conditional h.version_1_1 "CL_INVALID_PROPERTY" cl_invalid_property refl
opencl_err_to_string_lem h cl_invalid_image_descriptor =
    read_conditional h.version_1_2 "CL_INVALID_IMAGE_DESCRIPTOR" cl_invalid_image_descriptor refl
opencl_err_to_string_lem h cl_invalid_compiler_options =
    read_conditional h.version_1_2 "CL_INVALID_COMPILER_OPTIONS" cl_invalid_compiler_options refl
opencl_err_to_string_lem h cl_invalid_linker_options =
    read_conditional h.version_1_2 "CL_INVALID_LINKER_OPTIONS" cl_invalid_linker_options refl
opencl_err_to_string_lem h cl_invalid_device_partition_count =
    read_conditional h.version_1_2 "CL_INVALID_DEVICE_PARTITION_COUNT"
      cl_invalid_device_partition_count refl
opencl_err_to_string_lem h cl_invalid_pipe_size =
    read_conditional h.version_2_0 "CL_INVALID_PIPE_SIZE" cl_invalid_pipe_size refl
opencl_err_to_string_lem h cl_invalid_device_queue =
    read_conditional h.version_2_0 "CL_INVALID_DEVICE_QUEUE" cl_invalid_device_queue refl
opencl_err_to_string_lem h cl_invalid_spec_id =
    read_conditional h.version_2_2 "CL_INVALID_SPEC_ID" cl_invalid_spec_id refl
opencl_err_to_string_lem h cl_max_size_restriction_exceeded =
    read_conditional h.version_2_2 "CL_MAX_SIZE_RESTRICTION_EXCEEDED"
      cl_max_size_restriction_exceeded refl
opencl_err_to_string_lem h _ = refl
