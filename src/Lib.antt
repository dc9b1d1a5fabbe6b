-- ===== src/Lib.antt =====
-- The runtime of fpga-runtime (src/frt.h, src/frt.cpp and src/frt/): a host program opens a bitstream
-- as an `Instance`, sets arguments, moves buffers, runs the kernels and waits for them.
--
-- The parts, the files that model them, and what they use:
--   Common, Containers   Booleans, lists and integers; `std::unordered_map`, `std::unordered_set`,
--                        `std::map` and `std::sort` as association lists, lists, ascending lists and
--                        a stable sort
--   Exec                 a method of a device: an action on the object that returns or throws, and
--                        keeps the object's changes when it throws
--   Tag, ArgInfo, Buffer src/frt/tag.h, arg_info.h, buffer.h, buffer_arg.h: the arguments' types
--   OpenclUtil           src/frt/opencl_util.h: `OpenclErrToString`, and the test and the text of
--                        `CL_CHECK`
--   Opencl               the OpenCL library, which is not in the repository, as a parameter: a function
--                        `respond` that answers each request, given all requests made before it. A
--                        device keeps its requests in the field `calls`. `Accepts` is a library that
--                        turns nothing down
--   OpenclDevice         src/frt/opencl_device.h and opencl_device.cpp, the base of the two devices:
--                        `set_scalar_arg`, `set_buffer_arg` (SetBufferArg, with the virtual
--                        CreateBuffer as a parameter), `suspend_buffer`, `exec`, `finish_queue`,
--                        `get_args_info`; the times and byte counts in its child Profile, Initialize
--                        in its child of that name
--   XilinxDevice         src/frt/xilinx_opencl_device.cpp: CreateBuffer, SetStreamArg and the transfers;
--                        its children Environ (UpdateEnviron and GetEnviron) and Constructor, which is
--                        an action on the object, the environment of the process and the commands run
--   IntelDevice          src/frt/intel_opencl_device.cpp: the same; its `host_ptr_table_` is a field of
--                        the base's record here, and its child Constructor reads the sections
--   Metadata             the loops over the kernels and arguments of the XML metadata that stand in the
--                        constructors of the two devices
--   Streams              src/frt/stream.h, stream_wrapper.h, xilinx_opencl_stream.cpp
--   CosimDevice          src/frt/tapa_fast_cosim_device.cpp: the simulator behind files; the files and
--                        the host memory in its child Store, the constructor and the destructor in
--                        its child Construction
--   Instance             src/frt.h and src/frt.cpp: the choice of the device and `Invoke`, over the
--                        interface of src/frt/device.h; its children Object (the class `Instance` over
--                        the three devices) and Program (the function `Invoke`, from the file's
--                        contents to the object that it returns). What a host may expect of any
--                        device's buffers is in its children Marks (the abstract state and the laws
--                        that a device owes) and Refinement; what an `Invoke` requests of the
--                        library is in its child Tracing, what several in a row do in
--                        Repetition (for whole programs, in Program/Repetition), what it does to
--                        files and memory in Simulation, and what the errors of `CL_CHECK` say in
--                        Blame
--   Tests                the theorems at concrete objects
--
-- Numbers: an `int` index is an unbounded integer, since the code only adds small counts to it; a
-- `size_t` product is taken modulo 2 ^ 64; the `cl_uint` of a kernel's argument number is taken
-- modulo 2 ^ 32, and `int64_t` times wrap from `cl_ulong`; where their difference overflows the
-- result is undefined, as C++ has it. Handles, addresses and events are numbers with 0 for null.
-- Operands of an operator are evaluated from left to right. All loops run over lists, but for the
-- one over the sections of an ELF file, which counts them down, so there is no fuel. The order in
-- which an unordered container is walked is that of the list, and the theorems hold for every list.
--
-- Not modelled: how a binary is taken apart into the structures of xclbin.h and elf.h, and XML parsing
-- (both are parameters; an element is given by its attributes and children); the shell, `mkdir`,
-- std::filesystem, `mkdtemp`, the simulator's process and the printing of its configuration
-- (parameters); reading the bitstream (its contents are an argument); the log. The arithmetic of
-- `double` is a parameter of the throughputs and times in seconds.
pub mod Common
pub mod Containers
pub mod Exec
pub mod OpenclUtil
pub mod Opencl
pub mod Tag
pub mod Buffer
pub mod ArgInfo
pub mod OpenclDevice
pub mod Metadata
pub mod Streams
pub mod XilinxDevice
pub mod IntelDevice
pub mod CosimDevice
pub mod Instance
pub mod Tests
