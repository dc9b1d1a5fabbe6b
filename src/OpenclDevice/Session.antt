-- ===== src/OpenclDevice/Session.antt =====
-- A host program's use of an OpenCL device: any sequence of calls of its methods, where a call that
-- throws is caught. The methods that a derived class overrides come with what they owe the base.
use fpga_runtime.Common.{ℕ, List, [], ◌∷◌}
use fpga_runtime.Common.Int.{ℤ}
use fpga_runtime.Streams.{StreamWrapper}
use fpga_runtime.Exec.{ok, pure, ◌>>◌}
use fpga_runtime.OpenclDevice.Profile.{
  load_time_nanoseconds, compute_time_nanoseconds, store_time_nanoseconds, load_bytes, store_bytes,
}
use fpga_runtime.OpenclDevice.Measures.Safety.{
  load_time-IsSafe, compute_time-IsSafe, store_time-IsSafe, load_bytes-IsSafe, store_bytes-IsSafe,
}
use fpga_runtime.Opencl.{Library, MemFlag}
use fpga_runtime.Tag.{Tag}
use fpga_runtime.Buffer.{BufferArg}
use fpga_runtime.OpenclDevice.{
  OpenclDevice, Method, set_scalar_arg, set_buffer_arg, suspend_buffer, exec, finish_queue,
}
use fpga_runtime.OpenclDevice.Validity.{IsValid, suspend_buffer-IsValid}
use fpga_runtime.OpenclDevice.Safety.{
  IsSafe, IsMade, Found, bind-IsSafe, set_scalar_arg-IsSafe, set_buffer_arg-IsSafe, exec-IsSafe,
  finish_queue-IsSafe,
}

ends-IsSafe : {A : Type 0} (m : Method A) → IsSafe m → IsSafe (m >> pure tt)
ends-IsSafe m h = bind-IsSafe m _ h (λ _ s v. (v, tt))

-- The virtual methods of `OpenclDevice` that the two devices define, with their laws.
pub record Overrides : Type 0 where
  pub create_buffer : ℤ → List MemFlag → ℕ → ℕ → Method ℕ
  pub set_stream_arg : ℤ → Tag → StreamWrapper → Method StreamWrapper
  pub write_to_device : Method (Unit {0})
  pub read_from_device : Method (Unit {0})
  pub create_buffer-IsMade :
      (index : ℤ) (flags : List MemFlag) (host_ptr size : ℕ) (s : OpenclDevice)
      → IsValid s
      → IsMade index (create_buffer index flags host_ptr size s)
  pub set_stream_arg-IsSafe :
      (index : ℤ) (tag : Tag) (w : StreamWrapper) → IsSafe (set_stream_arg index tag w)
  pub write_to_device-IsSafe : IsSafe write_to_device
  pub read_from_device-IsSafe : IsSafe read_from_device

-- A call of a method.
pub data Command : Type 0 where
  set_scalar : (index : ℤ) (arg : List ℕ) → Command
  set_buffer : (index : ℤ) (tag : Tag) (arg : BufferArg) → Command
  set_stream : (index : ℤ) (tag : Tag) (w : StreamWrapper) → Command
  suspend : (index : ℤ) → Command
  write read launch finish : Command
  load_time compute_time store_time load_size store_size : Command

module _ (lib : Library) (o : Overrides) where
  unfoldable pub perform : Command → Method (Unit {0})
  perform (set_scalar index arg) = set_scalar_arg lib index arg
  perform (set_buffer index tag arg) = set_buffer_arg lib o.create_buffer index tag arg
  perform (set_stream index tag w) = do o.set_stream_arg index tag w; pure tt
  perform (suspend index) = λ s. (ok tt, (suspend_buffer index s).1)
  perform write = o.write_to_device
  perform read = o.read_from_device
  perform launch = exec lib
  perform finish = finish_queue lib
  perform load_time = do load_time_nanoseconds lib; pure tt
  perform compute_time = do compute_time_nanoseconds lib; pure tt
  perform store_time = do store_time_nanoseconds lib; pure tt
  perform load_size = do load_bytes lib; pure tt
  perform store_size = do store_bytes lib; pure tt

  -- The object after a sequence of calls.
  unfoldable pub session : OpenclDevice → List Command → OpenclDevice
  session s [] = s
  session s (c ∷ cs) = session (perform c s).1 cs

  pub perform-IsSafe : (c : Command) → IsSafe (perform c)
  unfolding perform
  perform-IsSafe (set_scalar index arg) = set_scalar_arg-IsSafe lib index arg
  perform-IsSafe (set_buffer index tag arg) =
      set_buffer_arg-IsSafe lib o.create_buffer o.create_buffer-IsMade index tag arg
  perform-IsSafe (set_stream index tag w) =
      ends-IsSafe (o.set_stream_arg index tag w) (o.set_stream_arg-IsSafe index tag w)
  perform-IsSafe (suspend index) = λ s v. (suspend_buffer-IsValid index s v, tt)
  perform-IsSafe write = o.write_to_device-IsSafe
  perform-IsSafe read = o.read_from_device-IsSafe
  perform-IsSafe launch = exec-IsSafe lib
  perform-IsSafe finish = finish_queue-IsSafe lib
  perform-IsSafe load_time = ends-IsSafe (load_time_nanoseconds lib) (load_time-IsSafe lib)
  perform-IsSafe compute_time = ends-IsSafe (compute_time_nanoseconds lib) (compute_time-IsSafe lib)
  perform-IsSafe store_time = ends-IsSafe (store_time_nanoseconds lib) (store_time-IsSafe lib)
  perform-IsSafe load_size = ends-IsSafe (load_bytes lib) (load_bytes-IsSafe lib)
  perform-IsSafe store_size = ends-IsSafe (store_bytes lib) (store_bytes-IsSafe lib)

  -- From a valid device, whatever the host calls of the methods for arguments, streams, suspension,
  -- transfers, launches, waiting, times and byte counts, in whatever order, and whatever the library
  -- answers, for any overrides of the four virtual methods that keep their laws,
  -- every index marked for transfer is marked once and has a buffer, and no call throws
  -- `std::out_of_range`.
  pub session-IsFine :
      (s : OpenclDevice) (cs : List Command) (c : Command)
      → IsValid s
      → IsValid (session s cs) × Found (perform c (session s cs)).0
  unfolding session
  session-IsFine s [] c v = (v, (perform-IsSafe c s v).1)
  session-IsFine s (d ∷ cs) c v = session-IsFine (perform d s).1 cs c (perform-IsSafe d s v).0
