-- ===== src/Instance/Arguments.antt =====
-- Setting the arguments of a program on a Xilinx device keeps its tables valid.
use fpga_runtime.Common.{ℕ, ◌+◌, List, [], ◌∷◌}
use fpga_runtime.Common.Int.{ℤ, pos}
use fpga_runtime.Opencl.{Library}
use fpga_runtime.Tag.{Tag}
use fpga_runtime.Buffer.{BufferArg, buffer_arg}
use fpga_runtime.OpenclDevice.{set_scalar_arg}
use fpga_runtime.OpenclDevice.Safety.{
  IsSafe, bind-IsSafe, set_scalar_arg-IsSafe, set_buffer_arg-IsSafe,
}
use fpga_runtime.XilinxDevice.{set_stream_arg, set_buffer, create_buffer}
use fpga_runtime.XilinxDevice.Safety.{xilinx_overrides, set_stream_arg-IsSafe}
use fpga_runtime.Instance.{Arg, scalar, buffer, stream, xilinx_device, set_arg, set_args}

module _ (lib : Library) where
  set_buffer-IsSafe :
      (index : ℤ) (tag : Tag) (arg : BufferArg) → IsSafe (set_buffer lib index tag arg)
  unfolding set_buffer
  set_buffer-IsSafe =
      set_buffer_arg-IsSafe lib (create_buffer lib) (xilinx_overrides lib).create_buffer-IsMade

  set_arg-IsSafe : (index : ℕ) (arg : Arg) → IsSafe (set_arg (xilinx_device lib) index arg)
  unfolding set_arg xilinx_device
  set_arg-IsSafe index (scalar bytes) =
      bind-IsSafe (set_scalar_arg lib (pos index) bytes) _
        (set_scalar_arg-IsSafe lib (pos index) bytes) (λ _ s v. (v, tt))
  set_arg-IsSafe index (buffer b) =
      bind-IsSafe (set_buffer lib (pos index) b.tag (buffer_arg b)) _
        (set_buffer-IsSafe (pos index) b.tag (buffer_arg b)) (λ _ s v. (v, tt))
  set_arg-IsSafe index (stream tag w) =
      bind-IsSafe (set_stream_arg lib (pos index) tag w) _
        (set_stream_arg-IsSafe lib (pos index) tag w) (λ _ s v. (v, tt))

  -- Setting any arguments from any number on.
  pub set_args-IsSafe :
      (index : ℕ) (args : List Arg) → IsSafe (set_args (xilinx_device lib) index args)
  unfolding set_args
  set_args-IsSafe index [] s v = (v, tt)
  set_args-IsSafe index (arg ∷ rest) s v =
      bind-IsSafe (set_arg (xilinx_device lib) index arg) _ (set_arg-IsSafe index arg)
        (λ a.
          bind-IsSafe (set_args (xilinx_device lib) (index + 1) rest) _
            (set_args-IsSafe (index + 1) rest) (λ _ t w. (w, tt)))
        s v
