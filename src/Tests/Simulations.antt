-- ===== src/Tests/Simulations.antt =====
-- The theorem on a run of the simulator, with a simulator that writes three bytes.
use fpga_runtime.Common.{
  ◌≡◌, ◌+◌, refl, true, false, some, [], ◌∷◌, get_elem?, codes, arith, List, ◌<◌,
}
use fpga_runtime.Common.Eq.{int_Eq, text_Eq}
use fpga_runtime.Common.Int.{pos, int_eq_iff}
use fpga_runtime.Containers.Maps
use fpga_runtime.Containers.Sets
use fpga_runtime.Containers.Sets.{contains}
use fpga_runtime.Exec.{ok}
use fpga_runtime.Tag.{read_write, tag_eq}
use fpga_runtime.Buffer.{buffer_arg, size_in_bytes}
use fpga_runtime.CosimDevice.{
  CosimDevice, Host, output_data_path, or_empty, set_scalar_arg, set_buffer_arg, write_to_device,
}
use fpga_runtime.CosimDevice.Bytes.{or_old}
use fpga_runtime.CosimDevice.Reading.{OthersApart}
use fpga_runtime.CosimDevice.Validity.{IsValid}
use fpga_runtime.Instance.{Arg, scalar, buffer, cosim_device, set_arg, set_args, invoke}
use fpga_runtime.Instance.Simulation.{simulate, invoke_simulated_memory}
use fpga_runtime.Tests.Constructors.{host, process, tool_environ, got_environ}
use fpga_runtime.Tests.{simulated, floats, float_arg}

abbrev pub simulator : Host
simulator = record {
  save_waveform = false;
  dump = λ config. codes "{}";
  run = λ environ argv files.
      (0, Maps.assign (output_data_path (codes "/w") (pos 1)) (9 ∷ 8 ∷ 7 ∷ []) files);
  shell = host.shell;
  env = process.env;
}

abbrev arguments : List Arg
arguments = scalar (6 ∷ []) ∷ buffer floats ∷ []

abbrev prepared : CosimDevice
prepared =
    set_buffer_arg (pos 1) read_write (buffer_arg floats)
      (set_scalar_arg (pos 0) (6 ∷ []) simulated)

simulated-IsValid : IsValid simulated
unfolding Maps.has_key contains
simulated-IsValid = record { distinct = (refl, (refl, tt)); found = λ j h. ground arith }

set_both : set_args (cosim_device simulator) 0 arguments simulated ≡ (ok arguments, prepared)
unfolding set_args set_arg cosim_device
set_both = refl

found_1 : Maps.lookup (pos 1) prepared.buffer_table ≡ some float_arg
unfolding set_buffer_arg set_scalar_arg Maps.insert Maps.lookup
found_1 = refl

stored_1 : contains (pos 1) prepared.store_indices ≡ true
unfolding set_buffer_arg set_scalar_arg Sets.insert contains tag_eq
stored_1 = refl

apart_1 : OthersApart prepared.buffer_table prepared.store_indices (pos 1) float_arg
unfolding set_buffer_arg set_scalar_arg Sets.insert contains tag_eq
apart_1 = λ j other h ne l. absurd (ne ((int_eq_iff j (pos 1)).0 (ground arith)))

byte_2 : 2 < size_in_bytes float_arg
unfolding size_in_bytes
byte_2 = omega arith

simulation_memory_example :
    let t = (invoke (cosim_device simulator) arguments simulated).1 in
    let left = (simulate simulator tool_environ got_environ (write_to_device prepared)).1 in
    t.memory (4096 + 2)
    ≡ or_old
        (get_elem? (or_empty (Maps.lookup (output_data_path (codes "/w") (pos 1)) left)) 2)
        (simulated.memory (4096 + 2))
unfolding set_buffer_arg set_scalar_arg
simulation_memory_example =
    invoke_simulated_memory simulator tool_environ got_environ arguments arguments simulated
      prepared (pos 1) float_arg 2 set_both simulated-IsValid refl stored_1 found_1 apart_1 byte_2
