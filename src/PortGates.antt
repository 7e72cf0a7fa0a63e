-- ===== src/PortGates.antt =====
-- The gates whose ports a port manager keeps: core/builtins/gate_generic.c, the gates "portb", whose
-- managers stand in the behavior, and "porti", whose managers stand in the instance.
pub mod Laws
use logxcontroll_v.Base.{
  ℕ, zero, suc, Option, none, some, Bool, true, false, List, [], ◌∷◌, leb, if◌then◌else◌, replicate,
  realloc, ℤ, pos, Ptr, null, ◌>>=◌,
}
use logxcontroll_v.Ports.{
  FullSignalType, PortManager, PortName, lxc_port_count, lxc_port_get_absindex,
  lxc_generic_get_type_max_index,
}
use logxcontroll_v.Ports.Access.{
  lxc_port_get_wire_safe, lxc_port_wiring, lxc_generic_get_port_label, lxc_port_fill_types,
}
use logxcontroll_v.Wires.{PortAccess}

-- struct lxc_generic_portb_instance with the managers of its behavior
pub record PortbGate : Type 0 where
  pub input_ports : PortManager
  pub output_ports : PortManager
  pub inputs : List Ptr
  pub outputs : List Ptr

unfoldable pub lxc_generic_portb_init : PortManager → PortManager → PortbGate
unfolding lxc_port_count
lxc_generic_portb_init input_ports output_ports = record {
  input_ports = input_ports;
  output_ports = output_ports;
  inputs = replicate (lxc_port_count input_ports) null;
  outputs = replicate (lxc_port_count output_ports) null;
}

unfoldable pub lxc_generic_portb_get_input_types : PortbGate → ℕ → ℤ × List FullSignalType
lxc_generic_portb_get_input_types g max_length = lxc_port_fill_types g.input_ports max_length

unfoldable pub lxc_generic_portb_get_input_label :
    PortbGate → Ptr → ℤ → ℕ → Option (Option PortName)
lxc_generic_portb_get_input_label g signal subtype index =
    lxc_generic_get_port_label g.input_ports signal subtype index

unfoldable pub lxc_generic_portb_get_input_max_index : PortbGate → Ptr → ℤ → Option ℤ
lxc_generic_portb_get_input_max_index g type subtype =
    lxc_generic_get_type_max_index g.input_ports type subtype

unfoldable pub lxc_generic_portb_get_input_wire : PortbGate → Ptr → ℤ → ℕ → Option Ptr
lxc_generic_portb_get_input_wire g type subtype index =
    lxc_port_get_wire_safe g.input_ports type subtype index g.inputs g.input_ports.max_size

unfoldable pub lxc_generic_portb_wire_input : PortbGate → Ptr → ℤ → ℕ → Ptr → Option (ℤ × PortbGate)
lxc_generic_portb_wire_input g type subtype index tp =
    lxc_port_wiring g.input_ports type subtype index g.inputs tp >>= λ (ret, inputs).
    some (ret, record g { inputs = inputs })

unfoldable pub lxc_generic_portb_get_output_types : PortbGate → ℕ → ℤ × List FullSignalType
lxc_generic_portb_get_output_types g max_length = lxc_port_fill_types g.output_ports max_length

unfoldable pub lxc_generic_portb_get_output_label :
    PortbGate → Ptr → ℤ → ℕ → Option (Option PortName)
lxc_generic_portb_get_output_label g signal subtype index =
    lxc_generic_get_port_label g.output_ports signal subtype index

unfoldable pub lxc_generic_portb_get_output_max_index : PortbGate → Ptr → ℤ → Option ℤ
lxc_generic_portb_get_output_max_index g type subtype =
    lxc_generic_get_type_max_index g.output_ports type subtype

unfoldable pub lxc_generic_portb_get_output_wire : PortbGate → Ptr → ℤ → ℕ → Option Ptr
lxc_generic_portb_get_output_wire g type subtype index =
    lxc_port_get_wire_safe g.output_ports type subtype index g.outputs g.output_ports.max_size

unfoldable pub lxc_generic_portb_wire_output :
    PortbGate → Ptr → ℤ → ℕ → Ptr → Option (ℤ × PortbGate)
lxc_generic_portb_wire_output g type subtype index wire =
    lxc_port_wiring g.output_ports type subtype index g.outputs wire >>= λ (ret, outputs).
    some (ret, record g { outputs = outputs })

-- `direction` is true for the inputs.
unfoldable pub lxc_portb_get_absindex : PortbGate → Bool → Ptr → ℤ → ℕ → Option ℤ
lxc_portb_get_absindex g direction type subtype index =
    if direction
    then lxc_port_get_absindex g.input_ports type subtype index
    else lxc_port_get_absindex g.output_ports type subtype index

-- The functions of the prototype for the inputs and for the outputs.
unfoldable pub portb_inputs : PortAccess PortbGate
portb_inputs = record {
  get_types = λ g. lxc_generic_portb_get_input_types g 20;
  get_max_index = lxc_generic_portb_get_input_max_index;
  get_wire = lxc_generic_portb_get_input_wire;
  wire_function = lxc_generic_portb_wire_input;
}

unfoldable pub portb_outputs : PortAccess PortbGate
portb_outputs = record {
  get_types = λ g. lxc_generic_portb_get_output_types g 20;
  get_max_index = lxc_generic_portb_get_output_max_index;
  get_wire = lxc_generic_portb_get_output_wire;
  wire_function = lxc_generic_portb_wire_output;
}

-- struct lxc_generic_porti_instance
pub record PortiGate : Type 0 where
  pub input_ports : PortManager
  pub output_ports : PortManager
  pub inputs_length : ℕ
  pub inputs : List Ptr
  pub outputs_length : ℕ
  pub outputs : List Ptr

-- The lengths stay the zeros of the new memory.
unfoldable pub lxc_generic_porti_init : PortManager → PortManager → PortiGate
unfolding lxc_port_count
lxc_generic_porti_init input_ports output_ports = record {
  input_ports = input_ports;
  output_ports = output_ports;
  inputs_length = 0;
  inputs = replicate (lxc_port_count input_ports) null;
  outputs_length = 0;
  outputs = replicate (lxc_port_count output_ports) null;
}

-- `realloc_zero` from `old` cells to `new` ones writes zeros behind the old ones.
abbrev pub zero_behind : ℕ → List Ptr → List Ptr
zero_behind old [] = []
zero_behind zero (p ∷ arr) = null ∷ zero_behind zero arr
zero_behind (suc old) (p ∷ arr) = p ∷ zero_behind old arr

-- The array and its length.
unfoldable pub force_index_available : PortManager → List Ptr → ℕ → List Ptr × ℕ
unfolding lxc_port_count
force_index_available mngr arr array_length =
    let need = lxc_port_count mngr in
    if leb array_length need
    then (zero_behind array_length (realloc null need arr), need)
    else (arr, array_length)

unfoldable pub lxc_generic_porti_get_input_wire : PortiGate → Ptr → ℤ → ℕ → Option Ptr
lxc_generic_porti_get_input_wire g type subtype index =
    lxc_port_get_wire_safe g.input_ports type subtype index g.inputs g.inputs_length

unfoldable pub lxc_generic_porti_wire_input : PortiGate → Ptr → ℤ → ℕ → Ptr → Option (ℤ × PortiGate)
unfolding force_index_available
lxc_generic_porti_wire_input g type subtype index wire =
    let (inputs, n) = force_index_available g.input_ports g.inputs g.inputs_length in
    lxc_port_wiring g.input_ports type subtype index inputs wire >>= λ (ret, inputs').
    some (ret, record g { inputs = inputs'; inputs_length = n })

unfoldable pub lxc_generic_porti_get_output_wire : PortiGate → Ptr → ℤ → ℕ → Option Ptr
lxc_generic_porti_get_output_wire g type subtype index =
    lxc_port_get_wire_safe g.output_ports type subtype index g.outputs g.outputs_length

unfoldable pub lxc_generic_porti_wire_output :
    PortiGate → Ptr → ℤ → ℕ → Ptr → Option (ℤ × PortiGate)
unfolding force_index_available
lxc_generic_porti_wire_output g type subtype index wire =
    let (outputs, n) = force_index_available g.output_ports g.outputs g.outputs_length in
    lxc_port_wiring g.output_ports type subtype index outputs wire >>= λ (ret, outputs').
    some (ret, record g { outputs = outputs'; outputs_length = n })
