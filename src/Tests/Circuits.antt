-- ===== src/Tests/Circuits.antt =====
-- Two boolean gates of a circuit that are connected by their names, and the questions for their ports.
use logxcontroll_v.Base.{
  ℕ, ◌≡◌, ◌≢◌, refl, ◌⊎◌, Option, none, some, true, false, List, [], ◌∷◌, ◌++◌, ◌==◌, if◌then◌else◌,
  arith, drop, replicate, pos, Ptr, null,
}
use Prim.Native.String.{String}
use text.Mathlib.Text.{◌==◌ as str_eq}
use logxcontroll_v.Values.{Operations}
use logxcontroll_v.Arrays.Nt.Items.{items}
use logxcontroll_v.Ports.{FullSignalType}
use logxcontroll_v.Wires.{Wire, World, Message, no_array, with_wire, lxc_wire_create}
use logxcontroll_v.Wires.Queries.{
  lxc_gate_get_types, get_io_max, get_io_label, lxc_gate_get_label, index_of_label,
  find_port_by_label, lxc_gate_get_portinfo_by_name, lxc_error_port_doesnot_exists, get_labels,
}
use logxcontroll_v.Wires.Lookup.{Labelled, portinfo_by_name-Labelled}
use logxcontroll_v.Wires.Labels.{all_labels, get_labels-all_labels}
use logxcontroll_v.BoolGates.{
  BoolInstance, logx_bool_get_supported_types, return_20, return_1, logx_bool_get_input_label,
  logx_bool_get_output_label, logx_bool_get_output_wire, logx_bool_get_input_wire,
}
use logxcontroll_v.BoolGates.Wiring.{bool_inputs, bool_outputs, bool_inputs-PortLaws}
use logxcontroll_v.BoolGates.Outputs.{input_queries, output_queries, bool_outputs-PortLaws}
use logxcontroll_v.Wires.Hooks.{HookData, KeyValue}
use logxcontroll_v.Circuits.{MapOps, Circuit}
use logxcontroll_v.Circuits.Together.{lxc_circuit_wire_ports_together}
use logxcontroll_v.Circuits.Connected.{IsConnected, Named, together-IsConnected}

-- The signal type "bool" stands at 7, the gates at 100 and 101.
abbrev silent : Ptr → Message → World BoolInstance → World BoolInstance
silent g m w = w

abbrev no_operations : Operations
no_operations = record { has_ref_diff = λ p. false; has_free = λ p. false }

abbrev no_wire : Wire
no_wire = record {
  type = 7;
  subtype = pos 0;
  current_value = null;
  ref_des = none;
  wire_debug_hooks = none;
  drivers = no_array;
  drivens = no_array;
}

abbrev two_gates : World BoolInstance
two_gates = record {
  wire = λ p. no_wire;
  tokenport = λ p. record { owner = null; wire_index = pos 0; gate = null; index = 0 };
  state = λ g. record { inputs = replicate 21 null; output = null };
  enabled = λ g. false;
  gate_ref_des = λ g. none;
  values = record { refcount = λ p. pos 0; freed = [] };
  freed = [];
}

abbrev bool_type : FullSignalType
bool_type = record { signal = 7; subtype = pos 0 }

-- A map as a list of its entries.
abbrev look_up : List (String × Ptr) → String → Ptr
look_up [] name = null
look_up ((key, p) ∷ m) name = let rest = look_up m name in if str_eq key name then p else rest

abbrev values_of : List (String × Ptr) → List Ptr
values_of [] = []
values_of ((key, p) ∷ m) = p ∷ values_of m

abbrev lists : MapOps (List (String × Ptr))
lists = record {
  hashmap_new = [];
  hashmap_get = look_up;
  hashmap_put = λ m name p. (true, (name, p) ∷ m);
  entries = values_of;
}

abbrev a_circuit : Circuit (List (String × Ptr))
a_circuit = record { wires = []; gates = ("G1", 100) ∷ ("G2", 101) ∷ [] }

portinfo_by_name-Labelled_example :
    ((t : FullSignalType) × (i : ℕ) × (lxc_gate_get_portinfo_by_name
          (input_queries 7)
          (two_gates.state)
          100
          "I3"
        ≡ some (pos 0, some (t, i)))
      × Labelled (input_queries 7) (two_gates.state) 100 "I3" t i)
    ⊎ ((lxc_gate_get_portinfo_by_name (input_queries 7) (two_gates.state) 100 "I3"
          ≡ some (lxc_error_port_doesnot_exists, none))
        × ((t : FullSignalType) (i : ℕ)
            → ¬ Labelled (input_queries 7) (two_gates.state) 100 "I3" t i))
unfolding lxc_gate_get_types logx_bool_get_supported_types
portinfo_by_name-Labelled_example =
    portinfo_by_name-Labelled (input_queries 7) (two_gates.state) 100 "I3" refl

abbrev two_names : FullSignalType → ℕ → Option String
two_names t i = if i == 0 then some "A" else some "B"

get_labels-all_labels_example :
    get_labels (λ t. 2) two_names (some (pos 1, bool_type ∷ [])) (replicate 4 none) 3
    ≡ some (pos 2, all_labels (λ t. 2) two_names (bool_type ∷ []) ++ drop (replicate 4 none) 2)
get_labels-all_labels_example =
    get_labels-all_labels (λ t. 2) two_names bool_type [] (replicate 4 none) 3 (omega arith)
      (omega arith)

I3_info :
    lxc_gate_get_portinfo_by_name (input_queries 7) (two_gates.state) 101 "I3"
    ≡ some (pos 0, some (bool_type, 3))
unfolding lxc_gate_get_portinfo_by_name lxc_gate_get_types logx_bool_get_supported_types
    find_port_by_label index_of_label get_io_max get_io_label lxc_gate_get_label return_20
    logx_bool_get_input_label
I3_info = refl

Q0_info :
    lxc_gate_get_portinfo_by_name (output_queries 7) (two_gates.state) 100 "Q0"
    ≡ some (pos 0, some (bool_type, 0))
unfolding lxc_gate_get_portinfo_by_name lxc_gate_get_types logx_bool_get_supported_types
    find_port_by_label index_of_label get_io_max get_io_label lxc_gate_get_label return_1
    logx_bool_get_output_label
Q0_info = refl

set_seven : ◌≢◌ {A = Ptr} 7 null
set_seven = cc

names :
    Named no_operations silent 99 61 62 50 lists
      (bool_inputs 7)
      (bool_outputs 7)
      (input_queries 7)
      (output_queries 7)
      (bool_inputs-PortLaws 7 set_seven)
      (bool_outputs-PortLaws 7 set_seven)
      bool_type
      100
      0
      101
      3
      a_circuit
      "G1"
      "Q0"
      "W"
      "G2"
      "I3"
      two_gates
unfolding logx_bool_get_output_wire logx_bool_get_input_wire
names = record {
  out_set = cc;
  in_set = cc;
  out_at = refl;
  in_at = refl;
  out_info = Q0_info;
  in_info = I3_info;
  out_free = refl;
  in_free = refl;
  missing = refl;
  put = refl;
}

together-IsConnected_example :
    (w' : World BoolInstance) × (lxc_circuit_wire_ports_together no_operations silent 99 61 62 50
        lists
        (bool_inputs 7)
        (bool_outputs 7)
        (input_queries 7)
        (output_queries 7)
        a_circuit
        "G1"
        "Q0"
        "W"
        "G2"
        "I3"
        true
        two_gates
      ≡ some (pos 0, record a_circuit { wires = ("W", 50) ∷ [] }, w'))
    × IsConnected 61 62
        (bool_inputs 7)
        (bool_outputs 7)
        bool_type
        50
        100
        0
        101
        3
        (with_wire
          (with_wire two_gates 50 (lxc_wire_create 7))
          50
          (record (lxc_wire_create 7) { ref_des = some "W" }))
        w'
    × (items (w'.wire 50).drivers ≡ 61 ∷ [])
    × (items (w'.wire 50).drivens ≡ 62 ∷ [])
together-IsConnected_example =
    together-IsConnected no_operations silent 99 61 62 50 lists (bool_inputs 7) (bool_outputs 7)
      (input_queries 7) (output_queries 7) (bool_inputs-PortLaws 7 set_seven)
      (bool_outputs-PortLaws 7 set_seven) bool_type 100 0 101 3 a_circuit "G1" "Q0" "W" "G2" "I3"
      two_gates names (cc) (cc) (cc) gates_differ refl (refl, refl, refl)
      (refl, refl, omega arith, refl)
  where
    gates_differ : ◌≢◌ {A = Ptr} 100 101
    gates_differ e = omega arith

abbrev a_hook : Ptr → HookData
a_hook p = record { id = some "H"; has_function = true }

abbrev no_entries : Ptr → KeyValue
no_entries p = record { key = none; value = null }
