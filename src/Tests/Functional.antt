-- ===== src/Tests/Functional.antt =====
-- A gate that wraps a function of two inputs, with both inputs wired.
use logxcontroll_v.Base.{
  ℕ, ◌≡◌, refl, none, some, true, false, List, [], ◌∷◌, ◌==◌, if◌then◌else◌, pos, Ptr, null,
}
use logxcontroll_v.Ports.{PortManager, label}
use logxcontroll_v.Values.{Operations, lxc_import_new_value}
use logxcontroll_v.Wires.{World, Message, no_array}
use logxcontroll_v.Wires.Drive.{Phase}
use logxcontroll_v.PortGates.{PortbGate}
use logxcontroll_v.Functional.{functional_gate_execute}
use logxcontroll_v.Functional.Writes.{all_supplied, functional_execute-supplied}

abbrev two_inputs : PortManager
two_inputs = record {
  max_size = 2;
  managed_types = record { signal = 9; subtype = pos 0 } ∷ [];
  to_abs = (0 ∷ 1 ∷ []) ∷ [];
  port_names = label "A" ∷ label "B" ∷ [];
  to_abs_size = 2 ∷ [];
}

abbrev one_output : PortManager
one_output = record {
  max_size = 1;
  managed_types = record { signal = 9; subtype = pos 0 } ∷ [];
  to_abs = (0 ∷ []) ∷ [];
  port_names = label "Q" ∷ [];
  to_abs_size = 1 ∷ [];
}

-- The tokenport at 60 is of the wire 50 with the value 7, that at 61 of the wire 51 with the value 8.
abbrev two_wired : World PortbGate
two_wired = record {
  wire = λ p. record {
    type = 9;
    subtype = pos 0;
    current_value = if p == 50 then 7 else if p == 51 then 8 else null;
    ref_des = none;
    wire_debug_hooks = none;
    drivers = no_array;
    drivens = no_array;
  };
  tokenport =
      λ p. record { owner = if p == 60 then 50 else 51; wire_index = pos 0; gate = 100; index = 0 };
  state = λ g. record {
    input_ports = two_inputs;
    output_ports = one_output;
    inputs = 60 ∷ 61 ∷ [];
    outputs = 52 ∷ [];
  };
  enabled = λ g. false;
  gate_ref_des = λ g. none;
  values = record { refcount = λ p. pos 0; freed = [] };
  freed = [];
}

abbrev plain_values : Operations
plain_values = record { has_ref_diff = λ p. false; has_free = λ p. false }

abbrev quiet : Ptr → Message → World PortbGate → World PortbGate
quiet g m w = w

abbrev unhooked : Ptr → Phase → Ptr → Ptr → ℕ → Ptr → World PortbGate → World PortbGate
unhooked e phase wire g i v w = w

-- The second value is the result.
abbrev second_value : List Ptr → List Ptr
second_value [] = null ∷ []
second_value (v ∷ []) = null ∷ []
second_value (v ∷ u ∷ values) = u ∷ []

functional_execute-supplied_example :
    functional_gate_execute plain_values quiet
      (λ g. true)
      unhooked
      (λ v. 9)
      (λ v. pos 0)
      second_value
      100
      two_wired
    ≡ some (
        all_supplied plain_values quiet
          (λ g. true)
          unhooked
          (λ v. 9)
          (λ v. pos 0)
          (52 ∷ [])
          (8 ∷ [])
          two_wired)
functional_execute-supplied_example =
    functional_execute-supplied plain_values quiet (λ g. true) unhooked (λ v. 9) (λ v. pos 0) 100
      (λ h m w. record { drivens = λ p. refl; hooks = λ p. refl; outputs = refl }) second_value
      two_wired refl refl refl ((λ ne. (refl, refl)), tt)

-- The output wire holds the second value.
output_holds :
    ((all_supplied plain_values quiet
        (λ g. true)
        unhooked
        (λ v. 9)
        (λ v. pos 0)
        (52 ∷ [])
        (8 ∷ [])
        two_wired).wire
      52).current_value
    ≡ 8
unfolding lxc_import_new_value
output_holds = refl
