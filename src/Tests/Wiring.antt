-- ===== src/Tests/Wiring.antt =====
-- A boolean gate with one input that core/facet.c wires, and what it drives.
use logxcontroll_v.Base.{
  ℕ, ◌≡◌, ◌≢◌, refl, none, some, Bool, true, false, not, [], ◌∷◌, ◌++◌, ◌==◌, if◌then◌else◌, arith,
  replicate, ℤ, pos, Ptr, null,
}
use logxcontroll_v.Values.{Operations}
use logxcontroll_v.Arrays.Nt.Items.{items}
use logxcontroll_v.Wires.{
  Wire, World, direction_in, direction_out, Message, no_array, lxc_error_port_is_in_use,
  check_types, is_supported, lxc_gate_is_enabled,
}
use logxcontroll_v.Wires.Wiring.{
  lxc_wire_gate_input, lxc_wire_gate_output, private_generic_wiring, with_signal, passed,
}
use logxcontroll_v.Wires.Laws.{PortLaws}
use logxcontroll_v.Wires.Tie.{InputTied, wire_input-InputTied}
use logxcontroll_v.Wires.Unwire.{Unwired, told, unwiring-Unwired}
use logxcontroll_v.Wires.RoundTrip.{wire_unwire-restores}
use logxcontroll_v.Wires.Refused.{wiring_error-unchanged}
use logxcontroll_v.Wires.Drive.{Phase, lxc_drive_wire_value, taken_value}
use logxcontroll_v.Wires.Notify.{notify_all, drive-notify_all}
use logxcontroll_v.BoolGates.{
  BoolInstance, logx_bool_get_input_wire, logx_bool_wire_output, logx_bool_get_supported_types,
  return_1, logx_bool_get_output_wire,
}
use logxcontroll_v.BoolGates.Logic.{
  is_all_input_valid_and_copy, logic_nand, logic_nor, logic_and, logic_or, logic_xor, logic_not,
  logx_bool_execute, logic_function, logic_function_not,
}
use logxcontroll_v.BoolGates.Reads.{all_ready, bools, copy-bools}
use logxcontroll_v.BoolGates.Truth.{execute-drives, logic_function-connectives, and_gate-nor}
use logxcontroll_v.BoolGates.Wiring.{
  bool_inputs, bool_outputs, IsInput, bool_inputs-PortLaws, output_one-overwrites,
}

-- The signal type "bool" stands at 7, the gate at 100, its wires at 50 and 51, its tokenport at 60.
abbrev silent : Ptr → Message → World BoolInstance → World BoolInstance
silent g m w = w

abbrev no_wire : Wire
no_wire = record {
  type = 7;
  subtype = pos 0;
  current_value = null;
  ref_des = none;
  wire_debug_hooks = none;
  drivers = no_array;
  drivens = no_array;
}

abbrev new_world : World BoolInstance
new_world = record {
  wire = λ p. no_wire;
  tokenport = λ p. record { owner = null; wire_index = pos 0; gate = null; index = 0 };
  state = λ g. record { inputs = replicate 21 null; output = null };
  enabled = λ g. false;
  gate_ref_des = λ g. none;
  values = record { refcount = λ p. pos 0; freed = [] };
  freed = [];
}

-- The value 5 is true; the wire 50 holds it.
abbrev wired_world : World BoolInstance
wired_world = record new_world {
  wire = λ p. record no_wire {
    current_value = 5;
    drivens = record { cells = some (60 ∷ null ∷ []); length = 2 };
  };
  tokenport = λ p. record { owner = 50; wire_index = pos 0; gate = 100; index = 0 };
  state = λ g. record { inputs = 60 ∷ replicate 20 null; output = 51 };
}

abbrev no_operations : Operations
no_operations = record { has_ref_diff = λ p. false; has_free = λ p. false }

abbrev no_hook : Ptr → Phase → Ptr → Ptr → ℕ → Ptr → World BoolInstance → World BoolInstance
no_hook e phase wire g i v w = w

abbrev is_five : Ptr → Bool
is_five p = p == 5

wire_input-InputTied_example :
    (w' : World BoolInstance) × (lxc_wire_gate_input silent 99 60
        (bool_inputs 7)
        7
        (pos 0)
        50
        100
        3
        new_world
      ≡ some (pos 0, w'))
    × InputTied (bool_inputs 7) (IsInput 7) 60 7 (pos 0) 50 100 3 new_world w'
unfolding logx_bool_get_input_wire
wire_input-InputTied_example =
    wire_input-InputTied silent 99 60 (bool_inputs 7) (bool_inputs-PortLaws 7 (cc)) 7 (pos 0) 50 100
      3 new_world (cc) (cc) refl (refl, refl, omega arith, refl) refl refl (λ j e. absurd (cc))

unwiring-Unwired_example :
    (w' : World BoolInstance) × (private_generic_wiring silent 99 61
        (bool_inputs 7)
        direction_in
        7
        (pos 0)
        null
        100
        0
        wired_world
      ≡ some (pos 0, told silent direction_in 7 (pos 0) 100 0 w'))
    × Unwired (bool_inputs 7) direction_in 7 (pos 0) 50 100 0 0 60 wired_world w'
unfolding logx_bool_get_input_wire
unwiring-Unwired_example =
    unwiring-Unwired silent 99 61 (bool_inputs 7) (bool_inputs-PortLaws 7 (cc)) direction_in 7
      (pos 0) 100 0 wired_world 60 60 0 (cc) (refl, refl, omega arith, refl) refl refl
      (record { at = refl; same = refl; earlier = λ j x l e. elim l [ ] })

wire_unwire-restores_example :
    (w₁ : World BoolInstance) × (w₂ : World BoolInstance) × (lxc_wire_gate_input silent 99 60
        (bool_inputs 7)
        7
        (pos 0)
        50
        100
        3
        new_world
      ≡ some (pos 0, w₁))
    × (lxc_wire_gate_input silent 99 60 (bool_inputs 7) 7 (pos 0) null 100 3 w₁
        ≡ some (pos 0, told silent direction_in 7 (pos 0) 100 3 w₂))
    × ((bool_inputs 7).get_wire (w₂.state 100) 7 (pos 0) 3 ≡ some null)
    × (items (w₂.wire 50).drivens ≡ items (new_world.wire 50).drivens)
    × (w₂.freed ≡ new_world.freed ++ 60 ∷ [])
    × (lxc_gate_is_enabled new_world 100 ≡ false
        → lxc_wire_gate_input silent 99 60 (bool_inputs 7) 7 (pos 0) null 100 3 w₁
          ≡ some (pos 0, w₂))
unfolding logx_bool_get_input_wire
wire_unwire-restores_example =
    wire_unwire-restores silent 99 60 (bool_inputs 7) (bool_inputs-PortLaws 7 (cc)) 7 (pos 0) 50 100
      3 new_world (cc) (cc) refl (refl, refl, omega arith, refl) refl refl (λ j e. absurd (cc))
      (λ j x e. absurd (cc))

output_accepts :
    (s s' : BoolInstance) (type p : Ptr) (z : ℤ)
    → (bool_outputs 7).wire_function s type (pos 0) 0 p ≡ some (z, s')
    → z ≡ pos 0
unfolding logx_bool_wire_output
output_accepts s s' type p z e = cc

wiring_error-unchanged_example : wired_world ≡ wired_world
unfolding private_generic_wiring with_signal passed check_types is_supported
    logx_bool_get_supported_types return_1 logx_bool_get_output_wire
wiring_error-unchanged_example =
    wiring_error-unchanged silent 99 61 (bool_outputs 7) direction_out 7 (pos 0) 50 100 0
      wired_world wired_world lxc_error_port_is_in_use output_accepts (cc) refl (cc)

drive-notify_all_example :
    (lxc_drive_wire_value no_operations silent (λ g. true) no_hook 100 0 50 6 wired_world
      ≡ some (
          notify_all silent
            (λ g. true)
            50
            7
            6
            (60 ∷ [])
            (taken_value no_operations silent (λ g. true) no_hook 50 6 wired_world)))
    × (((taken_value no_operations silent (λ g. true) no_hook 50 6 wired_world).wire
          50).current_value
        ≡ 6)
drive-notify_all_example =
    drive-notify_all no_operations silent (λ g. true) no_hook (λ g m w p. refl) 100 0 50 6
      wired_world (cc) (cc) refl refl

copy-bools_example :
    is_all_input_valid_and_copy is_five wired_world (60 ∷ replicate 20 null)
    ≡ some (
        if all_ready wired_world (60 ∷ replicate 20 null)
        then some (bools wired_world is_five (60 ∷ replicate 20 null))
        else none)
copy-bools_example = copy-bools is_five wired_world (60 ∷ replicate 20 null) refl

constants_set : (b : Bool) → (if b then 5 else 6) ≢ null
constants_set true = cc
constants_set false = cc

execute-drives_example :
    (logx_bool_execute no_operations silent
        (λ g. true)
        no_hook
        is_five
        5
        6
        logic_not
        100
        wired_world
      ≡ some (
          notify_all silent
            (λ g. true)
            51
            7
            6
            (60 ∷ [])
            (taken_value no_operations silent (λ g. true) no_hook 51 6 wired_world)))
    × (((taken_value no_operations silent (λ g. true) no_hook 51 6 wired_world).wire
          51).current_value
        ≡ 6)
unfolding logic_function logic_function_not
execute-drives_example =
    execute-drives no_operations silent (λ g. true) no_hook is_five 5 6 (λ g m w p. refl)
      constants_set logic_not 100 false wired_world refl refl refl (cc) refl refl

other_output : ◌≢◌ {A = Ptr} 51 50
other_output = cc

output_one-overwrites_example :
    (w' : World BoolInstance) × (lxc_wire_gate_output silent 99 61
        (bool_outputs 7)
        7
        (pos 0)
        50
        100
        1
        wired_world
      ≡ some (pos 0, w'))
    × ((w'.state 100).output ≡ 50)
    × ((w'.wire 51).drivers ≡ (wired_world.wire 51).drivers)
output_one-overwrites_example =
    output_one-overwrites silent 99 61 7 50 100 wired_world (cc) (cc) (cc) refl other_output refl
      refl

logic_function-connectives_example :
    (logic_function logic_nand (true ∷ false ∷ []) ≡ some true)
    × (logic_function logic_nor (true ∷ false ∷ []) ≡ some false)
    × (logic_function logic_or (true ∷ false ∷ []) ≡ some true)
    × (logic_function logic_not (true ∷ false ∷ []) ≡ some false)
    × ((u : Bool) → logic_function logic_xor (true ∷ u ∷ []) ≡ some (if true then not u else u))
logic_function-connectives_example = logic_function-connectives true (false ∷ [])

and_gate-nor_example :
    (logic_function logic_and (true ∷ false ∷ []) ≡ logic_function logic_nor (true ∷ false ∷ []))
    × (logic_function logic_and (true ∷ true ∷ []) ≡ some false)
and_gate-nor_example = and_gate-nor (true ∷ false ∷ []) 1

bool_inputs-PortLaws_example : PortLaws (bool_inputs 7) (IsInput 7)
bool_inputs-PortLaws_example = bool_inputs-PortLaws 7 (cc)
