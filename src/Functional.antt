-- ===== src/Functional.antt =====
-- Gates that wrap a pure function, core/builtins/functional_wrapper.c, and the values that such gates
-- read and republish, core/utils/lxc_utils.c. `none` is an access outside of an array.
pub mod Reads
pub mod Writes
use logxcontroll_v.Base.{
  ℕ, zero, suc, Option, none, some, Bool, true, false, List, [], ◌∷◌, ◌++◌, ◌==◌, leb, ◌&&◌, not,
  if◌then◌else◌, get_elem?, ℤ, pos, negsuc, eq_ℤ, Ptr, null, ◌>>=◌,
}
use logxcontroll_v.Values.{Operations, lxc_unreference_value}
use logxcontroll_v.Wires.{Wire, World, Message}
use logxcontroll_v.Wires.Drive.{Phase, lxc_get_token_value, lxc_drive_wire_value}
use logxcontroll_v.PortGates.{PortbGate, lxc_portb_get_absindex}

-- The loop that reads the inputs, over the cells from some index on, with the rounds that are left and the
-- values so far; `none` inside where an input is not wired or has no value. To absorb and to release a
-- token does nothing: it is wire_direct_propagate_noop_tp.
unfoldable pub read_inputs :
    {G : Type 0} → World G → ℕ → List Ptr → List Ptr → Option (Option (List Ptr))
unfolding lxc_get_token_value
read_inputs w zero inputs values = some (some values)
read_inputs w (suc rounds) [] values = none
read_inputs w (suc rounds) (tp ∷ inputs) values =
    let rest = read_inputs w rounds inputs (values ++ lxc_get_token_value w tp ∷ []) in
    if tp == null then some none else if lxc_get_token_value w tp == null then some none else rest

unfoldable pub lxc_get_value_from_tokenport_array :
    {G : Type 0} → World G → List Ptr → ℕ → Option Ptr
unfolding lxc_get_token_value
lxc_get_value_from_tokenport_array w tokenports index =
    get_elem? tokenports index >>= λ tp. some (lxc_get_token_value w tp)

unfoldable pub lxc_get_value_safe_from_tokenport_array :
    {G : Type 0} → World G → List Ptr → ℕ → ℕ → Option Ptr
unfolding lxc_get_token_value
lxc_get_value_safe_from_tokenport_array w tokenports max_length index =
    if leb max_length index
    then some null
    else (get_elem? tokenports index >>= λ tp. some (lxc_get_token_value w tp))

-- `execute`, `has_behavior` and `hook` as for lxc_drive_wire_value; a value has a type and a subtype, and
-- `function` is the wrapped function: the cells of `out` for the values of the inputs.
module _ (ops : Operations) (execute : Ptr → Message → World PortbGate → World PortbGate)
    (has_behavior : Ptr → Bool)
    (hook : Ptr → Phase → Ptr → Ptr → ℕ → Ptr → World PortbGate → World PortbGate)
    (type_of : Ptr → Ptr) (subtype_of : Ptr → ℤ) (function : List Ptr → List Ptr) where
  -- One output wire gets its value, at the output 0 of the gate, where both are there and of one type.
  unfoldable pub publish : Ptr → Ptr → Ptr → World PortbGate → Option (World PortbGate)
  unfolding lxc_drive_wire_value
  publish g o v w =
      if not (o == null)
        && not (v == null)
        && (w.wire o).type == type_of v
        && eq_ℤ (w.wire o).subtype (subtype_of v)
      then lxc_drive_wire_value ops execute has_behavior hook g 0 o v w
      else some w

  abbrev pub given_up : Ptr → World PortbGate → World PortbGate
  given_up v w =
      if v == null then w else record w { values = (lxc_unreference_value ops w.values v).1 }

  -- The loop that writes the outputs from `i` on, with the rounds that are left.
  unfoldable pub write_outputs : Ptr → ℕ → ℕ → List Ptr → World PortbGate → Option (World PortbGate)
  unfolding publish
  write_outputs g zero i out w = some w
  write_outputs g (suc rounds) i [] w = none
  write_outputs g (suc rounds) i (v ∷ out) w = get_elem? (w.state g).outputs i >>= λ o.
      publish g o v w >>= λ w'. write_outputs g rounds (suc i) out (given_up v w')

  unfoldable pub written : Ptr → Option (List Ptr) → World PortbGate → Option (World PortbGate)
  unfolding write_outputs
  written g none w = some w
  written g (some values) w =
      write_outputs g (w.state g).output_ports.max_size 0 (function values) w

  unfoldable pub functional_gate_execute : Ptr → World PortbGate → Option (World PortbGate)
  unfolding read_inputs written
  functional_gate_execute g w =
      read_inputs w (w.state g).input_ports.max_size (w.state g).inputs [] >>= λ read.
      written g read w

  -- `internal` is what access_internal_value gives for an index: the value at the address, `none` for NULL.
  -- The tokenport is read from the inputs of the gate.
  unfoldable pub republish_at :
      Ptr → ℕ → (ℕ → Option Ptr) → ℤ → World PortbGate → Option (World PortbGate)
  unfolding lxc_drive_wire_value
  republish_at g index internal (negsuc n) w = some w
  republish_at g index internal (pos abs) w = elim (internal abs) [
    | none ↦ some w
    | some v ↦ get_elem? (w.state g).inputs abs >>= λ tp.
        if tp == null
        then some w
        else lxc_drive_wire_value ops execute has_behavior hook g index (w.tokenport tp).owner v w
  ]

  unfoldable pub lxc_portb_republish_internal_value :
      Ptr → Ptr → ℤ → ℕ → (ℕ → Option Ptr) → World PortbGate → Option (World PortbGate)
  unfolding republish_at lxc_portb_get_absindex
  lxc_portb_republish_internal_value g signal subtype index internal w =
      lxc_portb_get_absindex (w.state g) false signal subtype index >>= λ abs.
      republish_at g index internal abs w
