-- ===== src/Circuits/Together.antt =====
-- lxc_circuit_wire_ports_together of core/facet.c.
use logxcontroll_v.Base.{
  ℕ, Option, none, some, Bool, ◌==◌, not, if◌then◌else◌, ℤ, pos, eq_ℤ, Ptr, null, ◌>>=◌,
}
use Prim.Native.String.{String}
use logxcontroll_v.Values.{Operations}
use logxcontroll_v.Ports.{FullSignalType, same_type}
use logxcontroll_v.Wires.{
  World, PortAccess, Message, lxc_error_port_is_in_use, lxc_error_type_not_supported,
}
use logxcontroll_v.Wires.Wiring.{lxc_wire_gate_input, lxc_wire_gate_output}
use logxcontroll_v.Wires.Queries.{PortQueries, lxc_gate_get_portinfo_by_name}
use logxcontroll_v.Circuits.{
  MapOps, Circuit, lxc_circuit_get_wire_by_refdes, lxc_circuit_get_gate_by_refdes, create_wire,
  lxc_wire_destroy, lxc_error_entity_not_found, lxc_error_type_mismatch,
  lxc_error_already_has_driver,
}

-- A port of a gate, or an error: the gate has to be there, and to have the port.
unfoldable pub named_port :
    {G : Type 0} → PortQueries G → World G → Ptr → String → Option (ℤ × Option (FullSignalType × ℕ))
unfolding lxc_gate_get_portinfo_by_name
named_port queries w gate port =
    if gate == null
    then some (lxc_error_entity_not_found, none)
    else lxc_gate_get_portinfo_by_name queries w.state gate port

-- `execute` is what the execution of a gate does, `fresh_out` and `fresh_in` are the new tokenports, and
-- `address` is the new wire.
module _ {G M : Type 0} (ops : Operations) (execute : Ptr → Message → World G → World G)
    (junk fresh_out fresh_in address : Ptr) (maps : MapOps M) (ins outs : PortAccess G)
    (in_queries out_queries : PortQueries G) where
  -- The two calls at the end.
  unfoldable pub connect :
      FullSignalType
      → Ptr
      → Ptr
      → ℕ
      → Ptr
      → ℕ
      → Circuit M
      → World G
      → Option (ℤ × Circuit M × World G)
  connect t wire out out_index in_gate in_index circ w =
      lxc_wire_gate_output execute junk fresh_out outs t.signal t.subtype wire out out_index w
      >>= λ (status, w₁).
          if not (eq_ℤ status (pos 0))
          then some (status, circ, w₁)
          else (lxc_wire_gate_input execute junk fresh_in ins t.signal t.subtype wire in_gate
                in_index w₁
              >>= λ (status', w₂). some (status', circ, w₂))

  -- The wire, which is made where it is not there: its name is filed with the answer `false`.
  unfoldable pub with_new_wire :
      FullSignalType
      → String
      → Ptr
      → ℕ
      → Ptr
      → ℕ
      → Circuit M
      → World G
      → Option (ℤ × Circuit M × World G)
  unfolding connect create_wire lxc_wire_destroy
  with_new_wire t name out out_index in_gate in_index circ w =
      if t.signal == null
      then none
      else (let (failed, circ', w₁) = create_wire maps w circ address name t.signal in
          if failed
          then some (pos 1, circ', lxc_wire_destroy ops w₁ address)
          else connect t address out out_index in_gate in_index circ' w₁)

  unfoldable pub with_wire_named :
      FullSignalType
      → String
      → Bool
      → Ptr
      → ℕ
      → Ptr
      → ℕ
      → Circuit M
      → World G
      → Option (ℤ × Circuit M × World G)
  unfolding connect with_new_wire lxc_circuit_get_wire_by_refdes
  with_wire_named t name create out out_index in_gate in_index circ w =
      let found = lxc_circuit_get_wire_by_refdes maps circ (some name) in
      if found == null
      then if not create
        then some (lxc_error_entity_not_found, circ, w)
        else with_new_wire t name out out_index in_gate in_index circ w
      else if not (same_type t (w.wire found).type (w.wire found).subtype)
      then some (lxc_error_type_mismatch, circ, w)
      else if not ((w.wire found).drivers.length == 0)
      then some (lxc_error_already_has_driver, circ, w)
      else connect t found out out_index in_gate in_index circ w

  -- The checks of the input, behind those of the output.
  unfoldable pub check_input :
      FullSignalType
      → ℕ
      → Ptr
      → String
      → Ptr
      → Option (FullSignalType × ℕ)
      → ℤ
      → Bool
      → Circuit M
      → World G
      → Option (ℤ × Circuit M × World G)
  unfolding with_wire_named
  check_input t out_index out name in_gate none stat create circ w = some (stat, circ, w)
  check_input t out_index out name in_gate (some (u, in_index)) stat create circ w =
      if not (same_type t u.signal u.subtype)
      then some (lxc_error_type_not_supported, circ, w)
      else (ins.get_wire (w.state in_gate) t.signal t.subtype in_index >>= λ tp.
          if not (tp == null)
          then some (lxc_error_port_is_in_use, circ, w)
          else with_wire_named t name create out out_index in_gate in_index circ w)

  unfoldable pub check_output :
      Option (FullSignalType × ℕ)
      → Ptr
      → String
      → String
      → String
      → ℤ
      → Bool
      → Circuit M
      → World G
      → Option (ℤ × Circuit M × World G)
  unfolding check_input named_port lxc_circuit_get_gate_by_refdes
  check_output none out name in_name in_port stat create circ w = some (stat, circ, w)
  check_output (some (t, out_index)) out name in_name in_port stat create circ w =
      outs.get_wire (w.state out) t.signal t.subtype out_index >>= λ tp.
      if not (tp == null)
      then some (lxc_error_port_is_in_use, circ, w)
      else (let in_gate = lxc_circuit_get_gate_by_refdes maps circ in_name in
          named_port in_queries w in_gate in_port >>= λ (stat', found).
          check_input t out_index out name in_gate found stat' create circ w)

  unfoldable pub lxc_circuit_wire_ports_together :
      Circuit M
      → String
      → String
      → String
      → String
      → String
      → Bool
      → World G
      → Option (ℤ × Circuit M × World G)
  unfolding check_output named_port lxc_circuit_get_gate_by_refdes
  lxc_circuit_wire_ports_together circ out_name out_port wire_name in_name in_port create w =
      let out = lxc_circuit_get_gate_by_refdes maps circ out_name in
      named_port out_queries w out out_port >>= λ (stat, found).
      check_output found out wire_name in_name in_port stat create circ w
