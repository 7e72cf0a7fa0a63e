-- ===== src/Wires/Wiring.antt =====
-- private_generic_wiring of core/facet.c and what it calls: tying a wire to a port of a gate, and
-- taking it off again.
use logxcontroll_v.Base.{
  ℕ, Option, none, some, [], ◌∷◌, ◌++◌, ◌==◌, ◌&&◌, not, if◌then◌else◌, ℤ, pos, eq_ℤ, Ptr, null,
  ◌>>=◌,
}
use logxcontroll_v.Arrays.Tracked.{TrackedArray}
use logxcontroll_v.Arrays.Nt.{array_nt_append_element, array_nt_contains}
use logxcontroll_v.Wires.{
  Tokenport, Wire, World, PortAccess, Direction, direction_in, direction_out, Message, of_value,
  output_wire_added, lxc_error_entity_out_of_range, lxc_error_port_is_in_use,
  lxc_error_port_is_already_free, lxc_error_bad_call, lxc_error_not_connected_unwiring,
  lxc_error_corruption, remove_port, check_types, out_of_range, lxc_gate_is_enabled, with_wire,
  with_state, with_token, owner_of, ports_of, with_ports,
}

-- `execute` is what the execution of a gate does to the world, `junk` what `realloc` leaves in memory,
-- and `fresh` the tokenport that `malloc` gives.
module _ {G : Type 0} (execute : Ptr → Message → World G → World G) (junk fresh : Ptr) where
  unfoldable pub on_successfull_input_wiring : Ptr → ℤ → Ptr → Ptr → ℕ → World G → Option (World G)
  unfolding lxc_gate_is_enabled
  on_successfull_input_wiring type subtype tp g index w =
      if tp == null
      then some
          (if lxc_gate_is_enabled w g then execute g (of_value type subtype null index) w else w)
      else let t : Tokenport = w.tokenport tp in
        let o : Wire = w.wire t.owner in
        array_nt_append_element junk o.drivens tp >>= λ (ep, drivens).
        array_nt_contains drivens tp >>= λ at. some (
          with_token (with_wire w t.owner (record o { drivens = drivens })) tp
            (record t { wire_index = at }))

  -- The tokenport of a driver: its `wire_index` is what `malloc` leaves.
  unfoldable pub on_successfull_output_wiring : Ptr → ℤ → Ptr → Ptr → ℕ → World G → Option (World G)
  on_successfull_output_wiring type subtype wire g index w =
      if wire == null
      then some w
      else let o : Wire = w.wire wire in
        array_nt_append_element junk o.drivers fresh >>= λ (ep, drivers).
        let w₁ : World G =
          with_wire
            (with_token w fresh
              (record { owner = wire; wire_index = pos junk; gate = g; index = index }))
            wire (record o { drivers = drivers }) in
        some (if w.enabled g then execute g (output_wire_added type subtype index) w₁ else w₁)

  unfoldable pub on_success : Direction → Ptr → ℤ → Ptr → Ptr → ℕ → World G → Option (World G)
  unfolding on_successfull_input_wiring on_successfull_output_wiring
  on_success direction_in type subtype subject g index w =
      on_successfull_input_wiring type subtype subject g index w
  on_success direction_out type subtype subject g index w =
      on_successfull_output_wiring type subtype subject g index w

  -- The answer of remove_port: the tokenport that was found is freed, and the array lacks it.
  unfoldable pub unwired :
      Direction
      → Ptr
      → ℤ
      → Ptr
      → ℕ
      → Ptr
      → World G
      → Option (Ptr × TrackedArray)
      → Option (ℤ × World G)
  unfolding on_success
  unwired d signal subtype g index owner w none = some (lxc_error_not_connected_unwiring, w)
  unwired d signal subtype g index owner w (some (p, ports)) =
      on_success d signal subtype null g index
        (record (with_wire w owner (with_ports d (w.wire owner) ports)) {
          freed = w.freed ++ p ∷ [];
        })
      >>= λ w'. some (pos 0, w')

  -- The branch with no wire, for a port to which `wired` is tied.
  unfoldable pub unwire :
      PortAccess G → Direction → Ptr → ℤ → Ptr → ℕ → Ptr → World G → Option (ℤ × World G)
  unfolding remove_port unwired
  unwire ops d signal subtype g index wired w =
      ops.wire_function (w.state g) signal subtype index null >>= λ (ret, s).
      remove_port w.tokenport g index (ports_of d (w.wire (owner_of d w wired)))
      >>= unwired d signal subtype g index (owner_of d w wired) (with_state w g s)

  -- The memory before an input port is tied: a new tokenport.
  abbrev pub prepared : Direction → Ptr → Ptr → ℕ → World G → World G
  prepared direction_in wire g index w =
      with_token w fresh (record { owner = wire; wire_index = pos 0; gate = g; index = index })
  prepared direction_out wire g index w = w

  abbrev pub subject_of : Direction → Ptr → Ptr
  subject_of direction_in wire = fresh
  subject_of direction_out wire = wire

  -- A tokenport that the gate refused is freed.
  abbrev pub refused : Direction → World G → World G
  refused direction_in w = record w { freed = w.freed ++ fresh ∷ [] }
  refused direction_out w = w

  -- The branch with a wire, for a free port.
  unfoldable pub tie :
      PortAccess G → Direction → Ptr → ℤ → Ptr → Ptr → ℕ → World G → Option (ℤ × World G)
  unfolding on_success
  tie ops d signal subtype wire g index w =
      ops.wire_function (w.state g) signal subtype index (subject_of d wire) >>= λ (ret, s).
      let w₁ : World G = with_state (prepared d wire g index w) g s in
      if eq_ℤ ret (pos 0)
      then (on_success d signal subtype (subject_of d wire) g index w₁ >>= λ w'. some (pos 0, w'))
      else some (ret, refused d w₁)

  -- Behind the label `passed`.
  unfoldable pub passed :
      PortAccess G → Direction → Ptr → ℤ → Ptr → Ptr → ℕ → World G → Option (ℤ × World G)
  unfolding unwire tie
  passed ops d signal subtype wire g index w =
      ops.get_max_index (w.state g) signal subtype >>= λ max.
      if out_of_range index max
      then some (lxc_error_entity_out_of_range, w)
      else (ops.get_wire (w.state g) signal subtype index >>= λ wired.
          if wire == null
          then if wired == null
            then some (lxc_error_port_is_already_free, w)
            else unwire ops d signal subtype g index wired w
          else if wired == null
          then tie ops d signal subtype wire g index w
          else some (lxc_error_port_is_in_use, w))

  -- The checks of a signal that is set.
  unfoldable pub with_signal :
      PortAccess G → Direction → Ptr → ℤ → Ptr → Ptr → ℕ → World G → Option (ℤ × World G)
  unfolding passed check_types
  with_signal ops d signal subtype wire g index w =
      if signal == null
      then some (lxc_error_corruption, w)
      else (check_types (ops.get_types (w.state g)) signal subtype >>= λ c.
          if eq_ℤ c (pos 0) then passed ops d signal subtype wire g index w else some (c, w))

  unfoldable pub private_generic_wiring :
      PortAccess G → Direction → Ptr → ℤ → Ptr → Ptr → ℕ → World G → Option (ℤ × World G)
  unfolding with_signal
  private_generic_wiring ops d signal subtype wire g index w =
      if signal == null
      then if wire == null
        then some (lxc_error_bad_call, w)
        else with_signal ops d (w.wire wire).type subtype wire g index w
      else if not (wire == null) && not (signal == (w.wire wire).type)
      then some (lxc_error_bad_call, w)
      else with_signal ops d signal subtype wire g index w

  unfoldable pub lxc_wire_gate_input :
      PortAccess G → Ptr → ℤ → Ptr → Ptr → ℕ → World G → Option (ℤ × World G)
  unfolding private_generic_wiring
  lxc_wire_gate_input ops type subtype wire g index w =
      private_generic_wiring ops direction_in type subtype wire g index w

  unfoldable pub lxc_wire_gate_output :
      PortAccess G → Ptr → ℤ → Ptr → Ptr → ℕ → World G → Option (ℤ × World G)
  unfolding private_generic_wiring
  lxc_wire_gate_output ops type subtype wire g index w =
      private_generic_wiring ops direction_out type subtype wire g index w
