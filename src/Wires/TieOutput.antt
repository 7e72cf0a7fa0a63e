-- ===== src/Wires/TieOutput.antt =====
-- Tying a wire to a free output port of a gate: lxc_wire_gate_output of core/facet.c with a wire.
use logxcontroll_v.Base.{
  ℕ, ◌≡◌, ◌≢◌, refl, ◌∙◌, some, [], ◌∷◌, ◌++◌, if◌then◌else◌, ℤ, pos, Ptr, null, ne→eqb, eqb_refl,
}
use logxcontroll_v.Arrays.Tracked.{TrackedArray, IsAllocated}
use logxcontroll_v.Arrays.Nt.{array_nt_append_element}
use logxcontroll_v.Arrays.Nt.Items.{items}
use logxcontroll_v.Arrays.Nt.Append.{append-items}
use logxcontroll_v.Wires.{
  World, PortAccess, direction_out, Message, output_wire_added, with_wire, with_state, with_token,
}
use logxcontroll_v.Wires.Wiring.{
  on_successfull_output_wiring, on_success, tie, lxc_wire_gate_output,
}
use logxcontroll_v.Wires.Laws.{PortLaws}
use logxcontroll_v.Wires.Tie.{private-tie, update_other}

-- What tying the wire to an output port leaves, from `w` to `w'`, before the gate is told.
pub record OutputTied {G : Type 0} (ops : PortAccess G) (junk fresh type : Ptr) (subtype : ℤ)
    (wire g : Ptr) (index : ℕ) (w w' : World G) : Type 0 where
  pub reads : ops.get_wire (w'.state g) type subtype index ≡ some wire
  pub drivers : items (w'.wire wire).drivers ≡ items (w.wire wire).drivers ++ fresh ∷ []
  pub allocated : IsAllocated (w'.wire wire).drivers
  pub drivens : (w'.wire wire).drivens ≡ (w.wire wire).drivens
  pub same_type : (w'.wire wire).type ≡ (w.wire wire).type
  pub token :
      w'.tokenport fresh ≡ record { owner = wire; wire_index = pos junk; gate = g; index = index }
  pub same_states : (h : Ptr) → g ≢ h → w'.state h ≡ w.state h
  pub same_wires : (h : Ptr) → wire ≢ h → w'.wire h ≡ w.wire h
  pub same_enabled : w'.enabled ≡ w.enabled
  pub same_freed : w'.freed ≡ w.freed

-- The gate is told of its new wire where it is enabled.
abbrev pub output_told :
    {G : Type 0} → (Ptr → Message → World G → World G) → Ptr → ℤ → Ptr → ℕ → World G → World G
output_told execute type subtype g index w =
    if w.enabled g then execute g (output_wire_added type subtype index) w else w

module _ {G : Type 0} (execute : Ptr → Message → World G → World G) (junk fresh : Ptr)
    (ops : PortAccess G) {IsPort : G → Ptr → ℤ → ℕ → Type 0} (laws : PortLaws ops IsPort) where
  abbrev output_world : World G → Ptr → Ptr → ℕ → G → TrackedArray → World G
  output_world w wire g index s drivers =
      with_wire
        (with_token (with_state w g s) fresh
          (record { owner = wire; wire_index = pos junk; gate = g; index = index }))
        wire (record (w.wire wire) { drivers = drivers })

  driver_registered :
      (type : Ptr) (subtype : ℤ) (wire g : Ptr) (index : ℕ) (w : World G) (s : G)
      (r' : TrackedArray) (i : ℤ)
      → wire ≢ null
      → array_nt_append_element junk (w.wire wire).drivers fresh ≡ some (i, r')
      → on_successfull_output_wiring execute junk fresh type subtype wire g index (with_state w g s)
        ≡ some (output_told execute type subtype g index (output_world w wire g index s r'))
  unfolding on_successfull_output_wiring
  driver_registered type subtype wire g index w s r' i set appended =
      rw (ne→eqb wire null set, appended) refl

  -- Tying a wire to a free output port of a gate succeeds, where the drivers of the wire are allocated: the
  -- port reads the wire, its drivers are the old ones and then a new tokenport for the gate and the
  -- index, and each other gate and wire is as it was; then an enabled gate is executed with the event.
  pub wire_output-OutputTied :
      (type : Ptr) (subtype : ℤ) (wire g : Ptr) (index : ℕ) (w : World G)
      → wire ≢ null
      → fresh ≢ null
      → (w.wire wire).type ≡ type
      → IsPort (w.state g) type subtype index
      → ops.get_wire (w.state g) type subtype index ≡ some null
      → IsAllocated (w.wire wire).drivers
      → (w' : World G) × (lxc_wire_gate_output execute junk fresh ops type subtype wire g index w
          ≡ some (pos 0, output_told execute type subtype g index w'))
        × OutputTied ops junk fresh type subtype wire g index w w'
  unfolding lxc_wire_gate_output tie on_success
  wire_output-OutputTied type subtype wire g index w set new of_type port free fit =
      let done = laws.tied (w.state g) type subtype index wire port in
      let more = append-items junk (w.wire wire).drivers fresh new fit in
      (
        output_world w wire g index (done.0) (more.0),
        private-tie execute junk fresh ops laws direction_out type subtype wire g index w set
              of_type port free
            ∙ rw (done.1) (
                rw (driver_registered type subtype wire g index w (done.0) (more.0) _ set (more.1))
                  refl),
        record {
          reads = rw (eqb_refl g) (done.2);
          drivers = rw (eqb_refl wire) (more.2);
          allocated = rw (eqb_refl wire) (more.3);
          drivens = rw (eqb_refl wire) refl;
          same_type = rw (eqb_refl wire) refl;
          token = rw (eqb_refl fresh) refl;
          same_states = λ h ne. update_other w.state g h (done.0) ne;
          same_wires = λ h ne. update_other w.wire wire h _ ne;
          same_enabled = refl;
          same_freed = refl;
        },
      )
