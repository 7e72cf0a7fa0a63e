-- ===== src/Wires/Unwire.antt =====
-- Taking the wire off a port: private_generic_wiring of core/facet.c with NULL for the wire.
use logxcontroll_v.Base.{
  ℕ, ◌≡◌, ◌≢◌, refl, ◌∙◌, some, [], ◌∷◌, ◌++◌, if◌then◌else◌, ℤ, pos, Ptr, null, ne→eqb, eqb_refl,
  erase_idx,
}
use logxcontroll_v.Arrays.Tracked.{TrackedArray, IsAllocated}
use logxcontroll_v.Arrays.Nt.Items.{items}
use logxcontroll_v.Wires.{
  Wire, World, PortAccess, Direction, direction_in, direction_out, Message, of_value, remove_port,
  lxc_gate_is_enabled, with_wire, with_state, owner_of, ports_of, with_ports,
}
use logxcontroll_v.Wires.Wiring.{
  on_successfull_input_wiring, on_successfull_output_wiring, on_success, unwired, unwire, passed,
  with_signal, private_generic_wiring,
}
use logxcontroll_v.Wires.Ports.{IsFirstPort, remove_port-Removed}
use logxcontroll_v.Wires.Laws.{PortLaws}
use logxcontroll_v.Wires.Tie.{with_signal-passed, update_other}

-- What taking off leaves, from `w` to `w'`, before the gate is told: `owner` is the wire of the
-- port, and its tokenport `q`, at `n`, is the one that is freed.
pub record Unwired {G : Type 0} (ops : PortAccess G) (d : Direction) (type : Ptr) (subtype : ℤ)
    (owner g : Ptr) (index n : ℕ) (q : Ptr) (w w' : World G) : Type 0 where
  pub free : ops.get_wire (w'.state g) type subtype index ≡ some null
  pub ports : items (ports_of d (w'.wire owner)) ≡ erase_idx (items (ports_of d (w.wire owner))) n
  pub allocated : IsAllocated (ports_of d (w'.wire owner))
  pub freed : w'.freed ≡ w.freed ++ q ∷ []
  pub same_states : (h : Ptr) → g ≢ h → w'.state h ≡ w.state h
  pub same_wires : (h : Ptr) → owner ≢ h → w'.wire h ≡ w.wire h
  pub same_enabled : w'.enabled ≡ w.enabled

ports_with_ports : (d : Direction) (o : Wire) (r : TrackedArray) → ports_of d (with_ports d o r) ≡ r
ports_with_ports direction_in o r = refl
ports_with_ports direction_out o r = refl

-- Only the gate of an input port is told, with no value, and only where it is enabled.
abbrev pub told :
    {G : Type 0}
    → (Ptr → Message → World G → World G)
    → Direction
    → Ptr
    → ℤ
    → Ptr
    → ℕ
    → World G
    → World G
told execute direction_in type subtype g index w =
    if lxc_gate_is_enabled w g then execute g (of_value type subtype null index) w else w
told execute direction_out type subtype g index w = w

module _ {G : Type 0} (execute : Ptr → Message → World G → World G) (junk fresh : Ptr)
    (ops : PortAccess G) {IsPort : G → Ptr → ℤ → ℕ → Type 0} (laws : PortLaws ops IsPort) where
  success-told :
      (d : Direction) (type : Ptr) (subtype : ℤ) (g : Ptr) (index : ℕ) (w : World G)
      → on_success execute junk fresh d type subtype null g index w
        ≡ some (told execute d type subtype g index w)
  unfolding on_success on_successfull_input_wiring on_successfull_output_wiring
  success-told direction_in type subtype g index w = refl
  success-told direction_out type subtype g index w = refl

  private-with_null :
      (d : Direction) (type : Ptr) (subtype : ℤ) (g : Ptr) (index : ℕ) (w : World G)
      → IsPort (w.state g) type subtype index
      → private_generic_wiring execute junk fresh ops d type subtype null g index w
        ≡ passed execute junk fresh ops d type subtype null g index w
  unfolding private_generic_wiring
  private-with_null d type subtype g index w port =
      signal_set (laws.is_set (w.state g) type subtype index port)
      ∙ with_signal-passed execute junk fresh ops laws d type subtype null g index w port
    where
      signal_set :
          type ≢ null
          → private_generic_wiring execute junk fresh ops d type subtype null g index w
            ≡ with_signal execute junk fresh ops d type subtype null g index w
      signal_set set = rw (ne→eqb type null set) refl

  passed-unwire :
      (d : Direction) (type : Ptr) (subtype : ℤ) (g : Ptr) (index : ℕ) (w : World G) (wired : Ptr)
      → wired ≢ null
      → IsPort (w.state g) type subtype index
      → ops.get_wire (w.state g) type subtype index ≡ some wired
      → passed execute junk fresh ops d type subtype null g index w
        ≡ unwire execute junk fresh ops d type subtype g index wired w
  unfolding passed
  passed-unwire d type subtype g index w wired set port e =
      let range = laws.in_range (w.state g) type subtype index port in
      rw (range.1) (rw (range.2) (rw e (rw (ne→eqb wired null set) refl)))

  abbrev removed_world : Direction → World G → Ptr → Ptr → Ptr → G → TrackedArray → World G
  removed_world d w owner g q s ports =
      record (with_wire (with_state w g s) owner (with_ports d (w.wire owner) ports)) {
        freed = w.freed ++ q ∷ [];
      }

  unwire-told :
      (d : Direction) (type : Ptr) (subtype : ℤ) (g : Ptr) (index : ℕ) (w : World G) (wired q : Ptr)
      (s : G) (z : ℤ) (r' : TrackedArray)
      → ops.wire_function (w.state g) type subtype index null ≡ some (z, s)
      → remove_port w.tokenport g index (ports_of d (w.wire (owner_of d w wired)))
        ≡ some (some (q, r'))
      → unwire execute junk fresh ops d type subtype g index wired w
        ≡ some (
          pos 0,
          told execute d type subtype g index (removed_world d w (owner_of d w wired) g q s r'),
        )
  unfolding unwire unwired
  unwire-told d type subtype g index w wired q s z r' took gone =
      rw took (rw gone (rw (success-told d type subtype g index _) refl))

  -- Taking the wire off a port to which `wired` is tied succeeds, where the first tokenport of the gate
  -- and the index in its wire's array is `q`: the port is free, the array has lost `q`, which is
  -- freed, and keeps the others in their order, each other gate and wire is as it was; then the gate of an
  -- input port is executed with no value, where it is enabled.
  pub unwiring-Unwired :
      (d : Direction) (type : Ptr) (subtype : ℤ) (g : Ptr) (index : ℕ) (w : World G) (wired q : Ptr)
      (n : ℕ)
      → wired ≢ null
      → IsPort (w.state g) type subtype index
      → ops.get_wire (w.state g) type subtype index ≡ some wired
      → IsAllocated (ports_of d (w.wire (owner_of d w wired)))
      → IsFirstPort w.tokenport g index (items (ports_of d (w.wire (owner_of d w wired)))) n q
      → (w' : World G) × (private_generic_wiring execute junk fresh ops d type subtype null g index
            w
          ≡ some (pos 0, told execute d type subtype g index w'))
        × Unwired ops d type subtype (owner_of d w wired) g index n q w w'
  unwiring-Unwired d type subtype g index w wired q n set port e fit first =
      let owner = owner_of d w wired in
      let done = laws.tied (w.state g) type subtype index null port in
      let gone =
        remove_port-Removed w.tokenport g index (ports_of d (w.wire owner)) n q fit first in
      (
        removed_world d w owner g q (done.0) (gone.0),
        private-with_null d type subtype g index w port
            ∙ passed-unwire d type subtype g index w wired set port e
            ∙ unwire-told d type subtype g index w wired q (done.0) _ (gone.0) (done.1) (gone.1),
        record {
          free = rw (eqb_refl g) (done.2);
          ports = rw (eqb_refl owner) (rw (ports_with_ports d (w.wire owner) (gone.0)) (gone.2));
          allocated =
              rw (eqb_refl owner) (rw (ports_with_ports d (w.wire owner) (gone.0)) (gone.3));
          freed = refl;
          same_states = λ h ne. update_other w.state g h (done.0) ne;
          same_wires = λ h ne. update_other w.wire owner h _ ne;
          same_enabled = refl;
        },
      )
