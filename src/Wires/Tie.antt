-- ===== src/Wires/Tie.antt =====
-- Tying a wire to a free input port of a gate: lxc_wire_gate_input of core/facet.c with a wire.
use logxcontroll_v.Base.{
  ℕ, ◌≡◌, ◌≢◌, refl, ◌∙◌, ap, subst, inl, inr, some, List, [], ◌∷◌, ◌++◌, ℤ, pos, negsuc, Ptr, null,
  length, get_elem?, get_elem?-append_cases, get_elem?-append_last, ne→eqb, eqb_refl,
}
use logxcontroll_v.Arrays.Index.{IsFirst}
use logxcontroll_v.Arrays.Tracked.{TrackedArray, IsAllocated}
use logxcontroll_v.Arrays.Nt.{array_nt_append_element, array_nt_contains}
use logxcontroll_v.Arrays.Nt.Items.{items}
use logxcontroll_v.Arrays.Nt.Append.{append-items}
use logxcontroll_v.Arrays.Nt.Search.{contains-IsFirst}
use logxcontroll_v.Wires.{
  Tokenport, World, PortAccess, Direction, direction_in, Message, update, with_wire, with_state,
  with_token,
}
use logxcontroll_v.Wires.Wiring.{
  on_successfull_input_wiring, on_success, prepared, tie, passed, with_signal,
  private_generic_wiring, lxc_wire_gate_input,
}
use logxcontroll_v.Wires.Laws.{IsOther, PortLaws}

-- The search for what was appended last, and not before.
first_at_end :
    (p : Ptr) (xs : List Ptr) (z : ℤ)
    → ((j : ℕ) → get_elem? xs j ≢ some p)
    → IsFirst p (xs ++ p ∷ []) z
    → z ≡ pos (length xs)
first_at_end p xs (pos i) new h = elim (get_elem?-append_cases xs p i p (h.0)) [
  | inl (l, e) ↦ absurd (new i e)
  | inr (l, e) ↦ ap pos l
]
first_at_end p xs (negsuc n) new h = absurd (h.1 (length xs) (get_elem?-append_last xs p))

pub update_self : {A : Type 0} → (f : Ptr → A) (p : Ptr) (v : A) → update f p v p ≡ v
update_self f p v = rw (eqb_refl p) refl

pub update_other : {A : Type 0} → (f : Ptr → A) (p q : Ptr) (v : A) → p ≢ q → update f p v q ≡ f q
update_other f p q v ne = rw (ne→eqb p q ne) refl

-- The calls in front of the branch on the wire succeed for a port.
module _ {G : Type 0} (execute : Ptr → Message → World G → World G) (junk fresh : Ptr)
    (ops : PortAccess G) {IsPort : G → Ptr → ℤ → ℕ → Type 0} (laws : PortLaws ops IsPort) where
  pub with_signal-passed :
      (d : Direction) (type : Ptr) (subtype : ℤ) (wire g : Ptr) (index : ℕ) (w : World G)
      → IsPort (w.state g) type subtype index
      → with_signal execute junk fresh ops d type subtype wire g index w
        ≡ passed execute junk fresh ops d type subtype wire g index w
  unfolding with_signal
  with_signal-passed d type subtype wire g index w port =
      rw (ne→eqb type null (laws.is_set (w.state g) type subtype index port))
        (rw (laws.supported (w.state g) type subtype index port) refl)

  -- The call for a free port, and one for a port that is tied.
  pub passed-tie :
      (d : Direction) (type : Ptr) (subtype : ℤ) (wire g : Ptr) (index : ℕ) (w : World G)
      → wire ≢ null
      → IsPort (w.state g) type subtype index
      → ops.get_wire (w.state g) type subtype index ≡ some null
      → passed execute junk fresh ops d type subtype wire g index w
        ≡ tie execute junk fresh ops d type subtype wire g index w
  unfolding passed
  passed-tie d type subtype wire g index w set port free =
      let range = laws.in_range (w.state g) type subtype index port in
      rw (range.1) (rw (range.2) (rw free (rw (ne→eqb wire null set) refl)))

  private-with_signal :
      (d : Direction) (type : Ptr) (subtype : ℤ) (wire g : Ptr) (index : ℕ) (w : World G)
      → type ≢ null
      → wire ≢ null
      → (w.wire wire).type ≡ type
      → private_generic_wiring execute junk fresh ops d type subtype wire g index w
        ≡ with_signal execute junk fresh ops d type subtype wire g index w
  unfolding private_generic_wiring
  private-with_signal d type subtype wire g index w typed set of_type =
      rw (ne→eqb type null typed) (rw (ne→eqb wire null set) (rw of_type (rw (eqb_refl type) refl)))

  pub private-tie :
      (d : Direction) (type : Ptr) (subtype : ℤ) (wire g : Ptr) (index : ℕ) (w : World G)
      → wire ≢ null
      → (w.wire wire).type ≡ type
      → IsPort (w.state g) type subtype index
      → ops.get_wire (w.state g) type subtype index ≡ some null
      → private_generic_wiring execute junk fresh ops d type subtype wire g index w
        ≡ tie execute junk fresh ops d type subtype wire g index w
  private-tie d type subtype wire g index w set of_type port free =
      private-with_signal d type subtype wire g index w
        (laws.is_set (w.state g) type subtype index port) set of_type
      ∙ with_signal-passed d type subtype wire g index w port
      ∙ passed-tie d type subtype wire g index w set port free

-- What tying the tokenport `fresh` of the wire to an input port leaves, from `w` to `w'`.
pub record InputTied {G : Type 0} (ops : PortAccess G) (IsPort : G → Ptr → ℤ → ℕ → Type 0)
    (fresh type : Ptr) (subtype : ℤ) (wire g : Ptr) (index : ℕ) (w w' : World G) : Type 0 where
  pub reads : ops.get_wire (w'.state g) type subtype index ≡ some fresh
  pub port : IsPort (w'.state g) type subtype index
  pub others :
      (type' : Ptr) (subtype' : ℤ) (index' : ℕ)
      → IsPort (w.state g) type' subtype' index'
      → IsOther type subtype index type' subtype' index'
      → ops.get_wire (w'.state g) type' subtype' index'
        ≡ ops.get_wire (w.state g) type' subtype' index'
  pub drivens : items (w'.wire wire).drivens ≡ items (w.wire wire).drivens ++ fresh ∷ []
  pub allocated : IsAllocated (w'.wire wire).drivens
  pub drivers : (w'.wire wire).drivers ≡ (w.wire wire).drivers
  pub token : w'.tokenport fresh ≡ record {
    owner = wire;
    wire_index = pos (length (items (w.wire wire).drivens));
    gate = g;
    index = index;
  }
  pub same_states : (h : Ptr) → g ≢ h → w'.state h ≡ w.state h
  pub same_wires : (h : Ptr) → wire ≢ h → w'.wire h ≡ w.wire h
  pub same_tokens : (h : Ptr) → fresh ≢ h → w'.tokenport h ≡ w.tokenport h
  pub same_freed : w'.freed ≡ w.freed
  pub same_enabled : w'.enabled ≡ w.enabled

module _ {G : Type 0} (execute : Ptr → Message → World G → World G) (junk fresh : Ptr)
    (ops : PortAccess G) {IsPort : G → Ptr → ℤ → ℕ → Type 0} (laws : PortLaws ops IsPort) where
  -- The tokenport before its index is known.
  abbrev new_token : Ptr → Ptr → ℕ → ℤ → Tokenport
  new_token wire g index z = record { owner = wire; wire_index = z; gate = g; index = index }

  abbrev tied_world : World G → Ptr → Ptr → ℕ → G → TrackedArray → ℤ → World G
  tied_world w wire g index s drivens z =
      with_token
        (with_wire (with_state (prepared execute junk fresh direction_in wire g index w) g s) wire
          (record (w.wire wire) { drivens = drivens }))
        fresh (new_token wire g index z)

  registered :
      (type : Ptr) (subtype : ℤ) (wire g : Ptr) (index : ℕ) (w : World G) (s : G)
      (r' : TrackedArray) (i z : ℤ)
      → fresh ≢ null
      → array_nt_append_element junk (w.wire wire).drivens fresh ≡ some (i, r')
      → array_nt_contains r' fresh ≡ some z
      → on_successfull_input_wiring execute junk fresh type subtype fresh g index
          (with_state (prepared execute junk fresh direction_in wire g index w) g s)
        ≡ some (tied_world w wire g index s r' z)
  unfolding on_successfull_input_wiring
  registered type subtype wire g index w s r' i z set appended found =
      rw (ne→eqb fresh null set) (rw (eqb_refl fresh) (rw appended (rw found refl)))

  -- Tying a wire to a free input port of a gate succeeds, where `fresh` is a new tokenport of the
  -- wire's array: the port reads it, the wire's driven tokenports are the old ones and then the new one,
  -- which knows its wire, its place among them, the gate and the index; each other port, gate, wire
  -- and tokenport and what is enabled is as it was, and nothing is freed, for an enabled gate as
  -- well.
  pub wire_input-InputTied :
      (type : Ptr) (subtype : ℤ) (wire g : Ptr) (index : ℕ) (w : World G)
      → wire ≢ null
      → fresh ≢ null
      → (w.wire wire).type ≡ type
      → IsPort (w.state g) type subtype index
      → ops.get_wire (w.state g) type subtype index ≡ some null
      → IsAllocated (w.wire wire).drivens
      → ((j : ℕ) → get_elem? (items (w.wire wire).drivens) j ≢ some fresh)
      → (w' : World G) × (lxc_wire_gate_input execute junk fresh ops type subtype wire g index w
          ≡ some (pos 0, w'))
        × InputTied ops IsPort fresh type subtype wire g index w w'
  unfolding lxc_wire_gate_input tie on_success
  wire_input-InputTied type subtype wire g index w set new of_type port free fit absent =
      let done = laws.tied (w.state g) type subtype index fresh port in
      let more = append-items junk (w.wire wire).drivens fresh new fit in
      let found = contains-IsFirst (more.0) fresh (more.3) in
      let z : found.0 ≡ pos (length (items (w.wire wire).drivens)) =
        first_at_end fresh (items (w.wire wire).drivens) (found.0) absent
          (subst (λ l. IsFirst fresh l (found.0)) (more.2) (found.2)) in
      let w' = tied_world w wire g index (done.0) (more.0) (found.0) in
      (
        w',
        private-tie execute junk fresh ops laws direction_in type subtype wire g index w set of_type
              port free
            ∙ rw (done.1) (
                rw
                  (registered type subtype wire g index w (done.0) (more.0) _ (found.0) new (more.1)
                    (found.1))
                  refl),
        record {
          reads = rw (eqb_refl g) (done.2);
          port = rw (eqb_refl g) (done.3 type subtype index port);
          others = λ t u j p o. rw (eqb_refl g) (done.4 t u j p o);
          drivens = rw (eqb_refl wire) (more.2);
          allocated = rw (eqb_refl wire) (more.3);
          drivers = rw (eqb_refl wire) refl;
          token = rw (eqb_refl fresh) (rw z refl);
          same_states = λ h ne. update_other w.state g h (done.0) ne;
          same_wires = λ h ne. update_other w.wire wire h _ ne;
          same_tokens = λ h ne. rw (ne→eqb fresh h ne) refl;
          same_freed = refl;
          same_enabled = refl;
        },
      )
