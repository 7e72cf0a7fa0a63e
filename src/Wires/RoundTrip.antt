-- ===== src/Wires/RoundTrip.antt =====
-- A wire tied to an input port and taken off again: lxc_wire_gate_input of core/facet.c, both ways.
use logxcontroll_v.Base.{
  ℕ, ◌≡◌, ◌≢◌, refl, sym, ◌∙◌, ap, subst, some, true, false, List, [], ◌∷◌, ◌++◌, ℤ, pos, Ptr, null,
  length, get_elem?, get_elem?-append_left, get_elem?-append_last, erase_idx, eqb_refl, inl, inr,
  ◌==◌, Bool-cases,
}
use logxcontroll_v.Arrays.Tracked.{IsAllocated}
use logxcontroll_v.Arrays.Nt.Items.{items}
use logxcontroll_v.Wires.{
  Tokenport, World, PortAccess, direction_in, Message, owner_of, lxc_gate_is_enabled,
}
use logxcontroll_v.Wires.Wiring.{lxc_wire_gate_input}
use logxcontroll_v.Wires.Ports.{is_port_of, IsFirstPort}
use logxcontroll_v.Wires.Laws.{PortLaws}
use logxcontroll_v.Wires.Tie.{wire_input-InputTied}
use logxcontroll_v.Wires.Unwire.{told, unwiring-Unwired}

erase_idx-append_last : (xs : List Ptr) (p : Ptr) → erase_idx (xs ++ p ∷ []) (length xs) ≡ xs
erase_idx-append_last [] p = refl
erase_idx-append_last (x ∷ xs) p = ap (λ l. x ∷ l) (erase_idx-append_last xs p)

-- The tokenport that was added last is the first one of its gate and index, where none was before.
added_is_first :
    (token token' : Ptr → Tokenport) (g : Ptr) (index : ℕ) (xs : List Ptr) (p : Ptr)
    → ((h : Ptr) → p ≢ h → token' h ≡ token h)
    → is_port_of token' g index p ≡ true
    → ((j : ℕ) → get_elem? xs j ≢ some p)
    → ((j : ℕ) (x : Ptr) → get_elem? xs j ≡ some x → is_port_of token g index x ≡ false)
    → IsFirstPort token' g index (xs ++ p ∷ []) (length xs) p
added_is_first token token' g index xs p same at new none_before = record {
  at = get_elem?-append_last xs p;
  same = at;
  earlier = λ j x l e. old j x (sym (get_elem?-append_left xs (p ∷ []) j l) ∙ e);
}
  where
    old : (j : ℕ) (x : Ptr) → get_elem? xs j ≡ some x → is_port_of token' g index x ≡ false
    old j x e = rw (same x (λ q. new j (e ∙ ap some (sym q)))) (none_before j x e)

not_told :
    {G : Type 0} (execute : Ptr → Message → World G → World G) (type : Ptr) (subtype : ℤ) (g : Ptr)
    (index : ℕ) (w w' : World G)
    → w'.enabled ≡ w.enabled
    → lxc_gate_is_enabled w g ≡ false
    → told execute direction_in type subtype g index w' ≡ w'
unfolding lxc_gate_is_enabled
not_told execute type subtype g index w w' same e = elim (Bool-cases (g == null)) [
  | inl n ↦ absurd (contrary (rw n at e))
  | inr n ↦ rw (n, same, rw n at e) refl
]
  where
    contrary : true ≡ false → ⊥
    contrary x = cc

-- Where no tokenport of the wire stands for the gate and the index, tying the wire to a free input port
-- and taking it off again both succeed. Before the second call executes the gate with no value, which it
-- does last and only where the gate is enabled, the port is free again, the driven tokenports of the wire
-- are what they were, and the tokenport `fresh`, and nothing else, is freed; where the gate is not enabled,
-- that is what the second call leaves.
pub wire_unwire-restores :
    {G : Type 0} (execute : Ptr → Message → World G → World G) (junk fresh : Ptr)
    (ops : PortAccess G) {IsPort : G → Ptr → ℤ → ℕ → Type 0} (laws : PortLaws ops IsPort)
    (type : Ptr) (subtype : ℤ) (wire g : Ptr) (index : ℕ) (w : World G)
    → wire ≢ null
    → fresh ≢ null
    → (w.wire wire).type ≡ type
    → IsPort (w.state g) type subtype index
    → ops.get_wire (w.state g) type subtype index ≡ some null
    → IsAllocated (w.wire wire).drivens
    → ((j : ℕ) → get_elem? (items (w.wire wire).drivens) j ≢ some fresh)
    → ((j : ℕ) (x : Ptr)
        → get_elem? (items (w.wire wire).drivens) j ≡ some x
        → is_port_of w.tokenport g index x ≡ false)
    → (w₁ : World G) × (w₂ : World G) × (lxc_wire_gate_input execute junk fresh ops type subtype
          wire g index w
        ≡ some (pos 0, w₁))
      × (lxc_wire_gate_input execute junk fresh ops type subtype null g index w₁
          ≡ some (pos 0, told execute direction_in type subtype g index w₂))
      × (ops.get_wire (w₂.state g) type subtype index ≡ some null)
      × (items (w₂.wire wire).drivens ≡ items (w.wire wire).drivens)
      × (w₂.freed ≡ w.freed ++ fresh ∷ [])
      × (lxc_gate_is_enabled w g ≡ false
          → lxc_wire_gate_input execute junk fresh ops type subtype null g index w₁
            ≡ some (pos 0, w₂))
unfolding lxc_wire_gate_input
wire_unwire-restores execute junk fresh ops laws type subtype wire g index w set new of_type port
      free fit absent none_before =
    let xs = items (w.wire wire).drivens in
    let tied =
      wire_input-InputTied execute junk fresh ops laws type subtype wire g index w set new of_type
        port free fit absent in
    let w₁ = tied.0 in
    let t = tied.2 in
    let owner : owner_of direction_in w₁ fresh ≡ wire = ap (λ k. k.owner) (t.token) in
    let here : is_port_of (w₁.tokenport) g index fresh ≡ true =
      rw (t.token) (rw (eqb_refl g) (eqb_refl index)) in
    let first =
      added_is_first w.tokenport (w₁.tokenport) g index xs fresh (t.same_tokens) here absent
        none_before in
    let off =
      unwiring-Unwired execute junk fresh ops laws direction_in type subtype g index w₁ fresh fresh
        (length xs) new (t.port) (t.reads)
        (subst (λ o. IsAllocated (w₁.wire o).drivens) (sym owner) (t.allocated))
        (subst
          (λ o. IsFirstPort (w₁.tokenport) g index (items (w₁.wire o).drivens) (length xs) fresh)
          (sym owner)
          (subst (λ l. IsFirstPort (w₁.tokenport) g index l (length xs) fresh) (sym (t.drivens))
            first)) in
    (
      w₁,
      off.0,
      tied.1,
      off.1,
      off.2.free,
      subst
            (λ o.
              items ((off.0).wire o).drivens ≡ erase_idx (items (w₁.wire o).drivens) (length xs))
            owner (off.2.ports)
          ∙ ap (λ l. erase_idx l (length xs)) (t.drivens)
          ∙ erase_idx-append_last xs fresh,
      off.2.freed ∙ ap (λ l. l ++ fresh ∷ []) (t.same_freed),
      λ e.
          off.1
          ∙ ap (λ x. some (pos 0, x))
              (not_told execute type subtype g index w (off.0) (off.2.same_enabled ∙ t.same_enabled)
                e),
    )
