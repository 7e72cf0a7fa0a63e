-- ===== src/Wires/Refused.antt =====
-- Calls of private_generic_wiring of core/facet.c that are refused.
use logxcontroll_v.Base.{
  ℕ, ◌≡◌, ◌≢◌, refl, sym, inl, inr, subst, Option, none, some, true, false, ◌==◌, ℤ, pos, eq_ℤ, Ptr,
  null, ◌>>=◌, Bool-cases, Option-cases, ne→eqb,
}
use logxcontroll_v.Wires.{World, PortAccess, Direction, Message, check_types, out_of_range}
use logxcontroll_v.Wires.Wiring.{subject_of, tie, passed, with_signal, private_generic_wiring}

-- An error leaves the world as it was.
abbrev KeepsOnError : {G : Type 0} → World G → Option (ℤ × World G) → Type 0
KeepsOnError {G} w out = (z : ℤ) (w' : World G) → out ≡ some (z, w') → z ≢ pos 0 → w' ≡ w

keeps : {G : Type 0} (w : World G) (z : ℤ) → KeepsOnError w (some (z, w))
keeps w z z' w' e ne = cc

keeps_fault : {G : Type 0} (w : World G) → KeepsOnError w none
keeps_fault w z w' e ne = cc

keeps_success :
    {G : Type 0} (w : World G) (o : Option (World G))
    → KeepsOnError w (o >>= λ w'. some (pos 0, w'))
keeps_success w none z w' e ne = cc
keeps_success w (some w₁) z w' e ne = absurd (ne (cc))

module _ {G : Type 0} (execute : Ptr → Message → World G → World G) (junk fresh : Ptr)
    (ops : PortAccess G) (w : World G) (d : Direction) (subtype : ℤ) (wire g : Ptr) (index : ℕ)
    (set : wire ≢ null)
    (accepts : (s s' : G) (type p : Ptr) (z : ℤ)
      → ops.wire_function s type subtype index p ≡ some (z, s')
      → z ≡ pos 0) where
  tie-KeepsOnError :
      (type : Ptr) → KeepsOnError w (tie execute junk fresh ops d type subtype wire g index w)
  unfolding tie
  tie-KeepsOnError type =
      elim (Option-cases
        (ops.wire_function (w.state g) type subtype index (subject_of execute junk fresh d wire))) [
          | inl e ↦ rw e (keeps_fault w)
          | inr ((z, s), e) ↦
              rw (e, accepts (w.state g) s type (subject_of execute junk fresh d wire) z e)
                (keeps_success w _)
        ]

  passed-KeepsOnError :
      (type : Ptr) → KeepsOnError w (passed execute junk fresh ops d type subtype wire g index w)
  unfolding passed
  passed-KeepsOnError type = elim (Option-cases (ops.get_max_index (w.state g) type subtype)) [
    | inl e ↦ rw e (keeps_fault w)
    | inr (max, e) ↦ elim (Bool-cases (out_of_range index max)) [
      | inl b ↦ rw (e, b) (keeps w _)
      | inr b ↦ elim (Option-cases (ops.get_wire (w.state g) type subtype index)) [
        | inl f ↦ rw (e, b, f) (keeps_fault w)
        | inr (wired, f) ↦ elim (Bool-cases (wired == null)) [
          | inl c ↦ rw (e, b, f, ne→eqb wire null set, c) (tie-KeepsOnError type)
          | inr c ↦ rw (e, b, f, ne→eqb wire null set, c) (keeps w _)
        ]
      ]
    ]
  ]

  with_signal-KeepsOnError :
      (type : Ptr)
      → KeepsOnError w (with_signal execute junk fresh ops d type subtype wire g index w)
  unfolding with_signal
  with_signal-KeepsOnError type = elim (Bool-cases (type == null)) [
    | inl e ↦ rw e (keeps w _)
    | inr e ↦ elim (Option-cases (check_types (ops.get_types (w.state g)) type subtype)) [
      | inl f ↦ rw (e, f) (keeps_fault w)
      | inr (c, f) ↦ elim (Bool-cases (eq_ℤ c (pos 0))) [
        | inl b ↦ rw (e, f, b) (passed-KeepsOnError type)
        | inr b ↦ rw (e, f, b) (keeps w _)
      ]
    ]
  ]

  wiring-KeepsOnError :
      (type : Ptr)
      → KeepsOnError w (private_generic_wiring execute junk fresh ops d type subtype wire g index w)
  unfolding private_generic_wiring
  wiring-KeepsOnError type = elim (Bool-cases (type == null)) [
    | inl e ↦
        subst (λ out. KeepsOnError w out) (sym (untyped e))
          (with_signal-KeepsOnError (w.wire wire).type)
    | inr e ↦ elim (Bool-cases (type == (w.wire wire).type)) [
      | inl f ↦ subst (λ out. KeepsOnError w out) (sym (typed e f)) (with_signal-KeepsOnError type)
      | inr f ↦ rw (e, ne→eqb wire null set, f) (keeps w _)
    ]
  ]
    where
      untyped :
          (type == null) ≡ true
          → private_generic_wiring execute junk fresh ops d type subtype wire g index w
            ≡ with_signal execute junk fresh ops d (w.wire wire).type subtype wire g index w
      untyped e = rw (e, ne→eqb wire null set) refl

      typed :
          (type == null) ≡ false
          → (type == (w.wire wire).type) ≡ true
          → private_generic_wiring execute junk fresh ops d type subtype wire g index w
            ≡ with_signal execute junk fresh ops d type subtype wire g index w
      typed e f = rw (e, ne→eqb wire null set, f) refl

-- Where the behavior accepts whatever it is given, a call with a wire that gives another result than 0,
-- whatever the type, the index and the gate, has changed nothing: no port, wire, tokenport or
-- value, and nothing was freed or executed.
pub wiring_error-unchanged :
    {G : Type 0} (execute : Ptr → Message → World G → World G) (junk fresh : Ptr)
    (ops : PortAccess G) (d : Direction) (type : Ptr) (subtype : ℤ) (wire g : Ptr) (index : ℕ)
    (w w' : World G) (z : ℤ)
    → ((s s' : G) (type p : Ptr) (z : ℤ)
        → ops.wire_function s type subtype index p ≡ some (z, s')
        → z ≡ pos 0)
    → wire ≢ null
    → private_generic_wiring execute junk fresh ops d type subtype wire g index w ≡ some (z, w')
    → z ≢ pos 0
    → w' ≡ w
wiring_error-unchanged execute junk fresh ops d type subtype wire g index w w' z accepts set e ne =
    wiring-KeepsOnError execute junk fresh ops w d subtype wire g index set accepts type z w' e ne
