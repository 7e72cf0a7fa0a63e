-- ===== src/Tests/PortGates.antt =====
-- A gate "portb" with one input.
use logxcontroll_v.Base.{
  ℕ, ◌<◌, ◌≡◌, refl, sym, ◌∙◌, inl, inr, none, some, true, [], ◌∷◌, arith, ◌==◌, ℤ, pos, negsuc,
  eq_ℤ, Ptr, null, Bool-cases, eqb→eq,
}
use logxcontroll_v.Ports.{PortManager, label, find_type, lxc_port_get_absindex, lxc_port_count}
use logxcontroll_v.PortGates.{PortbGate, lxc_generic_portb_init}
use logxcontroll_v.PortGates.Laws.{IsPortbInput, absindex-parts}

abbrev one_input : PortManager
one_input = record {
  max_size = 1;
  managed_types = record { signal = 9; subtype = pos 0 } ∷ [];
  to_abs = (0 ∷ []) ∷ [];
  port_names = label "I1" ∷ [];
  to_abs_size = 1 ∷ [];
}

abbrev no_ports : PortManager
no_ports = record {
  max_size = 0;
  managed_types = [];
  to_abs = [];
  port_names = [];
  to_abs_size = [];
}

abbrev a_gate : PortbGate
a_gate = record {
  input_ports = one_input;
  output_ports = no_ports;
  inputs = null ∷ [];
  outputs = [];
}

created : lxc_generic_portb_init one_input no_ports ≡ a_gate
unfolding lxc_generic_portb_init lxc_port_count
created = refl

eq_ℤ→eq : (z : ℤ) → eq_ℤ (pos 0) z ≡ true → z ≡ pos 0
eq_ℤ→eq (pos n) e = ground arith
eq_ℤ→eq (negsuc n) e = absurd (cc)

-- The one type that is found.
only_type :
    (s : Ptr) (u : ℤ) (k : ℕ)
    → find_type one_input.managed_types s u ≡ some k
    → (s ≡ 9) × (u ≡ pos 0) × (k ≡ 0)
unfolding find_type
only_type s u k e = elim (Bool-cases (9 == s)) [
  | inl a ↦ elim (Bool-cases (eq_ℤ (pos 0) u)) [
    | inl b ↦ (sym (eqb→eq 9 s a), eq_ℤ→eq u b, first (rw (a, b) at e))
    | inr b ↦ absurd (missing (rw (a, b) at e))
  ]
  | inr a ↦ absurd (missing (rw a at e))
]
  where
    missing : none ≡ some k → ⊥
    missing q = cc

    first : some 0 ≡ some k → k ≡ 0
    first q = cc

only_port :
    (s : Ptr) (u : ℤ) (i a : ℕ)
    → lxc_port_get_absindex one_input s u i ≡ some (pos a)
    → (s ≡ 9) × (u ≡ pos 0) × (i ≡ 0)
only_port s u i a e =
    let (k, n, f, h, l) = absindex-parts one_input s u i a e in
    let (p, q, r) = only_type s u k f in (p, q, below n l (one n (rw r at h)))
  where
    one : (n : ℕ) → some 1 ≡ some n → n ≡ 1
    one n q = cc

    below : (n : ℕ) → i < n → n ≡ 1 → i ≡ 0
    below n l q = omega arith

-- The registered input of the gate is a port of it, as the laws of the wiring ask for.
I1-IsPortbInput : IsPortbInput a_gate 9 (pos 0) 0
unfolding lxc_port_get_absindex
I1-IsPortbInput = record {
  ready = record {
    few = omega arith;
    sized = refl;
    distinct = λ s s' u u' i i' a e e'.
        let (p, q, r) = only_port s u i a e in
        let (p', q', r') = only_port s' u' i' a e' in (p ∙ sym p', q ∙ sym q', r ∙ sym r');
  };
  is_set = cc;
  small = omega arith;
  abs = 0;
  found = refl;
  inside = omega arith;
}
