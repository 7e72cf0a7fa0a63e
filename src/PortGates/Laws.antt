-- ===== src/PortGates/Laws.antt =====
-- The inputs of the gates "portb" of core/builtins/gate_generic.c as ports that core/facet.c wires.
use logxcontroll_v.Base.{
  ℕ, ◌≤◌, ◌<◌, ◌≡◌, ◌≢◌, ◌^◌, refl, sym, ◌∙◌, ap, inl, inr, none, some, true, false, List, [], ◌∷◌,
  arith, ltb, leb, length, length-set, set, get_elem?, get_elem?-set_self, get_elem?-set_ne,
  write-eq-set, ℤ, pos, negsuc, Ptr, null, Bool-cases, Option-cases,
}
use logxcontroll_v.Ports.{
  FullSignalType, PortManager, same_type, find_type, read_group, read_port, lxc_port_get_absindex,
  size_of_type, lxc_generic_get_type_max_index,
}
use logxcontroll_v.Ports.Access.{
  wire_at_safe, wire_to, lxc_port_get_wire_safe, lxc_port_wiring, lxc_port_fill_types,
}
use logxcontroll_v.Wires.{check_types, out_of_range, is_supported}
use logxcontroll_v.Wires.Laws.{IsOther, PortLaws}
use logxcontroll_v.PortGates.{
  PortbGate, portb_inputs, lxc_generic_portb_get_input_types, lxc_generic_portb_get_input_max_index,
  lxc_generic_portb_get_input_wire, lxc_generic_portb_wire_input,
}

-- The gate has at most 20 input types, a cell for each input, and no two inputs with one absolute index.
pub record IsReady (g : PortbGate) : Type 0 where
  pub few : length g.input_ports.managed_types ≤ 20
  pub sized : g.input_ports.max_size ≡ length g.inputs
  pub distinct :
      (s s' : Ptr) (u u' : ℤ) (i i' a : ℕ)
      → lxc_port_get_absindex g.input_ports s u i ≡ some (pos a)
      → lxc_port_get_absindex g.input_ports s' u' i' ≡ some (pos a)
      → (s ≡ s') × (u ≡ u') × (i ≡ i')

-- An input of the gate, that is registered.
pub record IsPortbInput (g : PortbGate) (type : Ptr) (subtype : ℤ) (index : ℕ) : Type 0 where
  pub ready : IsReady g
  pub is_set : type ≢ null
  pub small : index < 2 ^ 31
  pub abs : ℕ
  pub found : lxc_port_get_absindex g.input_ports type subtype index ≡ some (pos abs)
  pub inside : abs < length g.inputs

supported_type :
    (types : List FullSignalType) (s : Ptr) (u : ℤ) (k : ℕ)
    → find_type types s u ≡ some k
    → is_supported (length types) types s u ≡ some true
unfolding find_type is_supported
supported_type [] s u k e = absurd (cc)
supported_type (t ∷ types) s u k e = elim (Bool-cases (same_type t s u)) [
  | inl b ↦ rw b refl
  | inr b ↦ elim (Option-cases (find_type types s u)) [
    | inl f ↦ absurd (missing (rw (b, f) at e))
    | inr (j, f) ↦ rw b (supported_type types s u j f)
  ]
]
  where
    missing : none ≡ some k → ⊥
    missing q = cc

-- What is read on the way to an absolute index.
pub absindex-parts :
    (m : PortManager) (s : Ptr) (u : ℤ) (i a : ℕ)
    → lxc_port_get_absindex m s u i ≡ some (pos a)
    → (k n : ℕ) × (find_type m.managed_types s u ≡ some k)
      × (get_elem? m.to_abs_size k ≡ some n)
      × (i < n)
unfolding lxc_port_get_absindex read_port read_group
absindex-parts m s u i a e = elim (Option-cases (find_type m.managed_types s u)) [
  | inl f ↦ absurd (clash (rw f at e))
  | inr (k, f) ↦ elim (Option-cases (get_elem? m.to_abs_size k)) [
    | inl g ↦ absurd (nothing (rw (f, g) at e))
    | inr (n, g) ↦ elim (Bool-cases (ltb i n)) [
      | inl b ↦ (k, n, f, g, ground arith)
      | inr b ↦ absurd (clash (rw (f, g, b) at e))
    ]
  ]
]
  where
    clash : some (negsuc 0) ≡ some (pos a) → ⊥
    clash q = cc

    nothing : none ≡ some (pos a) → ⊥
    nothing q = cc

input_types :
    (g : PortbGate)
    → IsReady g
    → portb_inputs.get_types g
      ≡ (pos (length g.input_ports.managed_types), g.input_ports.managed_types)
unfolding portb_inputs lxc_generic_portb_get_input_types lxc_port_fill_types
input_types g ready = rw (few) refl
  where
    few : ltb 20 (length g.input_ports.managed_types) ≡ false
    few = ground (arith, ready.few)

portb_supported :
    (g : PortbGate) (s : Ptr) (u : ℤ) (i : ℕ)
    → IsPortbInput g s u i
    → check_types (portb_inputs.get_types g) s u ≡ some (pos 0)
unfolding check_types
portb_supported g s u i p =
    let (k, n, f, h, l) = absindex-parts g.input_ports s u i p.abs p.found in
    rw (input_types g p.ready) (rw (supported_type g.input_ports.managed_types s u k f) refl)

portb_in_range :
    (g : PortbGate) (s : Ptr) (u : ℤ) (i : ℕ)
    → IsPortbInput g s u i
    → (max : ℤ) × (portb_inputs.get_max_index g s u ≡ some max) × (out_of_range i max ≡ false)
unfolding portb_inputs lxc_generic_portb_get_input_max_index lxc_generic_get_type_max_index
    size_of_type
portb_in_range g s u i p =
    let (k, n, f, h, l) = absindex-parts g.input_ports s u i p.abs p.found in
    (pos n, rw (f, h) refl, below n l)
  where
    below : (n : ℕ) → i < n → out_of_range i (pos n) ≡ false
    below n l = ground (arith, p.small)

-- The gate with another content of one cell.
abbrev wired : PortbGate → ℕ → Ptr → PortbGate
wired g a p = record g { inputs = set g.inputs a p }

wired-IsPortbInput :
    (g : PortbGate) (a : ℕ) (p s : Ptr) (u : ℤ) (i : ℕ)
    → IsPortbInput g s u i
    → IsPortbInput (wired g a p) s u i
wired-IsPortbInput g a p s u i h = record {
  ready = record {
    few = h.ready.few;
    sized = h.ready.sized ∙ sym (length-set g.inputs a p);
    distinct = h.ready.distinct;
  };
  is_set = h.is_set;
  small = h.small;
  abs = h.abs;
  found = h.found;
  inside = omega (arith, h.inside, length-set g.inputs a p);
}

portb_read :
    (g : PortbGate) (s : Ptr) (u : ℤ) (i : ℕ) (h : IsPortbInput g s u i)
    → portb_inputs.get_wire g s u i ≡ get_elem? g.inputs h.abs
unfolding portb_inputs lxc_generic_portb_get_input_wire lxc_port_get_wire_safe wire_at_safe
portb_read g s u i h = rw (h.found) (rw below refl)
  where
    below : leb g.input_ports.max_size h.abs ≡ false
    below = ground (arith, h.inside, h.ready.sized)

portb_written :
    (g : PortbGate) (s : Ptr) (u : ℤ) (i : ℕ) (p : Ptr) (h : IsPortbInput g s u i)
    → portb_inputs.wire_function g s u i p ≡ some (pos 0, wired g h.abs p)
unfolding portb_inputs lxc_generic_portb_wire_input lxc_port_wiring wire_to
portb_written g s u i p h = rw (h.found) (rw (write-eq-set g.inputs h.abs p h.inside) refl)

other_abs :
    (g : PortbGate) (s s' : Ptr) (u u' : ℤ) (i i' : ℕ) (h : IsPortbInput g s u i)
    (h' : IsPortbInput g s' u' i')
    → IsOther s u i s' u' i'
    → h.abs ≢ h'.abs
other_abs g s s' u u' i i' h h' o e = differ o
  where
    same : (s ≡ s') × (u ≡ u') × (i ≡ i')
    same = h.ready.distinct s s' u u' i i' h.abs h.found (h'.found ∙ ap (λ n. some (pos n)) (sym e))

    differ : IsOther s u i s' u' i' → ⊥
    differ (inl n) = n (sym (same.0))
    differ (inr (inl n)) = n (sym (same.1))
    differ (inr (inr n)) = n (sym (same.2))

-- The functions of the gates "portb" for the inputs keep the laws of the wiring, where a port is a
-- registered input of a gate whose manager is ready.
pub portb_inputs-PortLaws : PortLaws portb_inputs IsPortbInput
unfolding wired-IsPortbInput
portb_inputs-PortLaws = record {
  is_set = λ g s u i h. h.is_set;
  supported = portb_supported;
  in_range = portb_in_range;
  tied = λ g s u i p h. (
    wired g h.abs p,
    portb_written g s u i p h,
    portb_read (wired g h.abs p) s u i (wired-IsPortbInput g h.abs p s u i h)
        ∙ get_elem?-set_self g.inputs h.abs p h.inside,
    λ s' u' i' h'. wired-IsPortbInput g h.abs p s' u' i' h',
    λ s' u' i' h' o.
        portb_read (wired g h.abs p) s' u' i' (wired-IsPortbInput g h.abs p s' u' i' h')
        ∙ get_elem?-set_ne g.inputs h.abs h'.abs p (other_abs g s s' u u' i i' h h' o)
        ∙ sym (portb_read g s' u' i' h'),
  );
}
