-- ===== src/Wires/Lookup.antt =====
-- A port looked up by its label: lxc_gate_get_portinfo_by_name of core/facet.c.
use logxcontroll_v.Base.{
  ℕ, zero, suc, ◌+◌, ◌≤◌, ◌<◌, ◌≡◌, ◌≢◌, ◌⊎◌, refl, sym, ◌∙◌, ap, inl, inr, Option, none, some,
  true, false, List, [], ◌∷◌, arith, length, get_elem?, ◌==◌, eqb→eq, pos, Ptr, Bool-cases,
}
use Prim.Native.String.{String}
use text.Mathlib.Text.{◌==◌ as str_eq}
use text.Mathlib.TextEquality.{eq_iff}
use logxcontroll_v.Ports.{FullSignalType}
use logxcontroll_v.Wires.Queries.{
  PortQueries, lxc_gate_get_types, index_of_label, find_port_by_label, port_max, port_label,
  lxc_error_port_doesnot_exists, lxc_gate_get_portinfo_by_name,
}

-- What the loop over the indices from `t` on gives.
abbrev IndexFound : (ℕ → Option String) → String → ℕ → ℕ → Option ℕ → Type 0
IndexFound label_at name rounds t out =
    ((i : ℕ) × (out ≡ some i) × (t ≤ i) × (i < t + rounds) × (label_at i ≡ some name))
    ⊎ ((out ≡ none) × ((i : ℕ) → t ≤ i → i < t + rounds → label_at i ≢ some name))

differs : (a b : String) → str_eq a b ≡ false → some b ≢ some a
differs a b h e = clash (sym ((eq_iff a b).1 (same e)) ∙ h)
  where
    same : some b ≡ some a → a ≡ b
    same q = cc

    clash : true ≡ false → ⊥
    clash q = cc

-- The rounds behind the first one.
IndexFound-later :
    (label_at : ℕ → Option String) (name : String) (rounds t : ℕ) (out : Option ℕ)
    → label_at t ≢ some name
    → IndexFound label_at name rounds (suc t) out
    → IndexFound label_at name (suc rounds) t out
IndexFound-later label_at name rounds t out ne (inl (i, e, l, u, h)) =
    inl (i, e, omega arith, omega arith, h)
IndexFound-later label_at name rounds t out ne (inr (e, h)) = inr (
  e,
  λ i l u. elim (Bool-cases (i == t)) [
    | inl q ↦ λ p. ne (ap label_at (sym (eqb→eq i t q)) ∙ p)
    | inr q ↦ h i (after i l q) (omega arith)
  ],
)
  where
    after : (i : ℕ) → t ≤ i → (i == t) ≡ false → suc t ≤ i
    after i l q = ground arith

first_label :
    (label_at : ℕ → Option String) (name : String) (rounds t : ℕ) (o : Option String)
    → label_at t ≡ o
    → IndexFound label_at name rounds (suc t) (index_of_label label_at name rounds (suc t))
    → IndexFound label_at name (suc rounds) t (index_of_label label_at name (suc rounds) t)
unfolding index_of_label
first_label label_at name rounds t none e rest =
    rw (index_of_label, e)
      (IndexFound-later label_at name rounds t _ (λ p. no_label (sym e ∙ p)) rest)
  where
    no_label : none ≡ some name → ⊥
    no_label q = cc
first_label label_at name rounds t (some l) e rest = elim (Bool-cases (str_eq name l)) [
  | inl q ↦
      rw (index_of_label, e, q)
        (inl (t, refl, omega arith, omega arith, e ∙ ap some (sym ((eq_iff name l).0 q))))
  | inr q ↦
      rw (index_of_label, e, q)
        (IndexFound-later label_at name rounds t _ (λ p. differs name l q (sym e ∙ p)) rest)
]

index_of_label-IndexFound :
    (label_at : ℕ → Option String) (name : String) (rounds t : ℕ)
    → IndexFound label_at name rounds t (index_of_label label_at name rounds t)
unfolding index_of_label
index_of_label-IndexFound label_at name zero t = inr (refl, λ i l u. absurd (omega arith))
index_of_label-IndexFound label_at name (suc rounds) t =
    first_label label_at name rounds t (label_at t) refl
      (index_of_label-IndexFound label_at name rounds (suc t))

-- What the loop over the types gives: a port of one of them with the label, or that there is none.
abbrev PortFound :
    (FullSignalType → ℕ)
    → (FullSignalType → ℕ → Option String)
    → String
    → List FullSignalType
    → Option (FullSignalType × ℕ)
    → Type 0
PortFound max_of label_of name types out =
    ((k : ℕ) × (t : FullSignalType) × (i : ℕ) × (out ≡ some (t, i))
      × (get_elem? types k ≡ some t)
      × (i < max_of t)
      × (label_of t i ≡ some name))
    ⊎ ((out ≡ none)
        × ((k : ℕ) (t : FullSignalType) (i : ℕ)
            → get_elem? types k ≡ some t
            → i < max_of t
            → label_of t i ≢ some name))

find_port-PortFound :
    (max_of : FullSignalType → ℕ) (label_of : FullSignalType → ℕ → Option String) (name : String)
    (types : List FullSignalType)
    → (out : Option (FullSignalType × ℕ)) × (find_port_by_label max_of label_of name
          (length types)
          types
        ≡ some out)
      × PortFound max_of label_of name types out
unfolding find_port_by_label
find_port-PortFound max_of label_of name [] = (none, refl, inr (refl, λ k t i e u. cc))
find_port-PortFound max_of label_of name (t ∷ types) =
    elim (index_of_label-IndexFound (label_of t) name (max_of t) 0) [
      | inl (i, e, l, u, h) ↦
          (some (t, i), rw (find_port_by_label, e) refl, inl (0, t, i, refl, refl, omega arith, h))
      | inr (e, h) ↦
          let (out, q, found) = find_port-PortFound max_of label_of name types in
          (out, rw (find_port_by_label, e) q, further out h found)
    ]
  where
    nowhere :
        ((i : ℕ) → 0 ≤ i → i < 0 + max_of t → label_of t i ≢ some name)
        → ((k : ℕ) (t' : FullSignalType) (i : ℕ)
            → get_elem? types k ≡ some t'
            → i < max_of t'
            → label_of t' i ≢ some name)
        → (k : ℕ) (t' : FullSignalType) (i : ℕ) → get_elem? (t ∷ types) k ≡ some t'
        → i < max_of t'
        → label_of t' i ≢ some name
    nowhere h f zero t' i e u = cut (cc) h i u
      where
        cut :
            t' ≡ t
            → ((i : ℕ) → 0 ≤ i → i < 0 + max_of t → label_of t i ≢ some name)
            → (i : ℕ) → i < max_of t'
            → label_of t' i ≢ some name
        cut q h' j l = rw q (h' j (omega arith) (below (rw q at l)))
          where
            below : j < max_of t → j < 0 + max_of t
            below r = omega arith
    nowhere h f (suc k) t' i e u = f k t' i e u

    further :
        (out : Option (FullSignalType × ℕ))
        → ((i : ℕ) → 0 ≤ i → i < 0 + max_of t → label_of t i ≢ some name)
        → PortFound max_of label_of name types out
        → PortFound max_of label_of name (t ∷ types) out
    further out h (inl (k, t', i, o, g, u, f)) = inl (suc k, t', i, o, g, u, f)
    further out h (inr (o, f)) = inr (o, λ k t' i e u. nowhere h f k t' i e u)

-- The port of a gate that is looked up: its type is one of the gate's, and its label is the name.
abbrev pub Labelled :
    {G : Type 0} → PortQueries G → (Ptr → G) → Ptr → String → FullSignalType → ℕ → Type 0
Labelled ops state gate name t i =
    ((k : ℕ) × (get_elem? (lxc_gate_get_types ops state gate).1 k ≡ some t))
    × (i < port_max ops state gate t)
    × (port_label ops state gate t i ≡ some name)

-- Where the number of the types of a gate is that of the types that it gives, looking a port up by a name
-- ends: either with the result 0 and a port of the gate whose label is the name, at an index
-- below the maximal one of its type, or with the error, and then no such port has the name.
pub portinfo_by_name-Labelled :
    {G : Type 0} (ops : PortQueries G) (state : Ptr → G) (gate : Ptr) (name : String)
    → (lxc_gate_get_types ops state gate).0 ≡ pos (length (lxc_gate_get_types ops state gate).1)
    → ((t : FullSignalType) × (i : ℕ) × (lxc_gate_get_portinfo_by_name ops state gate name
          ≡ some (pos 0, some (t, i)))
        × Labelled ops state gate name t i)
      ⊎ ((lxc_gate_get_portinfo_by_name ops state gate name
            ≡ some (lxc_error_port_doesnot_exists, none))
          × ((t : FullSignalType) (i : ℕ) → ¬ Labelled ops state gate name t i))
unfolding lxc_gate_get_portinfo_by_name
portinfo_by_name-Labelled ops state gate name e =
    let (out, q, found) =
      find_port-PortFound (port_max ops state gate) (port_label ops state gate) name
        (lxc_gate_get_types ops state gate).1 in
    elim found [
      | inl (k, t, i, o, g, u, f) ↦ inl (t, i, rw e (rw q (rw o refl)), ((k, g), u, f))
      | inr (o, f) ↦ inr (rw e (rw q (rw o refl)), λ t i ((k, g), u, h). f k t i g u h)
    ]
