-- ===== src/Wires/Ports.antt =====
-- How the array of a wire's tokenports changes: the search of remove_port by gate and index.
use logxcontroll_v.Base.{
  ℕ, zero, suc, ◌+◌, ◌<◌, ◌≡◌, refl, sym, ◌∙◌, ap, subst, inl, inr, Option, none, some, Bool, true,
  false, List, [], ◌∷◌, ◌==◌, ◌&&◌, Bool-cases, length, get_elem?, get_elem?-lt, erase_idx, Ptr,
  null, arith,
}
use logxcontroll_v.Arrays.Tracked.{TrackedArray, CellsFit, IsAllocated}
use logxcontroll_v.Arrays.Nt.Items.{items, items_of}
use logxcontroll_v.Arrays.Nt.Pop.{pop-items}
use logxcontroll_v.Wires.{Tokenport, find_port, take_port, remove_port}

abbrev pub is_port_of : (Ptr → Tokenport) → Ptr → ℕ → Ptr → Bool
is_port_of token g index p = g == (token p).gate && index == (token p).index

-- The tokenport `q`, at `n`, is the first one of the gate and the index.
pub record IsFirstPort (token : Ptr → Tokenport) (g : Ptr) (index : ℕ) (xs : List Ptr) (n : ℕ)
    (q : Ptr) : Type 0 where
  pub at : get_elem? xs n ≡ some q
  pub same : is_port_of token g index q ≡ true
  pub earlier :
      (j : ℕ) (x : Ptr) → j < n → get_elem? xs j ≡ some x → is_port_of token g index x ≡ false

find_port_at :
    (token : Ptr → Tokenport) (g : Ptr) (index : ℕ) (a : List Ptr) (n : ℕ) (q : Ptr) (k : ℕ)
    → get_elem? (items_of a) n ≡ some q
    → is_port_of token g index q ≡ true
    → ((j : ℕ) (x : Ptr)
        → j < n
        → get_elem? (items_of a) j ≡ some x
        → is_port_of token g index x ≡ false)
    → find_port token g index a (length a) k ≡ some (some (k + n))
unfolding find_port
find_port_at token g index [] n q k f m e = absurd (cc)
find_port_at token g index (c ∷ a) zero q k f m e = ground (arith, f, m)
find_port_at token g index (c ∷ a) (suc n) q k f m e = elim (Bool-cases (c == null)) [
  | inl z ↦ absurd (none_there (rw z at f))
  | inr z ↦ rw z (
      rw (e 0 c (omega arith) (rw z refl)) (
        find_port_at token g index a n q (suc k) (rw z at f) m
          (λ j x l h. e (suc j) x (omega arith) (rw z h))
        ∙ ap (λ r. some (some r)) (omega arith)))
]
  where
    none_there : none ≡ some q → ⊥
    none_there e = cc

-- What remove_port leaves where such a tokenport is there.
abbrev pub Removed : List Ptr → ℕ → Ptr → Option (Option (Ptr × TrackedArray)) → Type 0
Removed xs n q out =
    (r' : TrackedArray) × (out ≡ some (some (q, r'))) × (items r' ≡ erase_idx xs n) × IsAllocated r'

take_port-Removed :
    (r : TrackedArray) (n : ℕ) (q : Ptr)
    → IsAllocated r
    → get_elem? (items r) n ≡ some q
    → Removed (items r) n q (take_port r (some n))
unfolding take_port
take_port-Removed r n q fit f =
    let popped = pop-items r n (get_elem?-lt (items r) n f) fit in
    let same : popped.0 ≡ q = cc (popped.3, f) in
    (popped.1, rw (popped.2) (ap (λ x. some (some (x, popped.1))) same), popped.4, popped.5)

remove_cells :
    (token : Ptr → Tokenport) (g : Ptr) (index : ℕ) (c : Option (List Ptr)) (m n : ℕ) (q : Ptr)
    → CellsFit c m
    → IsFirstPort token g index (items (record { cells = c; length = m })) n q
    → Removed
        (items (record { cells = c; length = m }))
        n
        q
        (remove_port token g index (record { cells = c; length = m }))
unfolding remove_port
remove_cells token g index none m n q fit h = absurd (cc (h.at))
remove_cells token g index (some []) m n q fit h = absurd (cc (h.at))
remove_cells token g index (some (c ∷ a)) m n q fit h = elim (Bool-cases (c == null)) [
  | inl z ↦ absurd (none_there (rw z at (h.at)))
  | inr z ↦
      subst (λ out. Removed (items_of (c ∷ a)) n q out) (sym (searched z))
        (take_port-Removed (record { cells = some (c ∷ a); length = m }) n q fit (h.at))
]
  where
    none_there : none ≡ some q → ⊥
    none_there e = cc

    found : find_port token g index (c ∷ a) m 0 ≡ some (some n)
    found =
        subst (λ (l : ℕ). find_port token g index (c ∷ a) l 0 ≡ some (some n)) fit
          (find_port_at token g index (c ∷ a) n q 0 (h.at) (h.same) (h.earlier)
            ∙ ap (λ k. some (some k)) (omega arith))

    searched :
        (c == null) ≡ false
        → remove_port token g index (record { cells = some (c ∷ a); length = m })
          ≡ take_port (record { cells = some (c ∷ a); length = m }) (some n)
    searched z = rw z (rw found refl)

-- Where an array has a tokenport of the gate and the index, remove_port finds the first of them: its
-- answer is that tokenport, and the others stay in their order.
pub remove_port-Removed :
    (token : Ptr → Tokenport) (g : Ptr) (index : ℕ) (r : TrackedArray) (n : ℕ) (q : Ptr)
    → IsAllocated r
    → IsFirstPort token g index (items r) n q
    → Removed (items r) n q (remove_port token g index r)
remove_port-Removed token g index r n q fit h =
    remove_cells token g index r.cells r.length n q fit h
