-- ===== src/Ports/Ensure.antt =====
-- Registering a type keeps every port.
use logxcontroll_v.Base.{
  null, ℕ, zero, suc, ◌+◌, ◌<◌, ◌≤◌, ◌≡◌, ◌≢◌, refl, sym, ◌∙◌, subst, ◌⊎◌, inl, inr, Option, none,
  some, false, List, [], ◌∷◌, ◌++◌, ◌==◌, Bool-cases, length, length-set, length-append, get_elem?,
  get_elem?-set_self, get_elem?-set_ne, get_elem?-lt, get_elem?-append_left, get_elem?-append_cases,
  set, write-eq-set, ℤ, Ptr, eqb→eq, eqb→ne, arith,
}
use logxcontroll_v.Arrays.Nt.Items.{write-realloc}
use logxcontroll_v.Ports.{
  FullSignalType, PortManager, same_type, find_type, empty_type, register_at, ensure_from,
  ensure_type,
}
use logxcontroll_v.Ports.Types.{
  Signals-set, Signals-append, entry, Aligned, Ensured, Located, Located→absindex, absindex→Located,
  find_type-set_self, find_type-set_other, find_type-append_self, find_type-append_other,
  same_type→eq,
}

empty_type-cases :
    (ts : List FullSignalType) (sizes : List ℕ)
    → length ts ≡ length sizes
    → (empty_type ts sizes ≡ some none)
      ⊎ ((k : ℕ) × (empty_type ts sizes ≡ some (some k)) × (get_elem? sizes k ≡ some 0))
unfolding empty_type
empty_type-cases [] sizes h = inl refl
empty_type-cases (t ∷ ts) [] h = absurd (omega arith)
empty_type-cases (t ∷ ts) (n ∷ sizes) h = elim (Bool-cases (n == 0)) [
  | inl z ↦ inr (zero, rw z refl, ground arith)
  | inr z ↦ elim (empty_type-cases ts sizes (omega arith)) [
    | inl e ↦ inl (rw z (rw e refl))
    | inr (k, e, g) ↦ inr (suc k, rw z (rw e refl), g)
  ]
]

module _ (m : PortManager) (s : Ptr) (u : ℤ) (nonnull : s ≢ null)
    (fresh : find_type m.managed_types s u ≡ none) (al : Aligned m) where
  -- A type that is found is another one.
  other_type :
      (s' : Ptr) (u' : ℤ) (j : ℕ)
      → find_type m.managed_types s' u' ≡ some j
      → same_type (entry s u) s' u' ≡ false
  other_type s' u' j h = elim (Bool-cases (same_type (entry s u) s' u')) [
    | inl e ↦ let (es, eu) = same_type→eq s s' u u' e in absurd (clash (rw es (rw eu h)))
    | inr e ↦ e
  ]
    where
      clash : find_type m.managed_types s u ≡ some j → ⊥
      clash h' = cc

  ensure_replaced :
      (k : ℕ)
      → get_elem? m.to_abs_size k ≡ some 0
      → Ensured m
          (record m {
            managed_types = set m.managed_types k (entry s u);
            to_abs_size = set m.to_abs_size k 0;
          })
          s
          u
          k
  ensure_replaced k z = record {
    found = find_type-set_self m.managed_types s u k fresh inside;
    aligned = record {
      signals = Signals-set m.managed_types k s u nonnull al.signals;
      types =
          length-set m.managed_types k (entry s u) ∙ al.types ∙ sym (length-set m.to_abs_size k 0);
      groups = al.groups ∙ sym (length-set m.to_abs_size k 0);
      room = λ i n g h c. room_set i n g h c (is_k k i);
    };
    names = refl;
    kept = λ s' u' i a h.
        Located→absindex m₁ s' u' i a (moved s' u' i a (absindex→Located m s' u' i a h));
  }
    where
      m₁ : PortManager
      m₁ = record m {
        managed_types = set m.managed_types k (entry s u);
        to_abs_size = set m.to_abs_size k 0;
      }

      is_k : (a b : ℕ) → (a ≡ b) ⊎ (a ≢ b)
      is_k a b = elim (Bool-cases (a == b)) [
        | inl e ↦ inl (eqb→eq a b e)
        | inr e ↦ inr (eqb→ne a b e)
      ]

      room_set :
          (i n : ℕ) (g : List ℕ)
          → get_elem? (set m.to_abs_size k 0) i ≡ some n
          → get_elem? m.to_abs i ≡ some g
          → (k ≡ i) ⊎ (k ≢ i)
          → n ≤ length g
      room_set i n g h c (inl e) =
          let zero_there : get_elem? (set m.to_abs_size k 0) i ≡ some 0 =
            subst (λ j. get_elem? (set m.to_abs_size k 0) j ≡ some 0) e
              (get_elem?-set_self m.to_abs_size k 0 (get_elem?-lt m.to_abs_size k z)) in
          ground (arith, h, zero_there)
      room_set i n g h c (inr d) =
          al.room i n g (sym (get_elem?-set_ne m.to_abs_size k i 0 d) ∙ h) c

      inside : k < length m.managed_types
      inside = omega (arith, get_elem?-lt m.to_abs_size k z, al.types)

      moved : (s' : Ptr) (u' : ℤ) (i a : ℕ) → Located m s' u' i a → Located m₁ s' u' i a
      moved s' u' i a l =
          let apart : k ≢ l.group =
            λ e. used l (subst (λ j. get_elem? m.to_abs_size j ≡ some 0) e z) in
          record {
            group = l.group;
            len = l.len;
            entries = l.entries;
            below = l.below;
            cells = l.cells;
            stored = l.stored;
            type_found =
                find_type-set_other m.managed_types s s' u u' l.group k l.type_found
                  (λ e. apart (sym e)) (other_type s' u' l.group l.type_found);
            size = get_elem?-set_ne m.to_abs_size k l.group 0 apart ∙ l.size;
          }
        where
          used : (l : Located m s' u' i a) → get_elem? m.to_abs_size l.group ≡ some 0 → ⊥
          used l e = ground (arith, e, l.size, l.below)

  ensure_new :
      Ensured m
        (record m {
          managed_types = m.managed_types ++ entry s u ∷ [];
          to_abs = m.to_abs ++ [] ∷ [];
          to_abs_size = m.to_abs_size ++ 0 ∷ [];
        })
        s
        u
        (length m.managed_types)
  ensure_new = record {
    found = find_type-append_self m.managed_types s u fresh;
    aligned = record {
      signals = Signals-append m.managed_types s u nonnull al.signals;
      types = omega (
        arith,
        length-append m.managed_types (entry s u ∷ []),
        length-append m.to_abs_size (0 ∷ []),
        al.types,
      );
      groups = omega (
        arith,
        length-append {0} m.to_abs ([] ∷ []),
        length-append m.to_abs_size (0 ∷ []),
        al.groups,
      );
      room = λ i n g h c. room_new i n g c (get_elem?-append_cases m.to_abs_size 0 i n h);
    };
    names = refl;
    kept = λ s' u' i a h.
        Located→absindex m₁ s' u' i a (moved s' u' i a (absindex→Located m s' u' i a h));
  }
    where
      m₁ : PortManager
      m₁ = record m {
        managed_types = m.managed_types ++ entry s u ∷ [];
        to_abs = m.to_abs ++ [] ∷ [];
        to_abs_size = m.to_abs_size ++ 0 ∷ [];
      }

      room_new :
          (i n : ℕ) (g : List ℕ)
          → get_elem? (m.to_abs ++ [] ∷ []) i ≡ some g
          → ((i < length m.to_abs_size) × (get_elem? m.to_abs_size i ≡ some n))
            ⊎ ((i ≡ length m.to_abs_size) × (n ≡ 0))
          → n ≤ length g
      room_new i n g c (inl (l, h)) =
          al.room i n g h
            (sym (get_elem?-append_left m.to_abs ([] ∷ []) i (omega (arith, l, al.groups))) ∙ c)
      room_new i n g c (inr (l, h)) = omega arith

      moved : (s' : Ptr) (u' : ℤ) (i a : ℕ) → Located m s' u' i a → Located m₁ s' u' i a
      moved s' u' i a l = record {
        group = l.group;
        len = l.len;
        entries = l.entries;
        below = l.below;
        stored = l.stored;
        type_found = find_type-append_other m.managed_types (entry s u) s' u' l.group l.type_found;
        size =
            get_elem?-append_left m.to_abs_size (0 ∷ []) l.group
              (get_elem?-lt m.to_abs_size l.group l.size)
            ∙ l.size;
        cells =
            get_elem?-append_left m.to_abs ([] ∷ []) l.group (get_elem?-lt m.to_abs l.group l.cells)
            ∙ l.cells;
      }

abbrev pub EnsuredBy : Option (ℕ × PortManager) → PortManager → Ptr → ℤ → Type 0
EnsuredBy out m s u = (ti : ℕ) × (m₁ : PortManager) × (out ≡ some (ti, m₁)) × Ensured m m₁ s u ti

ensure_fresh :
    (junk : ℕ) (m : PortManager) (s : Ptr) (u : ℤ)
    → s ≢ null
    → find_type m.managed_types s u ≡ none
    → Aligned m
    → EnsuredBy (ensure_from junk m s u none) m s u
unfolding ensure_from register_at
ensure_fresh junk m s u nonnull fresh al =
    elim (empty_type-cases m.managed_types m.to_abs_size al.types) [
      | inl e ↦ (
        length m.managed_types,
        record m {
          managed_types = m.managed_types ++ entry s u ∷ [];
          to_abs = m.to_abs ++ [] ∷ [];
          to_abs_size = m.to_abs_size ++ 0 ∷ [];
        },
        rw e (
            rw (plus_one (length m.managed_types), al.types)
              (rw (write-realloc junk 0 m.to_abs_size) refl)),
        ensure_new m s u nonnull fresh al,
      )
      | inr (k, e, z) ↦
          let inside : k < length m.to_abs_size = get_elem?-lt m.to_abs_size k z in
          (
            k,
            record m {
              managed_types = set m.managed_types k (entry s u);
              to_abs_size = set m.to_abs_size k 0;
            },
            rw e (
                rw (write-eq-set m.managed_types k (entry s u) (omega (arith, inside, al.types)))
                  (rw (write-eq-set m.to_abs_size k 0 inside) refl)),
            ensure_replaced m s u nonnull fresh al k z,
          )
    ]
  where
    plus_one : (n : ℕ) → n + 1 ≡ suc n
    plus_one n = omega arith

pub ensure_lem :
    (junk : ℕ) (m : PortManager) (s : Ptr) (u : ℤ)
    → s ≢ null
    → Aligned m
    → EnsuredBy (ensure_type junk m s u) m s u
unfolding ensure_type
ensure_lem junk m s u nonnull al = by_search (find_type m.managed_types s u) refl
  where
    by_search :
        (o : Option ℕ)
        → find_type m.managed_types s u ≡ o
        → EnsuredBy (ensure_from junk m s u o) m s u
    by_search none e = ensure_fresh junk m s u nonnull e al
    by_search (some ti) e =
        (ti, m, refl, record { found = e; aligned = al; names = refl; kept = λ s' u' i a h. h })
