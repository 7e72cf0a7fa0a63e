-- ===== src/Arrays/Nt/Append.antt =====
-- `array_nt_append_element` adds at the end of the elements, in place or by one more cell.
use logxcontroll_v.Base.{
  ℕ, suc, ◌+◌, ◌≤◌, ◌<◌, ◌≡◌, ◌≢◌, refl, sym, ap, subst, Option, none, some, List, [], ◌∷◌, ◌++◌,
  inl, inr, arith, ltb, Bool-cases, length, length-set, length-append, set, write-eq-set, ℤ, pos,
  minus_one, Ptr, null, ne→eqb, ltb→lt, ltb→ge,
}
use logxcontroll_v.Arrays.Tracked.{TrackedArray, CellsFit, IsAllocated}
use logxcontroll_v.Arrays.Nt.{append_at, array_nt_append_element}
use logxcontroll_v.Arrays.Nt.Items.{
  items_of, items, first_null_lem, items-eq_of_full, items-set_last, items-set_inner, write-realloc,
  items-append_full,
}

-- What a successful append leaves behind, for the elements `xs` before it.
abbrev pub Appended : List Ptr → Ptr → Option (ℤ × TrackedArray) → Type 0
Appended xs e out =
    (r' : TrackedArray) × (out ≡ some (pos (length xs), r'))
    × (items r' ≡ xs ++ e ∷ [])
    × IsAllocated r'

module _ (junk e : Ptr) (ne : e ≢ null) where
  append_at_full :
      (a : List Ptr)
      → length a ≤ length (items_of a)
      → Appended (items_of a) e (append_at junk a (length a) e minus_one)
  unfolding append_at
  append_at_full a h =
      let full : items_of a ≡ a = items-eq_of_full a h in
      let same : length a ≡ length (items_of a) = ap length (sym full) in
      let grow : length a + 1 ≡ suc (length a) = omega arith in
      (
        record { cells = some (a ++ e ∷ []); length = length a + 1 },
        rw (grow, write-realloc junk e a) (rw (← same) refl),
        items-append_full a e ne full,
        omega (arith, length-append a (e ∷ [])),
      )

  append_at_free :
      (a : List Ptr)
      → length (items_of a) < length a
      → Appended (items_of a) e (append_at junk a (length a) e (pos (length (items_of a))))
  unfolding append_at
  append_at_free a h = elim (Bool-cases (ltb (length (items_of a) + 1) (length a))) [
    | inl inner ↦ (
      record {
        cells = some (set (set a (length (items_of a)) e) (suc (length (items_of a))) null);
        length = length a;
      },
      rw (write-eq-set a (length (items_of a)) e h) (
          rw inner (
            rw (plus_one (length (items_of a))) (
              rw
                (write-eq-set (set a (length (items_of a)) e) (suc (length (items_of a))) null
                  (omega (arith, ltb→lt _ _ inner, length-set a (length (items_of a)) e)))
                refl))),
      items-set_inner a e ne (omega (arith, ltb→lt _ _ inner)),
      omega (
        arith,
        length-set a (length (items_of a)) e,
        length-set (set a (length (items_of a)) e) (suc (length (items_of a))) null,
      ),
    )
    | inr last ↦ (
      record { cells = some (set a (length (items_of a)) e); length = length a },
      rw (write-eq-set a (length (items_of a)) e h) (rw last refl),
      items-set_last a e ne (omega (arith, ltb→ge _ _ last)),
      length-set a (length (items_of a)) e,
    )
  ]
    where
      plus_one : (n : ℕ) → n + 1 ≡ suc n
      plus_one n = omega arith

  append_cells :
      (a : List Ptr)
      → Appended
          (items_of a)
          e
          (array_nt_append_element junk (record { cells = some a; length = length a }) e)
  unfolding array_nt_append_element
  append_cells a = rw (ne→eqb e null ne) (
      rw (first_null_lem a 0) (elim (Bool-cases (ltb (length (items_of a)) (length a))) [
        | inl free ↦ rw (free, zero_plus (length (items_of a))) (append_at_free a (ltb→lt _ _ free))
        | inr full ↦ rw full (append_at_full a (ltb→ge _ _ full))
      ]))
    where
      zero_plus : (n : ℕ) → 0 + n ≡ n
      zero_plus n = omega arith

  append_parts :
      (c : Option (List Ptr)) (n : ℕ)
      → CellsFit c n
      → Appended
          (items (record { cells = c; length = n }))
          e
          (array_nt_append_element junk (record { cells = c; length = n }) e)
  unfolding array_nt_append_element
  append_parts none n fit = (
    record { cells = some (e ∷ []); length = 1 },
    rw (ne→eqb e null ne) refl,
    ground (arith, ne),
    refl,
  )
  append_parts (some a) n fit =
      subst
        (λ (m : ℕ).
          Appended (items_of a) e
            (array_nt_append_element junk (record { cells = some a; length = m }) e))
        fit (append_cells a)

-- Appending an element that is not NULL to an array whose tracked length is that of its cells
-- succeeds: the elements are the old ones and then the new one, the result is the index of the new
-- one, and the tracked length again fits. This holds whatever `realloc` leaves in the cells it adds.
pub append-items :
    (junk : Ptr) (r : TrackedArray) (e : Ptr)
    → e ≢ null
    → IsAllocated r
    → Appended (items r) e (array_nt_append_element junk r e)
append-items junk r e ne fit = append_parts junk e ne r.cells r.length fit
