-- ===== src/Arrays/Fix/Laws.antt =====
-- What the operations on fixed arrays do to the slots.
use logxcontroll_v.Base.{
  ℕ, suc, ◌+◌, ◌<◌, ◌≡◌, ◌≢◌, refl, sym, ap, subst, Bool, true, false, Option, none, some, List, [],
  ◌∷◌, ◌++◌, ◌⊎◌, inl, inr, arith, ltb, length, length-set, length-append, get_elem?-append_left,
  get_elem?-append_last, get_elem?, get_elem?-set_self, get_elem?-set_ne, get_elem?-lt, set,
  write-eq-set, ℤ, pos, negsuc, Ptr, null, ◌∙◌,
}
use logxcontroll_v.Arrays.Tracked.{TrackedArray, CellsFit, IsAllocated}
use logxcontroll_v.Arrays.Index.{index_of, IsFirst, index_of-IsFirst, zero_offset}
use logxcontroll_v.Arrays.Fix.{
  add_at, array_fix_first_free_slot, array_fix_add_element, try_add_at, array_fix_try_add_last_null,
  array_fix_contains, array_fix_population, fix_contains_loop, fix_population_loop,
  array_fix_ensure_index,
}
use logxcontroll_v.Arrays.Fix.Slots.{
  slots, taken, first_free_loop_lem, fix_contains_loop_lem, fix_population_loop_lem, taken-set,
  taken-append_null, grow_zero_one,
}

-- Slot `i` was free, or just behind the array, and holds `e` now; the other slots are as before.
pub record Filled (e : Ptr) (old new : List Ptr) (i : ℕ) : Type 0 where
  pub free : (get_elem? old i ≡ some null) ⊎ (i ≡ length old)
  pub filled : get_elem? new i ≡ some e
  pub others : (j : ℕ) → j ≢ i → j < length old → get_elem? new j ≡ get_elem? old j
  pub counted : taken new ≡ suc (taken old)

fill_free :
    (a : List Ptr) (i : ℕ) (e : Ptr)
    → e ≢ null
    → get_elem? a i ≡ some null
    → Filled e a (set a i e) i
fill_free a i e ne h = record {
  free = inl h;
  filled = get_elem?-set_self a i e (get_elem?-lt a i h);
  others = λ j d l. get_elem?-set_ne a i j e (λ q. d (sym q));
  counted = taken-set a i e ne h;
}

fill_new :
    (a : List Ptr) (e : Ptr) → e ≢ null → Filled e a (set (a ++ null ∷ []) (length a) e) (length a)
fill_new a e ne = record {
  free = inr refl;
  filled =
      get_elem?-set_self (a ++ null ∷ []) (length a) e (omega (arith, length-append a (null ∷ [])));
  others = λ j d l.
      get_elem?-set_ne (a ++ null ∷ []) (length a) j e (λ q. d (sym q))
      ∙ get_elem?-append_left a (null ∷ []) j l;
  counted =
      taken-set (a ++ null ∷ []) (length a) e ne (get_elem?-append_last a null)
      ∙ ap suc (taken-append_null a);
}

-- The search for a free slot, over cells that fit the length.
first_free_slot_lem :
    (a : List Ptr)
    → array_fix_first_free_slot (record { cells = some a; length = length a })
      ≡ some (index_of null a)
unfolding array_fix_first_free_slot
first_free_slot_lem a = first_free_loop_lem a 0 ∙ ap some (zero_offset (index_of null a))

pub Added : TrackedArray → Ptr → Option TrackedArray → Type 0
Added r e out =
    (r' : TrackedArray) × (i : ℕ) × (out ≡ some r')
    × Filled e (slots r) (slots r') i
    × IsAllocated r'

-- One more slot at the end, cleared.
grown :
    (a : List Ptr)
    → array_fix_ensure_index (record { cells = some a; length = length a }) (length a)
      ≡ record { cells = some (a ++ null ∷ []); length = length a + 1 }
unfolding array_fix_ensure_index
grown a = rw (irreflexive (length a)) (rw (plus_one (length a), grow_zero_one a) refl)
  where
    irreflexive : (k : ℕ) → ltb k k ≡ false
    irreflexive k = ground arith

    plus_one : (k : ℕ) → k + 1 ≡ suc k
    plus_one k = omega arith

add_at_found :
    (a : List Ptr) (e : Ptr)
    → e ≢ null
    → (z : ℤ) → IsFirst null a z
    → Added
        (record { cells = some a; length = length a })
        e
        (add_at (record { cells = some a; length = length a }) e z)
unfolding add_at Added
add_at_found a e ne (pos i) h = (
  record { cells = some (set a i e); length = length a },
  i,
  rw (write-eq-set a i e (get_elem?-lt a i h.0)) refl,
  fill_free a i e ne h.0,
  length-set a i e,
)
add_at_found a e ne (negsuc n) h =
    let inside : length a < length (a ++ null ∷ []) = omega (arith, length-append a (null ∷ [])) in
    (
      record { cells = some (set (a ++ null ∷ []) (length a) e); length = length a + 1 },
      length a,
      rw (grown a) (rw (write-eq-set (a ++ null ∷ []) (length a) e inside) refl),
      fill_new a e ne,
      omega (arith, length-set (a ++ null ∷ []) (length a) e, length-append a (null ∷ [])),
    )

add_parts :
    (c : Option (List Ptr)) (n : ℕ) (e : Ptr)
    → e ≢ null
    → CellsFit c n
    → Added
        (record { cells = c; length = n })
        e
        (array_fix_add_element (record { cells = c; length = n }) e)
unfolding array_fix_add_element Added array_fix_ensure_index
add_parts none n e ne fit = (
  record { cells = some (e ∷ []); length = 1 },
  0,
  rw fit refl,
  record {
    free = inr refl;
    filled = refl;
    others = λ j d l. absurd (omega arith);
    counted = ground (arith, ne);
  },
  refl,
)
add_parts (some a) n e ne fit =
    subst
      (λ (m : ℕ).
        Added (record { cells = some a; length = m }) e
          (array_fix_add_element (record { cells = some a; length = m }) e))
      fit
      (rw (first_free_slot_lem a) (add_at_found a e ne (index_of null a) (index_of-IsFirst null a)))

-- Adding an element that is not NULL, to an array whose tracked length is that of its cells,
-- succeeds: the element takes one slot, which was free or is new at the end; every other slot keeps
-- its content, one more slot is taken, and the tracked length fits again.
pub add-slots :
    (r : TrackedArray) (e : Ptr) → e ≢ null → IsAllocated r → Added r e (array_fix_add_element r e)
add-slots r e ne fit = add_parts r.cells r.length e ne fit

-- What `array_fix_try_add_last_null` answers: it took a free slot, or there is none.
unfoldable pub TriedToAdd : TrackedArray → Ptr → Option (Bool × TrackedArray) → Type 0
TriedToAdd r e out =
    ((r' : TrackedArray) × (i : ℕ) × (out ≡ some (true, r'))
      × (get_elem? (slots r) i ≡ some null)
      × (slots r' ≡ set (slots r) i e)
      × (r'.length ≡ r.length))
    ⊎ ((out ≡ some (false, r)) × ((j : ℕ) → get_elem? (slots r) j ≢ some null))

try_add_found :
    (a : List Ptr) (e : Ptr) (z : ℤ)
    → IsFirst null a z
    → TriedToAdd
        (record { cells = some a; length = length a })
        e
        (try_add_at (record { cells = some a; length = length a }) e z)
unfolding try_add_at TriedToAdd
try_add_found a e (pos i) h = inl (
  record { cells = some (set a i e); length = length a },
  i,
  rw (write-eq-set a i e (get_elem?-lt a i h.0)) refl,
  h.0,
  refl,
  refl,
)
try_add_found a e (negsuc n) h = inr (refl, h.1)

try_add_parts :
    (c : Option (List Ptr)) (n : ℕ) (e : Ptr)
    → CellsFit c n
    → TriedToAdd
        (record { cells = c; length = n })
        e
        (array_fix_try_add_last_null (record { cells = c; length = n }) e)
unfolding array_fix_try_add_last_null TriedToAdd
try_add_parts none n e fit = inr (refl, λ j h. cc)
try_add_parts (some a) n e fit =
    subst
      (λ (m : ℕ).
        TriedToAdd (record { cells = some a; length = m }) e
          (array_fix_try_add_last_null (record { cells = some a; length = m }) e))
      fit
      (rw (first_free_slot_lem a) (try_add_found a e (index_of null a) (index_of-IsFirst null a)))

-- With a tracked length that fits the cells, `array_fix_try_add_last_null` either answers true and
-- has put the element into a slot that was free, with every other slot and the length unchanged,
-- or it answers false, changes nothing, and no slot is free.
pub try_add-slots :
    (r : TrackedArray) (e : Ptr) → IsAllocated r → TriedToAdd r e (array_fix_try_add_last_null r e)
try_add-slots r e fit = try_add_parts r.cells r.length e fit

search_parts :
    (c : Option (List Ptr)) (n : ℕ) (p : Ptr)
    → CellsFit c n
    → (array_fix_contains (record { cells = c; length = n }) p
        ≡ some (index_of p (slots (record { cells = c; length = n }))))
      × (array_fix_population (record { cells = c; length = n })
          ≡ some (taken (slots (record { cells = c; length = n }))))
unfolding array_fix_contains array_fix_population
search_parts none n p fit = (refl, refl)
search_parts (some a) n p fit =
    subst
      (λ (m : ℕ).
        (fix_contains_loop a m 0 p ≡ some (index_of p a))
        × (fix_population_loop a m 0 ≡ some (taken a)))
      fit
      (
        fix_contains_loop_lem a 0 p ∙ ap some (zero_offset (index_of p a)),
        ground (arith, fix_population_loop_lem a 0),
      )

-- With a tracked length that fits the cells, `array_fix_contains` gives the first index of the
-- pointer or -1 where no slot holds it, and `array_fix_population` the number of taken slots.
pub search-slots :
    (r : TrackedArray) (p : Ptr)
    → IsAllocated r
    → (z : ℤ) × (array_fix_contains r p ≡ some z)
      × IsFirst p (slots r) z
      × (array_fix_population r ≡ some (taken (slots r)))
search-slots r p fit =
    let both = search_parts r.cells r.length p fit in
    (index_of p (slots r), both.0, index_of-IsFirst p (slots r), both.1)
