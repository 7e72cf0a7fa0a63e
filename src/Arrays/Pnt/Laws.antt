-- ===== src/Arrays/Pnt/Laws.antt =====
-- What the operations on packed arrays do to the elements.
use logxcontroll_v.Base.{
  ℕ, zero, suc, ◌+◌, ◌^◌, ◌<◌, ◌≡◌, ◌≢◌, refl, sym, ap, subst, false, Option, none, some, List, [],
  ◌∷◌, ◌++◌, arith, ltb, length, length-append, get_elem?-append_left, get_elem?, get_elem?-total,
  length-erase_idx, erase_idx, last_of, write, realloc, ℤ, pos, minus_one, Ptr, null, ◌>>=◌,
  >>=-assoc, ne→eqb, ◌∙◌, ◌&&◌,
}
use logxcontroll_v.Arrays.Index.{index_of, IsFirst, index_of-IsFirst, zero_offset}
use logxcontroll_v.Arrays.Pnt.{
  array_pnt_append_element, append_from, next_index, array_pnt_population, array_pnt_contains,
  array_pnt_pop_element, pop_from, lst_below,
}
use logxcontroll_v.Arrays.Pnt.Packed.{
  NonNull, packed, PntHolds, last_index, last_index_lem, pnt_contains_loop_lem, shift_stops,
  realloc_same, append_writes,
}

next_index_lem : (xs : List Ptr) → next_index (last_index xs) ≡ length xs
next_index_lem [] = refl
next_index_lem (x ∷ xs) = omega arith

append_from_lem :
    (junk e : Ptr) (arr : Option (List Ptr)) (xs : List Ptr)
    → PntHolds arr xs
    → append_from junk arr e (length xs) ≡ some (pos (length xs), some (packed (xs ++ e ∷ [])))
unfolding append_from
append_from_lem junk e none xs h = rw h refl
append_from_lem junk e (some a) xs h =
    rw (h, plus_two (length xs), plus_one (length xs))
      (sym (
          >>=-assoc (write (realloc junk (suc (suc (length xs))) (packed xs)) (length xs) e)
            (λ b. write b (suc (length xs)) null) done)
        ∙ ap (λ o. o >>= done) (append_writes junk e xs))
  where
    plus_two : (n : ℕ) → n + 2 ≡ suc (suc n)
    plus_two n = omega arith

    plus_one : (n : ℕ) → n + 1 ≡ suc n
    plus_one n = omega arith

    done : List Ptr → Option (ℤ × Option (List Ptr))
    done c = some (pos (length xs), some c)

-- Appending an element that is not NULL to a packed array gives the index behind the old elements
-- and the packed array of the old elements and then the new one, whatever memory `realloc` adds.
-- A NULL array counts as one with no element.
pub append-packed :
    (junk e : Ptr) (arr : Option (List Ptr)) (xs : List Ptr)
    → e ≢ null
    → NonNull xs
    → PntHolds arr xs
    → array_pnt_append_element junk arr e ≡ some (pos (length xs), some (packed (xs ++ e ∷ [])))
unfolding array_pnt_append_element
append-packed junk e arr xs ne nn h =
    rw (ne→eqb e null ne)
      (rw (last_index_lem arr xs nn h) (rw (next_index_lem xs) (append_from_lem junk e arr xs h)))

-- The population of a packed array is the number of its elements, and the search gives the first
-- index of the pointer among them, or -1 where it is none of them.
pub search-packed :
    (arr : Option (List Ptr)) (xs : List Ptr) (p : Ptr)
    → NonNull xs
    → PntHolds arr xs
    → (z : ℤ) × (array_pnt_contains arr p ≡ some z)
      × IsFirst p xs z
      × (array_pnt_population arr ≡ some (length xs))
unfolding array_pnt_contains array_pnt_population
search-packed none xs p nn h = (minus_one, refl, rw h (refl, λ j e. cc), rw h refl)
search-packed (some a) xs p nn h = (
  index_of p xs,
  rw h (pnt_contains_loop_lem xs 0 p nn ∙ ap some (zero_offset (index_of p xs))),
  index_of-IsFirst p xs,
  rw (last_index_lem (some a) xs nn h) (ap some (next_index_lem xs)),
)

NonNull-last_of : (x : Ptr) (xs : List Ptr) → NonNull (x ∷ xs) → last_of x xs ≢ null
NonNull-last_of x [] nn = nn.0
NonNull-last_of x (y ∷ xs) nn = NonNull-last_of y xs nn.1

NonNull-erase_append :
    (xs : List Ptr) (i : ℕ) (e : Ptr) → NonNull xs → e ≢ null → NonNull (erase_idx xs i ++ e ∷ [])
NonNull-erase_append [] i e nn ne = (ne, tt)
NonNull-erase_append (x ∷ []) zero e nn ne = (ne, tt)
NonNull-erase_append (x ∷ y ∷ xs) zero e nn ne =
    (nn.1.0, NonNull-erase_append (y ∷ xs) zero e nn.1 ne)
NonNull-erase_append (x ∷ xs) (suc i) e nn ne = (nn.0, NonNull-erase_append xs i e nn.1 ne)

NonNull-kept :
    (x : Ptr) (xs : List Ptr) (i : ℕ)
    → NonNull (x ∷ xs)
    → NonNull (erase_idx (x ∷ xs) i ++ last_of x xs ∷ [])
NonNull-kept x xs i nn = NonNull-erase_append (x ∷ xs) i (last_of x xs) nn (NonNull-last_of x xs nn)

pop_from_lem :
    (junk x : Ptr) (xs : List Ptr) (i : ℕ)
    → i < suc (length xs)
    → (y : Ptr) × (pop_from junk (some (packed (x ∷ xs))) i (pos (length xs))
        ≡ some (y, some (packed (erase_idx (x ∷ xs) i ++ last_of x xs ∷ []))))
      × (get_elem? (x ∷ xs) i ≡ some y)
unfolding pop_from lst_below
pop_from_lem junk x xs i h =
    let found = get_elem?-total (x ∷ xs) i h in
    (
      found.0,
      rw (not_below (length xs) i h) (
          rw (get_elem?-append_left (x ∷ xs) (null ∷ []) i h ∙ found.1) (
            rw (shift_stops x xs i h) (
              ap (λ b. some (found.0, some b))
                (subst (λ (n : ℕ). realloc junk n shifted ≡ shifted) size
                  (realloc_same junk shifted))))),
      found.1,
    )
  where
    not_below : (n k : ℕ) → k < suc n → (ltb n k && ltb k (2 ^ 31)) ≡ false
    not_below n k l = ground arith

    shifted : List Ptr
    shifted = packed (erase_idx (x ∷ xs) i ++ last_of x xs ∷ [])

    size : length shifted ≡ length xs + 2
    size = omega (
      arith,
      length-append (erase_idx (x ∷ xs) i) (last_of x xs ∷ []),
      length-erase_idx (x ∷ xs) i h,
      length-append (erase_idx (x ∷ xs) i ++ last_of x xs ∷ []) (null ∷ []),
    )

-- Popping at the index of an element, of a packed array, gives that element and shifts the ones
-- behind it down, but the array keeps its length: its last element now stands at the end once more,
-- so that the population afterwards is the population before.
pub pop-keeps_population :
    (junk x : Ptr) (xs : List Ptr) (i : ℕ)
    → NonNull (x ∷ xs)
    → i < length (x ∷ xs)
    → (y : Ptr) × (arr' : Option (List Ptr)) × (array_pnt_pop_element junk
          (some (packed (x ∷ xs)))
          i
        ≡ some (y, arr'))
      × (get_elem? (x ∷ xs) i ≡ some y)
      × PntHolds arr' (erase_idx (x ∷ xs) i ++ last_of x xs ∷ [])
      × (array_pnt_population arr' ≡ array_pnt_population (some (packed (x ∷ xs))))
unfolding array_pnt_pop_element array_pnt_population
pop-keeps_population junk x xs i nn h =
    let found = pop_from_lem junk x xs i h in
    let kept = erase_idx (x ∷ xs) i ++ last_of x xs ∷ [] in
    (
      found.0,
      some (packed kept),
      rw (last_index_lem (some (packed (x ∷ xs))) (x ∷ xs) nn refl) (found.1),
      found.2,
      refl,
      rw (last_index_lem (some (packed (x ∷ xs))) (x ∷ xs) nn refl) (
          rw (last_index_lem (some (packed kept)) kept (NonNull-kept x xs i nn) refl) (
            ap some (
              next_index_lem kept
              ∙ omega (
                arith,
                length-append (erase_idx (x ∷ xs) i) (last_of x xs ∷ []),
                length-erase_idx (x ∷ xs) i h,
              )))),
    )
