-- ===== src/Arrays/Nt/Pop.antt =====
-- `array_nt_pop_element` removes one element and keeps the others in order.
use logxcontroll_v.Base.{
  ℕ, zero, suc, ◌-◌, ◌<◌, ◌≡◌, refl, sym, subst, ◌∙◌, false, Option, none, some, List, [], ◌∷◌,
  ◌++◌, arith, leb, length, length-append, get_elem?, write, erase_idx, Ptr, null, ◌>>=◌, >>=-assoc,
}
use logxcontroll_v.Arrays.Tracked.{TrackedArray, CellsFit, IsAllocated}
use logxcontroll_v.Arrays.Nt.{shift_down, pop_cells, array_nt_pop_element}
use logxcontroll_v.Arrays.Nt.Items.{items_of, items, length-items-le}

-- The cells after the shift and the write of NULL: one cell erased, and a NULL at the end.
pub close_gap : List Ptr → ℕ → List Ptr
close_gap a index = erase_idx a index ++ null ∷ []

-- The shift of `rounds` cells under one more cell in front.
pub shift_down_cons :
    (rounds i : ℕ) (c : Ptr) (a : List Ptr)
    → shift_down rounds (suc i) (c ∷ a) ≡ (shift_down rounds i a >>= λ b. some (c ∷ b))
unfolding shift_down
shift_down_cons zero i c a = refl
shift_down_cons (suc rounds) i c a =
    through (shift_down_cons rounds (suc i) c) (get_elem? a (suc i))
  where
    written :
        ((b : List Ptr)
          → shift_down rounds (suc (suc i)) (c ∷ b)
            ≡ (shift_down rounds (suc i) b >>= λ d. some (c ∷ d)))
        → (o : Option (List Ptr))
        → ((o >>= λ b. some (c ∷ b)) >>= λ b. shift_down rounds (suc (suc i)) b)
          ≡ ((o >>= λ b. shift_down rounds (suc i) b) >>= λ b. some (c ∷ b))
    written ih none = refl
    written ih (some b) = ih b

    through :
        ((b : List Ptr)
          → shift_down rounds (suc (suc i)) (c ∷ b)
            ≡ (shift_down rounds (suc i) b >>= λ d. some (c ∷ d)))
        → (o : Option Ptr)
        → (o >>= λ x. write (c ∷ a) (suc i) x >>= λ b. shift_down rounds (suc (suc i)) b)
          ≡ ((o >>= λ x. write a i x >>= λ b. shift_down rounds (suc i) b) >>= λ b. some (c ∷ b))
    through ih none = refl
    through ih (some x) = written ih (write a i x)

pub write_cons :
    (o : Option (List Ptr)) (c : Ptr) (n : ℕ)
    → ((o >>= λ b. some (c ∷ b)) >>= λ b. write b (suc n) null)
      ≡ ((o >>= λ b. write b n null) >>= λ b. some (c ∷ b))
write_cons none c n = refl
write_cons (some b) c n = refl

-- From index 0: every cell takes the next one's value, and the last one becomes NULL.
gap_zero :
    (x : Ptr) (a : List Ptr)
    → (shift_down (length a) 0 (x ∷ a) >>= λ b. write b (length a) null) ≡ some (a ++ null ∷ [])
unfolding shift_down
gap_zero x [] = refl
gap_zero x (y ∷ a) =
    rw (shift_down_cons (length a) 0 y (y ∷ a))
      (rw (write_cons (shift_down (length a) 0 (y ∷ a)) y (length a)) (rw (gap_zero y a) refl))

gap_at :
    (a : List Ptr) (i : ℕ)
    → i < length a
    → (shift_down (length a - 1 - i) i a >>= λ b. write b (length a - 1) null)
      ≡ some (close_gap a i)
unfolding close_gap
gap_at [] i h = elim h [ ]
gap_at (x ∷ a) zero h = rw (minus_zero, minus_one) (gap_zero x a)
  where
    minus_zero : suc (length a) - 1 - 0 ≡ length a
    minus_zero = omega arith

    minus_one : suc (length a) - 1 ≡ length a
    minus_one = omega arith
gap_at (x ∷ a) (suc i) h =
    rw (rounds, last)
      (rw (shift_down_cons (length a - 1 - i) i x a) (
        rw (write_cons (shift_down (length a - 1 - i) i a) x (length a - 1))
          (rw (gap_at a i (omega arith)) refl)))
  where
    rounds : suc (length a) - 1 - suc i ≡ length a - 1 - i
    rounds = omega arith

    last : suc (length a) - 1 ≡ suc (length a - 1)
    last = omega arith

items-append_null : (a : List Ptr) → items_of (a ++ null ∷ []) ≡ items_of a
items-append_null [] = refl
items-append_null (c ∷ a) = ground (arith, items-append_null a)

items-close_gap :
    (a : List Ptr) (i : ℕ)
    → i < length (items_of a)
    → items_of (close_gap a i) ≡ erase_idx (items_of a) i
unfolding close_gap
items-close_gap [] i h = elim h [ ]
items-close_gap (c ∷ a) zero h = ground (arith, items-append_null a)
items-close_gap (c ∷ a) (suc i) h = ground (arith, items-close_gap a i)

get_elem?-items :
    (a : List Ptr) (i : ℕ)
    → i < length (items_of a)
    → (x : Ptr) × (get_elem? a i ≡ some x) × (get_elem? (items_of a) i ≡ some x)
get_elem?-items [] i h = elim h [ ]
get_elem?-items (c ∷ a) zero h = (c, refl, ground arith)
get_elem?-items (c ∷ a) (suc i) h =
    let found = get_elem?-items a i (ground arith) in (found.0, found.1, ground (arith, found.2))

length-close_gap : (a : List Ptr) (i : ℕ) → i < length a → length (close_gap a i) ≡ length a
unfolding close_gap
length-close_gap [] i h = elim h [ ]
length-close_gap (c ∷ a) zero h = omega (arith, length-append a (null ∷ []))
length-close_gap (c ∷ a) (suc i) h = omega (arith, length-close_gap a i)

-- What a successful removal at `i` leaves behind, for the elements `xs` before it.
abbrev pub Popped : List Ptr → ℕ → Option (Ptr × TrackedArray) → Type 0
Popped xs i out =
    (x : Ptr) × (r' : TrackedArray) × (out ≡ some (x, r'))
    × (get_elem? xs i ≡ some x)
    × (items r' ≡ erase_idx xs i)
    × IsAllocated r'

pop_cells-items :
    (a : List Ptr) (i : ℕ)
    → i < length (items_of a)
    → Popped (items_of a) i (pop_cells a (length a) i)
unfolding pop_cells
pop_cells-items a i h =
    let inside : i < length a = omega (arith, length-items-le a) in
    let found = get_elem?-items a i h in
    let keep : List Ptr → TrackedArray = λ c. record { cells = some c; length = length a } in
    (
      found.0,
      record { cells = some (close_gap a i); length = length a },
      rw (guard (length a) i inside) (
          rw (found.1) (
            ◌∙◌
              (sym (
                >>=-assoc (shift_down (length a - 1 - i) i a) (λ b. write b (length a - 1) null)
                  (λ c. some (found.0, keep c))))
              (rw (gap_at a i inside) refl))),
      found.2,
      items-close_gap a i h,
      length-close_gap a i inside,
    )
  where
    guard : (n k : ℕ) → k < n → leb n k ≡ false
    guard n k l = ground arith

pop_parts :
    (c : Option (List Ptr)) (n i : ℕ)
    → CellsFit c n
    → i < length (items (record { cells = c; length = n }))
    → Popped
        (items (record { cells = c; length = n }))
        i
        (array_nt_pop_element (record { cells = c; length = n }) i)
unfolding array_nt_pop_element
pop_parts none n i fit h = elim h [ ]
pop_parts (some a) n i fit h =
    subst (λ (m : ℕ). Popped (items_of a) i (pop_cells a m i)) fit (pop_cells-items a i h)

-- Popping at the index of an element, of an array whose tracked length is that of its cells, gives
-- that element; the elements are then the old ones without it, in their order, and the tracked
-- length still fits.
pub pop-items :
    (r : TrackedArray) (i : ℕ)
    → i < length (items r)
    → IsAllocated r
    → Popped (items r) i (array_nt_pop_element r i)
pop-items r i h fit = pop_parts r.cells r.length i fit h
