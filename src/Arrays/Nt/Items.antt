-- ===== src/Arrays/Nt/Items.antt =====
-- The abstract view of a null terminated array, the elements in front of the first NULL, and how
-- writes to cells and the search for the first NULL act on it.
use logxcontroll_v.Base.{
  ℕ, suc, ◌+◌, ◌≤◌, ◌<◌, ◌≡◌, ◌≢◌, refl, ap, none, some, List, [], ◌∷◌, ◌++◌, arith, ◌==◌, ltb,
  if◌then◌else◌, Bool-cases, inl, inr, length, set, write, realloc, pos, minus_one, Ptr, null,
}
use logxcontroll_v.Arrays.Tracked.{TrackedArray}
use logxcontroll_v.Arrays.Nt.{first_null, population_loop}

abbrev pub items_of : List Ptr → List Ptr
items_of [] = []
items_of (c ∷ a) = let rest = items_of a in if c == null then [] else c ∷ rest

abbrev pub items : TrackedArray → List Ptr
items r = elim r.cells [ none ↦ [] | some a ↦ items_of a ]

pub length-items-le : (a : List Ptr) → length (items_of a) ≤ length a
length-items-le [] = omega arith
length-items-le (c ∷ a) = ground (arith, length-items-le a)

pub items-eq_of_full : (a : List Ptr) → length a ≤ length (items_of a) → items_of a ≡ a
items-eq_of_full [] h = refl
items-eq_of_full (c ∷ a) h = ground (arith, items-eq_of_full a)

pub first_null_lem :
    (a : List Ptr) (i : ℕ)
    → first_null a (length a) i
      ≡ some (
          if ltb (length (items_of a)) (length a) then pos (i + length (items_of a)) else minus_one)
unfolding first_null
first_null_lem [] i = refl
first_null_lem (c ∷ a) i = ground (arith, first_null_lem a (suc i))

pub population_loop_lem :
    (a : List Ptr) (i : ℕ) → population_loop a (length a) i ≡ some (i + length (items_of a))
unfolding population_loop
population_loop_lem [] i = ground arith
population_loop_lem (c ∷ a) i = ground (arith, population_loop_lem a (suc i))

pub items-set_last :
    (a : List Ptr) (e : Ptr)
    → e ≢ null
    → suc (length (items_of a)) ≡ length a
    → items_of (set a (length (items_of a)) e) ≡ items_of a ++ e ∷ []
items-set_last [] e ne h = absurd (omega arith)
items-set_last (c ∷ a) e ne h = elim (Bool-cases (c == null)) [
  | inl z ↦ rw z (last_cell a (ground arith))
  | inr z ↦ rw z (rw z (ap (λ r. c ∷ r) (items-set_last a e ne (ground arith))))
]
  where
    last_cell : (b : List Ptr) → length b ≡ 0 → items_of (e ∷ b) ≡ e ∷ []
    last_cell [] l = ground arith
    last_cell (x ∷ b) l = absurd (omega arith)

pub items-set_inner :
    (a : List Ptr) (e : Ptr)
    → e ≢ null
    → suc (length (items_of a)) < length a
    → items_of (set (set a (length (items_of a)) e) (suc (length (items_of a))) null)
      ≡ items_of a ++ e ∷ []
items-set_inner [] e ne h = absurd (omega arith)
items-set_inner (c ∷ a) e ne h = elim (Bool-cases (c == null)) [
  | inl z ↦ rw z (next_cell a (ground arith))
  | inr z ↦ rw z (rw z (ap (λ r. c ∷ r) (items-set_inner a e ne (ground arith))))
]
  where
    next_cell : (b : List Ptr) → 0 < length b → items_of (e ∷ set b 0 null) ≡ e ∷ []
    next_cell [] l = absurd (omega arith)
    next_cell (x ∷ b) l = ground arith

-- Growing a full array by one cell.
pub write-realloc :
    (junk e : Ptr) (a : List Ptr)
    → write (realloc junk (suc (length a)) a) (length a) e ≡ some (a ++ e ∷ [])
write-realloc junk e [] = refl
write-realloc junk e (c ∷ a) = ground (arith, write-realloc junk e a)

pub items-append_full :
    (a : List Ptr) (e : Ptr)
    → e ≢ null
    → items_of a ≡ a
    → items_of (a ++ e ∷ []) ≡ items_of a ++ e ∷ []
items-append_full [] e ne h = ground arith
items-append_full (c ∷ a) e ne h = ground (arith, items-append_full a e ne)
