-- ===== src/Arrays/Fix.antt =====
-- The fixed arrays of core/utils/utils.c: NULL may stand between the elements, and removing an
-- element leaves a free slot. An operation gives `none` where the code leaves the array.
pub mod Slots
pub mod Laws
use logxcontroll_v.Base.{
  ℕ, zero, suc, ◌+◌, Bool, true, false, Option, none, some, List, [], ◌∷◌, ◌==◌, ltb, leb,
  if◌then◌else◌, get_elem?, ℤ, pos, negsuc, minus_one, is_negative, Ptr, null, ◌>>=◌, write,
}
use logxcontroll_v.Arrays.Tracked.{TrackedArray}

unfoldable pub array_fix_remove_element : TrackedArray → ℕ → Option (Ptr × TrackedArray)
array_fix_remove_element r index = elim r.cells [
  | none ↦ some (null, r)
  | some a ↦
      if leb r.length index
      then some (null, r)
      else (get_elem? a index >>= λ ret.
          write a index null >>= λ b. some (ret, record r { cells = some b }))
]

unfoldable pub first_free_loop : List Ptr → ℕ → ℕ → Option ℤ
first_free_loop a zero i = some minus_one
first_free_loop [] (suc rounds) i = none
first_free_loop (c ∷ a) (suc rounds) i =
    let rest = first_free_loop a rounds (suc i) in if c == null then some (pos i) else rest

pub array_fix_first_free_slot : TrackedArray → Option ℤ
unfolding first_free_loop
array_fix_first_free_slot r = elim r.cells [
  | none ↦ some minus_one
  | some a ↦ first_free_loop a r.length 0
]

-- The cells of `realloc` to `n` cells, and the `memset` of those that it adds.
unfoldable pub grow_zero : ℕ → List Ptr → List Ptr
grow_zero zero a = []
grow_zero (suc n) [] = null ∷ grow_zero n []
grow_zero (suc n) (c ∷ a) = c ∷ grow_zero n a

pub array_fix_ensure_index : TrackedArray → ℕ → TrackedArray
unfolding grow_zero
array_fix_ensure_index r index = if ltb index r.length then r else record {
  cells = some (grow_zero (index + 1) (elim r.cells [ none ↦ [] | some a ↦ a ]));
  length = index + 1;
}

pub write_slot : TrackedArray → ℕ → Ptr → Option TrackedArray
write_slot r index element = elim r.cells [
  | none ↦ none
  | some a ↦ write a index element >>= λ b. some (record r { cells = some b })
]

pub add_at : TrackedArray → Ptr → ℤ → Option TrackedArray
unfolding array_fix_ensure_index write_slot
add_at r element (pos index) = write_slot r index element
add_at r element _ = write_slot (array_fix_ensure_index r r.length) r.length element

pub array_fix_add_element : TrackedArray → Ptr → Option TrackedArray
unfolding array_fix_first_free_slot add_at
array_fix_add_element r element = array_fix_first_free_slot r >>= add_at r element

pub try_add_at : TrackedArray → Ptr → ℤ → Option (Bool × TrackedArray)
unfolding write_slot
try_add_at r element (pos index) = write_slot r index element >>= λ r'. some (true, r')
try_add_at r element _ = some (false, r)

pub array_fix_try_add_last_null : TrackedArray → Ptr → Option (Bool × TrackedArray)
unfolding array_fix_first_free_slot try_add_at
array_fix_try_add_last_null r element = array_fix_first_free_slot r >>= try_add_at r element

unfoldable pub fix_contains_loop : List Ptr → ℕ → ℕ → Ptr → Option ℤ
fix_contains_loop a zero i p = some minus_one
fix_contains_loop [] (suc rounds) i p = none
fix_contains_loop (c ∷ a) (suc rounds) i p =
    let rest = fix_contains_loop a rounds (suc i) p in if c == p then some (pos i) else rest

pub array_fix_contains : TrackedArray → Ptr → Option ℤ
unfolding fix_contains_loop
array_fix_contains r p = elim r.cells [
  | none ↦ some minus_one
  | some a ↦ fix_contains_loop a r.length 0 p
]

unfoldable pub fix_population_loop : List Ptr → ℕ → ℕ → Option ℕ
fix_population_loop a zero count = some count
fix_population_loop [] (suc rounds) count = none
fix_population_loop (c ∷ a) (suc rounds) count =
    fix_population_loop a rounds (if c == null then count else suc count)

pub array_fix_population : TrackedArray → Option ℕ
unfolding fix_population_loop
array_fix_population r = elim r.cells [ none ↦ some 0 | some a ↦ fix_population_loop a r.length 0 ]

-- `length` and `index` are of type `int` here: a negative index reads in front of the array.
unfoldable pub array_fix_try_get : TrackedArray → ℤ → Option Ptr
array_fix_try_get r (pos index) = elim r.cells [
  | none ↦ some null
  | some a ↦ if leb r.length index then some null else get_elem? a index
]
array_fix_try_get r _ = elim r.cells [ none ↦ some null | some a ↦ none ]
