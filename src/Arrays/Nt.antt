-- ===== src/Arrays/Nt.antt =====
-- The null terminated arrays of core/utils/utils.c, with their tracked length. An operation gives
-- `none` where the code accesses memory outside of the array.
pub mod Items
pub mod Search
pub mod Pop
pub mod Append
use logxcontroll_v.Base.{
  ℕ, zero, suc, ◌+◌, ◌-◌, Option, none, some, List, [], ◌∷◌, ◌==◌, ltb, leb, if◌then◌else◌,
  get_elem?, ℤ, pos, minus_one, Ptr, null, ◌>>=◌, write, realloc,
}
use logxcontroll_v.Arrays.Tracked.{TrackedArray}

unfoldable pub array_nt_init : TrackedArray
array_nt_init = record { cells = some (null ∷ null ∷ []); length = 2 }

-- `while(i < len) { a[i] = a[i+1]; ++i; }`, with the rounds that are left.
unfoldable pub shift_down : ℕ → ℕ → List Ptr → Option (List Ptr)
shift_down zero i a = some a
shift_down (suc rounds) i a =
    get_elem? a (suc i) >>= λ x. write a i x >>= λ b. shift_down rounds (suc i) b

pub pop_cells : List Ptr → ℕ → ℕ → Option (Ptr × TrackedArray)
unfolding shift_down
pop_cells a len index =
    if leb len index then some (null, record { cells = some a; length = len }) else do
      ret ← get_elem? a index
      b ← shift_down (len - 1 - index) index a
      c ← write b (len - 1) null
      some (ret, record { cells = some c; length = len })

pub array_nt_pop_element : TrackedArray → ℕ → Option (Ptr × TrackedArray)
unfolding pop_cells
array_nt_pop_element r index = elim r.cells [
  | none ↦ some (null, r)
  | some a ↦ pop_cells a r.length index
]

-- The search for the first NULL: the cells from `i` on, and the rounds that are left.
unfoldable pub first_null : List Ptr → ℕ → ℕ → Option ℤ
first_null a zero i = some minus_one
first_null [] (suc rounds) i = none
first_null (c ∷ a) (suc rounds) i =
    let rest = first_null a rounds (suc i) in if c == null then some (pos i) else rest

-- The branch at the index `ep` that the search found.
pub append_at : Ptr → List Ptr → ℕ → Ptr → ℤ → Option (ℤ × TrackedArray)
append_at junk a len element (pos ep) = write a ep element >>= λ b.
    (if ltb (ep + 1) len then write b (ep + 1) null else some b) >>= λ c.
    some (pos ep, record { cells = some c; length = len })
append_at junk a len element _ = write (realloc junk (len + 1) a) len element >>= λ b.
    some (pos len, record { cells = some b; length = len + 1 })

unfoldable pub array_nt_append_element : Ptr → TrackedArray → Ptr → Option (ℤ × TrackedArray)
unfolding first_null append_at
array_nt_append_element junk r element =
    if element == null then some (minus_one, r) else elim r.cells [
      | none ↦ some (pos 0, record { cells = some (element ∷ []); length = 1 })
      | some a ↦ first_null a r.length 0 >>= append_at junk a r.length element
    ]

unfoldable pub contains_loop : List Ptr → ℕ → ℕ → Ptr → Option ℤ
contains_loop a zero i addr = some minus_one
contains_loop [] (suc rounds) i addr = none
contains_loop (c ∷ a) (suc rounds) i addr =
    let rest = contains_loop a rounds (suc i) addr in
    if c == null then some minus_one else if addr == c then some (pos i) else rest

pub array_nt_contains : TrackedArray → Ptr → Option ℤ
unfolding contains_loop
array_nt_contains r addr = elim r.cells [
  | none ↦ some minus_one
  | some a ↦ contains_loop a r.length 0 addr
]

unfoldable pub population_loop : List Ptr → ℕ → ℕ → Option ℕ
population_loop a zero i = some i
population_loop [] (suc rounds) i = none
population_loop (c ∷ a) (suc rounds) i =
    let rest = population_loop a rounds (suc i) in if c == null then some i else rest

pub array_nt_population : TrackedArray → Option ℕ
unfolding population_loop
array_nt_population r = elim r.cells [ none ↦ some 0 | some a ↦ population_loop a r.length 0 ]

-- `array_ensure_index`: the cells that it adds are left as `realloc` gives them.
unfoldable pub array_ensure_index : Ptr → TrackedArray → ℕ → TrackedArray
array_ensure_index junk r index = if ltb index r.length then r else record {
  cells = some (realloc junk (index + 1) (elim r.cells [ none ↦ [] | some a ↦ a ]));
  length = index + 1;
}
