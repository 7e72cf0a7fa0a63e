-- ===== src/Arrays/Pnt.antt =====
-- The packed null terminated arrays of core/utils/utils.c: no length is tracked, a NULL ends the
-- elements. An operation gives `none` where the code leaves the array.
pub mod Packed
pub mod Laws
use logxcontroll_v.Base.{
  ℕ, zero, suc, ◌+◌, ◌-◌, ◌^◌, Bool, true, false, Option, none, some, List, [], ◌∷◌, ◌==◌, ltb, leb,
  ◌&&◌, if◌then◌else◌, get_elem?, ℤ, pos, negsuc, minus_one, is_negative, Ptr, null, ◌>>=◌, write,
  realloc,
}
use logxcontroll_v.Arrays.Nt.{shift_down}

unfoldable pub array_pnt_init : Ptr → Option (List Ptr) → Option (List Ptr)
array_pnt_init junk none = some (null ∷ [])
array_pnt_init junk (some a) = some a

-- `for(;;) { if(NULL == a[i]) return i-1; ++i; }` over the cells from `i` on; `i` is never 0.
unfoldable pub last_index_loop : List Ptr → ℕ → Option ℤ
last_index_loop [] i = none
last_index_loop (c ∷ a) i =
    let rest = last_index_loop a (suc i) in if c == null then some (pos (i - 1)) else rest

unfoldable pub array_pnt_last_index : Option (List Ptr) → Option ℤ
unfolding last_index_loop
array_pnt_last_index none = some minus_one
array_pnt_last_index (some []) = none
array_pnt_last_index (some (c ∷ a)) = if c == null then some minus_one else last_index_loop a 1

-- `lst < (int) index`: an index from 2^31 on becomes negative, and `lst` is at least -1.
unfoldable pub lst_below : ℤ → ℕ → Bool
lst_below (pos lst) index = ltb lst index && ltb index (2 ^ 31)
lst_below (negsuc n) index = ltb index (2 ^ 31)

-- The rounds of `for(i = index; i < lst; ++i)`.
abbrev pub rounds_to : ℤ → ℕ → ℕ
rounds_to (pos lst) index = lst - index
rounds_to (negsuc n) index = 0

-- `lst + 2`, for `lst` at least -1.
abbrev pub size_after : ℤ → ℕ
size_after (pos lst) = lst + 2
size_after (negsuc n) = 1

pub pop_from : Ptr → Option (List Ptr) → ℕ → ℤ → Option (Ptr × Option (List Ptr))
unfolding lst_below shift_down
pop_from junk arr index lst = if lst_below lst index then some (null, arr) else elim arr [
  | none ↦ none
  | some a ↦ get_elem? a index >>= λ ret. shift_down (rounds_to lst index) index a >>= λ b.
      some (ret, some (realloc junk (size_after lst) b))
]

pub array_pnt_pop_element : Ptr → Option (List Ptr) → ℕ → Option (Ptr × Option (List Ptr))
unfolding array_pnt_last_index pop_from
array_pnt_pop_element junk arr index = array_pnt_last_index arr >>= pop_from junk arr index

-- The index of the new element: 0 for `lst` negative, else `lst + 1`.
abbrev pub next_index : ℤ → ℕ
next_index (pos lst) = lst + 1
next_index (negsuc n) = 0

unfoldable pub append_from : Ptr → Option (List Ptr) → Ptr → ℕ → Option (ℤ × Option (List Ptr))
append_from junk arr element lst =
    write (realloc junk (lst + 2) (elim arr [ none ↦ [] | some a ↦ a ])) lst element >>= λ b.
    write b (lst + 1) null >>= λ c. some (pos lst, some c)

unfoldable pub array_pnt_append_element :
    Ptr → Option (List Ptr) → Ptr → Option (ℤ × Option (List Ptr))
unfolding array_pnt_last_index append_from
array_pnt_append_element junk arr element =
    if element == null
    then some (minus_one, arr)
    else (array_pnt_last_index arr >>= λ lst. append_from junk arr element (next_index lst))

unfoldable pub pnt_contains_loop : List Ptr → ℕ → Ptr → Option ℤ
pnt_contains_loop [] i addr = none
pnt_contains_loop (c ∷ a) i addr =
    let rest = pnt_contains_loop a (suc i) addr in
    if c == null then some minus_one else if addr == c then some (pos i) else rest

pub array_pnt_contains : Option (List Ptr) → Ptr → Option ℤ
unfolding pnt_contains_loop
array_pnt_contains none addr = some minus_one
array_pnt_contains (some a) addr = pnt_contains_loop a 0 addr

unfoldable pub array_pnt_population : Option (List Ptr) → Option ℕ
unfolding array_pnt_last_index
array_pnt_population arr = array_pnt_last_index arr >>= λ lst. some (next_index lst)
