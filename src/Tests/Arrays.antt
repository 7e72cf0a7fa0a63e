-- ===== src/Tests/Arrays.antt =====
-- The arrays of core/utils/utils.c on small inputs.
use logxcontroll_v.Base.{
  ◌≡◌, refl, Option, none, some, List, [], ◌∷◌, arith, get_elem?, pos, Ptr, null,
}
use logxcontroll_v.Arrays.Tracked.{TrackedArray}
use logxcontroll_v.Arrays.Nt.{
  array_nt_init, array_nt_append_element, array_nt_pop_element, array_ensure_index,
}
use logxcontroll_v.Arrays.Nt.Items.{items}
use logxcontroll_v.Arrays.Nt.Append.{Appended, append-items}
use logxcontroll_v.Arrays.Nt.Pop.{Popped, pop-items}
use logxcontroll_v.Arrays.Fix.{array_fix_add_element, array_fix_remove_element, array_fix_try_get}
use logxcontroll_v.Arrays.Fix.Laws.{Added, add-slots}
use logxcontroll_v.Arrays.Pnt.{
  array_pnt_init, array_pnt_append_element, array_pnt_population, array_pnt_pop_element,
}
use logxcontroll_v.Arrays.Pnt.Packed.{packed, PntHolds}
use logxcontroll_v.Arrays.Pnt.Laws.{append-packed, pop-keeps_population}

abbrev two_and_free : TrackedArray
two_and_free = record { cells = some (5 ∷ 6 ∷ null ∷ []); length = 3 }

abbrev gap : TrackedArray
gap = record { cells = some (5 ∷ null ∷ 6 ∷ []); length = 3 }

init_then_append :
    array_nt_append_element 7 array_nt_init 5
    ≡ some (pos 0, record { cells = some (5 ∷ null ∷ []); length = 2 })
unfolding array_nt_init array_nt_append_element
init_then_append = refl

ensure_index_grows :
    array_ensure_index 7 two_and_free 4
    ≡ record { cells = some (5 ∷ 6 ∷ null ∷ 7 ∷ 7 ∷ []); length = 5 }
unfolding array_ensure_index
ensure_index_grows = refl

remove_then_get :
    array_fix_remove_element two_and_free 0
    ≡ some (5, record { cells = some (null ∷ 6 ∷ null ∷ []); length = 3 })
unfolding array_fix_remove_element
remove_then_get = refl

get_in_range : array_fix_try_get two_and_free (pos 1) ≡ some 6
unfolding array_fix_try_get
get_in_range = refl

pnt_init_null : array_pnt_init 7 none ≡ some (null ∷ [])
unfolding array_pnt_init
pnt_init_null = refl

append-items_example : Appended (items two_and_free) 8 (array_nt_append_element 7 two_and_free 8)
append-items_example = append-items 7 two_and_free 8 (cc) refl

pop-items_example : Popped (items two_and_free) 0 (array_nt_pop_element two_and_free 0)
pop-items_example = pop-items two_and_free 0 (omega arith) refl

add-slots_example : Added gap 8 (array_fix_add_element gap 8)
add-slots_example = add-slots gap 8 (cc) refl

append-packed_example :
    array_pnt_append_element 7 (some (packed (5 ∷ 6 ∷ []))) 8
    ≡ some (pos 2, some (packed (5 ∷ 6 ∷ 8 ∷ [])))
append-packed_example =
    append-packed 7 8 (some (packed (5 ∷ 6 ∷ []))) (5 ∷ 6 ∷ []) (cc) ((cc), ((cc), tt)) refl

pop-keeps_population_example :
    (y : Ptr) × (arr' : Option (List Ptr)) × (array_pnt_pop_element 7 (some (packed (5 ∷ 6 ∷ []))) 0
      ≡ some (y, arr'))
    × (get_elem? (5 ∷ 6 ∷ []) 0 ≡ some y)
    × PntHolds arr' (6 ∷ 6 ∷ [])
    × (array_pnt_population arr' ≡ array_pnt_population (some (packed (5 ∷ 6 ∷ []))))
pop-keeps_population_example = pop-keeps_population 7 5 (6 ∷ []) 0 ((cc), ((cc), tt)) (omega arith)
