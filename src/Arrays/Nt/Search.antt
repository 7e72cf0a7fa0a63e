-- ===== src/Arrays/Nt/Search.antt =====
-- `array_nt_contains` and `array_nt_population` against the list of the elements.
use logxcontroll_v.Base.{
  ℕ, suc, ◌≡◌, refl, subst, Option, none, some, List, [], ◌∷◌, arith, length, ℤ, Ptr,
}
use logxcontroll_v.Arrays.Index.{offset, offset-suc, index_of, IsFirst, index_of-IsFirst}
use logxcontroll_v.Arrays.Tracked.{TrackedArray, CellsFit, IsAllocated}
use logxcontroll_v.Arrays.Nt.{
  TrackedArray, contains_loop, array_nt_contains, population_loop, array_nt_population,
}
use logxcontroll_v.Arrays.Nt.Items.{items_of, items, population_loop_lem}

contains_loop_lem :
    (a : List Ptr) (i : ℕ) (p : Ptr)
    → contains_loop a (length a) i p ≡ some (offset i (index_of p (items_of a)))
unfolding contains_loop
contains_loop_lem [] i p = refl
contains_loop_lem (c ∷ a) i p =
    ground (arith, contains_loop_lem a (suc i) p, offset-suc i (index_of p (items_of a)))

contains_parts :
    (c : Option (List Ptr)) (n : ℕ) (p : Ptr)
    → CellsFit c n
    → array_nt_contains (record { cells = c; length = n }) p
      ≡ some (index_of p (items (record { cells = c; length = n })))
unfolding array_nt_contains
contains_parts none n p fit = refl
contains_parts (some a) n p fit =
    subst (λ (m : ℕ). contains_loop a m 0 p ≡ some (index_of p (items_of a))) fit
      (ground (arith, contains_loop_lem a 0 p))

-- Searching an array whose tracked length is that of its cells never leaves the array; the result
-- is the first index of the pointer among the elements, or -1 where it is not among them.
pub contains-IsFirst :
    (r : TrackedArray) (p : Ptr)
    → IsAllocated r
    → (z : ℤ) × (array_nt_contains r p ≡ some z) × IsFirst p (items r) z
contains-IsFirst r p fit =
    (index_of p (items r), contains_parts r.cells r.length p fit, index_of-IsFirst p (items r))

pub population-length :
    (c : Option (List Ptr)) (n : ℕ)
    → CellsFit c n
    → array_nt_population (record { cells = c; length = n })
      ≡ some (length (items (record { cells = c; length = n })))
unfolding array_nt_population
population-length none n fit = refl
population-length (some a) n fit =
    subst (λ (m : ℕ). population_loop a m 0 ≡ some (length (items_of a))) fit
      (ground (arith, population_loop_lem a 0))
