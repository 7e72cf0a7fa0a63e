-- ===== src/Arrays/Fix/Slots.antt =====
-- The view of a fixed array as slots, each free or taken, and the searches over it.
use logxcontroll_v.Base.{
  ℕ, zero, suc, ◌+◌, ◌≡◌, ◌≢◌, refl, ap, none, some, List, [], ◌∷◌, ◌++◌, arith, ◌==◌,
  if◌then◌else◌, length, get_elem?, set, Ptr, null,
}
use logxcontroll_v.Arrays.Tracked.{TrackedArray}
use logxcontroll_v.Arrays.Index.{offset, index_of, offset-suc}
use logxcontroll_v.Arrays.Fix.{first_free_loop, grow_zero, fix_contains_loop, fix_population_loop}

abbrev pub slots : TrackedArray → List Ptr
slots r = elim r.cells [ none ↦ [] | some a ↦ a ]

-- How many slots are taken.
abbrev pub taken : List Ptr → ℕ
taken [] = 0
taken (c ∷ a) = let rest = taken a in if c == null then rest else suc rest

pub first_free_loop_lem :
    (a : List Ptr) (i : ℕ) → first_free_loop a (length a) i ≡ some (offset i (index_of null a))
unfolding first_free_loop
first_free_loop_lem [] i = refl
first_free_loop_lem (c ∷ a) i =
    ground (arith, first_free_loop_lem a (suc i), offset-suc i (index_of null a))

pub fix_contains_loop_lem :
    (a : List Ptr) (i : ℕ) (p : Ptr)
    → fix_contains_loop a (length a) i p ≡ some (offset i (index_of p a))
unfolding fix_contains_loop
fix_contains_loop_lem [] i p = refl
fix_contains_loop_lem (c ∷ a) i p =
    ground (arith, fix_contains_loop_lem a (suc i) p, offset-suc i (index_of p a))

pub fix_population_loop_lem :
    (a : List Ptr) (n : ℕ) → fix_population_loop a (length a) n ≡ some (n + taken a)
unfolding fix_population_loop
fix_population_loop_lem [] n = ground arith
fix_population_loop_lem (c ∷ a) n =
    ground (arith, fix_population_loop_lem a n, fix_population_loop_lem a (suc n))

pub grow_zero_one : (a : List Ptr) → grow_zero (suc (length a)) a ≡ a ++ null ∷ []
unfolding grow_zero
grow_zero_one [] = refl
grow_zero_one (c ∷ a) = ap (λ r. c ∷ r) (grow_zero_one a)

-- Taking a free slot makes one more taken slot.
pub taken-set :
    (a : List Ptr) (i : ℕ) (e : Ptr)
    → e ≢ null
    → get_elem? a i ≡ some null
    → taken (set a i e) ≡ suc (taken a)
taken-set [] i e ne h = cc
taken-set (c ∷ a) zero e ne h = ground (arith, ne)
taken-set (c ∷ a) (suc i) e ne h = ground (arith, taken-set a i e ne h)

pub taken-append_null : (a : List Ptr) → taken (a ++ null ∷ []) ≡ taken a
taken-append_null [] = refl
taken-append_null (c ∷ a) = ground (arith, taken-append_null a)
