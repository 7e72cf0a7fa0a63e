-- ===== src/Arrays/Pnt/Packed.antt =====
-- The elements of a packed array, and how the loops walk over them.
use logxcontroll_v.Base.{
  ℕ, zero, suc, ◌+◌, ◌-◌, ◌<◌, ◌≡◌, ◌≢◌, refl, ap, Option, none, some, List, [], ◌∷◌, ◌++◌, arith,
  length, erase_idx, last_of, write, realloc, ℤ, pos, minus_one, Ptr, null, ◌>>=◌,
}
use logxcontroll_v.Arrays.Index.{offset, index_of, offset-suc}
use logxcontroll_v.Arrays.Nt.{shift_down}
use logxcontroll_v.Arrays.Nt.Pop.{shift_down_cons, write_cons}
use logxcontroll_v.Arrays.Pnt.{last_index_loop, array_pnt_last_index, pnt_contains_loop}

-- No element is NULL.
abbrev pub NonNull : List Ptr → Type 0
NonNull [] = Unit {0}
NonNull (x ∷ xs) = (x ≢ null) × NonNull xs

abbrev pub packed : List Ptr → List Ptr
packed xs = xs ++ null ∷ []

-- `arr` is NULL and there is no element, or it holds the elements `xs` and the NULL behind them.
abbrev pub PntHolds : Option (List Ptr) → List Ptr → Type 0
PntHolds none xs = xs ≡ []
PntHolds (some a) xs = a ≡ packed xs

-- The index of the last element of so many.
abbrev pub last_index : List Ptr → ℤ
last_index [] = minus_one
last_index (x ∷ xs) = pos (length xs)

last_index_loop_lem :
    (xs : List Ptr) (i : ℕ)
    → NonNull xs
    → last_index_loop (packed xs) (suc i) ≡ some (pos (i + length xs))
unfolding last_index_loop
last_index_loop_lem [] i h = ground arith
last_index_loop_lem (x ∷ xs) i h = ground (arith, last_index_loop_lem xs (suc i) h.1, h.0)

pub last_index_lem :
    (arr : Option (List Ptr)) (xs : List Ptr)
    → NonNull xs
    → PntHolds arr xs
    → array_pnt_last_index arr ≡ some (last_index xs)
unfolding array_pnt_last_index
last_index_lem none xs nn h = rw h refl
last_index_lem (some a) [] nn h = rw h refl
last_index_lem (some a) (x ∷ xs) nn h = rw h (ground (arith, last_index_loop_lem xs 0 nn.1, nn.0))

pub pnt_contains_loop_lem :
    (xs : List Ptr) (i : ℕ) (p : Ptr)
    → NonNull xs
    → pnt_contains_loop (packed xs) i p ≡ some (offset i (index_of p xs))
unfolding pnt_contains_loop
pnt_contains_loop_lem [] i p h = refl
pnt_contains_loop_lem (x ∷ xs) i p h =
    ground (arith, pnt_contains_loop_lem xs (suc i) p h.1, offset-suc i (index_of p xs), h.0)

-- The shift stops at the last element: it is there twice afterwards.
shift_stops_zero :
    (x : Ptr) (xs : List Ptr)
    → shift_down (length xs) 0 (packed (x ∷ xs)) ≡ some (packed (xs ++ last_of x xs ∷ []))
unfolding shift_down
shift_stops_zero x [] = refl
shift_stops_zero x (y ∷ xs) =
    rw (shift_down_cons (length xs) 0 y (packed (y ∷ xs))) (rw (shift_stops_zero y xs) refl)

pub shift_stops :
    (x : Ptr) (xs : List Ptr) (i : ℕ)
    → i < suc (length xs)
    → shift_down (length xs - i) i (packed (x ∷ xs))
      ≡ some (packed (erase_idx (x ∷ xs) i ++ last_of x xs ∷ []))
shift_stops x xs zero h = rw (minus_zero (length xs)) (shift_stops_zero x xs)
  where
    minus_zero : (n : ℕ) → n - 0 ≡ n
    minus_zero n = omega arith
shift_stops x [] (suc i) h = absurd (omega arith)
shift_stops x (y ∷ xs) (suc i) h = rw (fewer (length xs) i) (
    rw (shift_down_cons (length xs - i) i x (packed (y ∷ xs)))
      (rw (shift_stops y xs i (omega arith)) refl))
  where
    fewer : (n k : ℕ) → suc n - suc k ≡ n - k
    fewer n k = omega arith

pub realloc_same : (junk : Ptr) (a : List Ptr) → realloc junk (length a) a ≡ a
realloc_same junk [] = refl
realloc_same junk (c ∷ a) = ap (λ r. c ∷ r) (realloc_same junk a)

-- The two writes of an append behind the elements.
pub append_writes :
    (junk e : Ptr) (xs : List Ptr)
    → (write (realloc junk (suc (suc (length xs))) (packed xs)) (length xs) e >>= λ b.
        write b (suc (length xs)) null)
      ≡ some (packed (xs ++ e ∷ []))
append_writes junk e [] = refl
append_writes junk e (x ∷ xs) =
    rw
      (write_cons (write (realloc junk (suc (suc (length xs))) (packed xs)) (length xs) e) x
        (suc (length xs)))
      (rw (append_writes junk e xs) refl)
