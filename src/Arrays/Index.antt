-- ===== src/Arrays/Index.antt =====
-- An independent description of the linear searches: the first index of a pointer in a list.
use logxcontroll_v.Base.{
  ℕ, zero, suc, ◌+◌, ◌<◌, ◌≡◌, ◌≢◌, refl, some, List, [], ◌∷◌, Bool-cases, inl, inr, arith, ◌==◌,
  if◌then◌else◌, get_elem?, ℤ, pos, negsuc, minus_one, Ptr, eqb→ne,
}

-- An index that was counted from `i` on; an error code stays.
abbrev pub offset : ℕ → ℤ → ℤ
offset i (pos n) = pos (i + n)
offset i (negsuc n) = negsuc n

-- The same element, one cell further on.
abbrev pub one_on : ℤ → ℤ
one_on (pos n) = pos (suc n)
one_on (negsuc n) = negsuc n

abbrev pub index_of : Ptr → List Ptr → ℤ
index_of p [] = minus_one
index_of p (x ∷ xs) = let rest = index_of p xs in if p == x then pos 0 else one_on rest

-- `z` is the first index of `p` in `xs`, or -1 where `p` does not occur.
abbrev pub IsFirst : Ptr → List Ptr → ℤ → Type 0
IsFirst p xs (pos i) = (get_elem? xs i ≡ some p) × ((j : ℕ) → j < i → get_elem? xs j ≢ some p)
IsFirst p xs (negsuc n) = (n ≡ 0) × ((j : ℕ) → get_elem? xs j ≢ some p)

IsFirst-suc :
    (p x : Ptr) (xs : List Ptr) (z : ℤ) → p ≢ x → IsFirst p xs z → IsFirst p (x ∷ xs) (one_on z)
IsFirst-suc p x xs (pos i) ne h = (h.0, other)
  where
    other : (j : ℕ) → j < suc i → get_elem? (x ∷ xs) j ≢ some p
    other zero l e = ground (arith, ne)
    other (suc j) l e = h.1 j (omega arith) e
IsFirst-suc p x xs (negsuc n) ne h = (h.0, other)
  where
    other : (j : ℕ) → get_elem? (x ∷ xs) j ≢ some p
    other zero e = ground (arith, ne)
    other (suc j) e = h.1 j e

pub index_of-IsFirst : (p : Ptr) (xs : List Ptr) → IsFirst p xs (index_of p xs)
index_of-IsFirst p [] = (refl, λ j e. cc)
index_of-IsFirst p (x ∷ xs) = elim (Bool-cases (p == x)) [
  | inl e ↦ rw e (ground arith, λ j h. elim h [ ])
  | inr e ↦ rw e (IsFirst-suc p x xs (index_of p xs) (eqb→ne p x e) (index_of-IsFirst p xs))
]

pub offset-suc : (i : ℕ) (z : ℤ) → offset (suc i) z ≡ offset i (one_on z)
offset-suc i (pos n) = ground arith
offset-suc i (negsuc n) = refl

pub zero_offset : (z : ℤ) → offset 0 z ≡ z
zero_offset (pos n) = ground arith
zero_offset (negsuc n) = refl
