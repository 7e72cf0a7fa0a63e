-- ===== src/Values/Counted.antt =====
-- Values whose counts are the numbers of the places that hold them, and one reference more or less.
use logxcontroll_v.Base.{
  subst, ◌⊎◌, ℕ, suc, ◌≡◌, ◌≢◌, refl, sym, ◌∙◌, ap, inl, inr, Bool, true, false, List, [], ◌∷◌,
  ◌++◌, ◌==◌, not, ◌&&◌, if◌then◌else◌, ℤ, pos, negsuc, Ptr, null, arith, Bool-cases, eqb→eq,
  eqb→ne, ne→eqb,
}
use logxcontroll_v.Values.{
  Operations, Values, update_count, add_ℤ, none_left, ref_diff, release, lxc_refdiff_value,
  lxc_reference_value, lxc_unreference_value,
}

-- How many places hold the value.
abbrev pub holders : Ptr → List Ptr → ℕ
holders p [] = 0
holders p (x ∷ xs) = let rest = holders p xs in if x == p then suc rest else rest

-- The count of each value that has one is the number of the places, `xs`, that hold it.
abbrev pub Counted : Operations → Values → List Ptr → Type 0
Counted ops v xs =
    (p : Ptr) → p ≢ null → ops.has_ref_diff p ≡ true → v.refcount p ≡ pos (holders p xs)

-- Whether giving up a place frees the value, the places `xs` being left.
abbrev pub is_freed : Operations → Ptr → List Ptr → Bool
is_freed ops p xs = not (p == null) && ops.has_ref_diff p && ops.has_free p && (holders p xs == 0)

holders_self : (p : Ptr) (xs : List Ptr) → holders p (p ∷ xs) ≡ suc (holders p xs)
holders_self p xs = ground arith

holders_other : (x p : Ptr) (xs : List Ptr) → x ≢ p → holders p (x ∷ xs) ≡ holders p xs
holders_other x p xs ne = rw (ne→eqb x p ne) refl

one_more : (k : ℕ) → add_ℤ (pos k) (pos 1) ≡ pos (suc k)
one_more k = ground arith

one_less : (k : ℕ) → add_ℤ (pos (suc k)) (negsuc 0) ≡ pos k
one_less k = ground arith

some_left : (k : ℕ) → none_left (pos (suc k)) ≡ false
some_left k = ground arith

-- The values with another count of `x`.
abbrev with_count : Values → Ptr → ℕ → Values
with_count v x n = record v { refcount = update_count v.refcount x (pos n) }

with_count-Counted :
    (ops : Operations) (v : Values) (x : Ptr) (xs ys : List Ptr) (n : ℕ)
    → holders x ys ≡ n
    → ((p : Ptr) → x ≢ p → holders p ys ≡ holders p xs)
    → Counted ops v xs
    → Counted ops (with_count v x n) ys
with_count-Counted ops v x xs ys n here there h p ne c = elim (Bool-cases (x == p)) [
  | inl e ↦ rw e (ap pos (sym (rw (eqb→eq x p e) at here)))
  | inr e ↦ rw e (h p ne c ∙ ap pos (sym (there p (eqb→ne x p e))))
]

reference_eq :
    (ops : Operations) (v : Values) (x : Ptr) (xs : List Ptr)
    → x ≢ null
    → ops.has_ref_diff x ≡ true
    → Counted ops v xs
    → lxc_reference_value ops v x ≡ (pos (suc (holders x xs)), with_count v x (suc (holders x xs)))
unfolding lxc_reference_value lxc_refdiff_value ref_diff release
reference_eq ops v x xs ne c h = rw (ne→eqb x null ne) (
    rw c (
      rw (ap (λ z. add_ℤ z (pos 1)) (h x ne c) ∙ one_more (holders x xs))
        (rw (some_left (holders x xs)) refl)))

unreference_eq :
    (ops : Operations) (v : Values) (x : Ptr) (xs : List Ptr)
    → x ≢ null
    → ops.has_ref_diff x ≡ true
    → Counted ops v (x ∷ xs)
    → lxc_unreference_value ops v x
      ≡ release ops x (pos (holders x xs), with_count v x (holders x xs))
unfolding lxc_unreference_value lxc_refdiff_value ref_diff
unreference_eq ops v x xs ne c h = rw (ne→eqb x null ne) (
    rw c (
      rw
        (ap (λ z. add_ℤ z (negsuc 0)) (h x ne c ∙ ap pos (holders_self x xs))
          ∙ one_less (holders x xs))
        refl))

-- NULL, and a value with no count, are left alone.
abbrev Uncounted : Operations → Ptr → Type 0
Uncounted ops x = (x ≡ null) ⊎ ((x ≢ null) × (ops.has_ref_diff x ≡ false))

counted_or_not :
    (ops : Operations) (x : Ptr) → Uncounted ops x ⊎ ((x ≢ null) × (ops.has_ref_diff x ≡ true))
counted_or_not ops x = elim (Bool-cases (x == null)) [
  | inl e ↦ inl (inl (eqb→eq x null e))
  | inr e ↦ elim (Bool-cases (ops.has_ref_diff x)) [
    | inl c ↦ inr (eqb→ne x null e, c)
    | inr c ↦ inl (inr (eqb→ne x null e, c))
  ]
]

Uncounted-eq :
    (ops : Operations) (v : Values) (x : Ptr) (d : ℤ)
    → Uncounted ops x
    → (lxc_refdiff_value ops v x d).1 ≡ v
unfolding lxc_refdiff_value
Uncounted-eq ops v x d (inl e) = rw e refl
Uncounted-eq ops v x d (inr (ne, c)) = rw (ne→eqb x null ne) (rw c refl)

pub holders-Uncounted :
    (ops : Operations) (x p : Ptr) (xs : List Ptr)
    → Uncounted ops x
    → p ≢ null
    → ops.has_ref_diff p ≡ true
    → holders p (x ∷ xs) ≡ holders p xs
holders-Uncounted ops x p xs u ne c = holders_other x p xs (differ u)
  where
    differ : Uncounted ops x → x ≢ p
    differ (inl e) q = ne (sym q ∙ e)
    differ (inr (n, f)) q = clash (sym c ∙ ap ops.has_ref_diff (sym q) ∙ f)
      where
        clash : true ≡ false → ⊥
        clash t = cc

pub reference-Counted :
    (ops : Operations) (v : Values) (x : Ptr) (xs : List Ptr)
    → Counted ops v xs
    → Counted ops (lxc_reference_value ops v x).1 (x ∷ xs)
      × ((lxc_reference_value ops v x).1.freed ≡ v.freed)
unfolding lxc_reference_value
reference-Counted ops v x xs h = elim (counted_or_not ops x) [
  | inl u ↦
      subst (λ w. Counted ops w (x ∷ xs) × (w.freed ≡ v.freed))
        (sym (Uncounted-eq ops v x (pos 1) u))
        (λ p ne c. h p ne c ∙ ap pos (sym (holders-Uncounted ops x p xs u ne c)), refl)
  | inr (ne, c) ↦
      subst (λ q. Counted ops q.1 (x ∷ xs) × (q.1.freed ≡ v.freed))
        (sym (reference_eq ops v x xs ne c h))
        (
          with_count-Counted ops v x xs (x ∷ xs) (suc (holders x xs)) (holders_self x xs)
              (λ p d. holders_other x p xs d) h,
          refl,
        )
]

-- The places left are `xs`; the freed values have `x` at their end where it was freed.
abbrev pub GivenUp : Operations → Values → Ptr → List Ptr → Values → Type 0
GivenUp ops v x xs w =
    Counted ops w xs × (w.freed ≡ (if is_freed ops x xs then v.freed ++ x ∷ [] else v.freed))

released :
    (ops : Operations) (v : Values) (x : Ptr) (xs : List Ptr) (w : Values)
    → x ≢ null
    → ops.has_ref_diff x ≡ true
    → w.freed ≡ v.freed
    → Counted ops w xs
    → GivenUp ops v x xs (release ops x (pos (holders x xs), w)).1
unfolding release
released ops v x xs w ne c f h = elim (Bool-cases (holders x xs == 0)) [
  | inl z ↦ elim (Bool-cases (ops.has_free x)) [
    | inl a ↦ rw z (rw a (h, rw (ne→eqb x null ne) (rw c (ap (λ l. l ++ x ∷ []) f))))
    | inr a ↦ rw z (rw a (h, rw (ne→eqb x null ne) (rw c f)))
  ]
  | inr z ↦ elim (Bool-cases (ops.has_free x)) [
    | inl a ↦ rw z (h, rw (ne→eqb x null ne) (rw c (rw a f)))
    | inr a ↦ rw z (h, rw (ne→eqb x null ne) (rw c (rw a f)))
  ]
]

pub unreference-GivenUp :
    (ops : Operations) (v : Values) (x : Ptr) (xs : List Ptr)
    → Counted ops v (x ∷ xs)
    → GivenUp ops v x xs (lxc_unreference_value ops v x).1
unfolding lxc_unreference_value
unreference-GivenUp ops v x xs h = elim (counted_or_not ops x) [
  | inl u ↦
      subst (λ w. GivenUp ops v x xs w) (sym (Uncounted-eq ops v x (negsuc 0) u))
        (λ p ne c. h p ne c ∙ ap pos (holders-Uncounted ops x p xs u ne c), rw (not_freed u) refl)
  | inr (ne, c) ↦
      subst (λ q. GivenUp ops v x xs q.1) (sym (unreference_eq ops v x xs ne c h))
        (released ops v x xs (with_count v x (holders x xs)) ne c refl (
          with_count-Counted ops v x (x ∷ xs) xs (holders x xs) refl
            (λ p d. sym (holders_other x p xs d)) h))
]
  where
    not_freed : Uncounted ops x → is_freed ops x xs ≡ false
    not_freed (inl e) = rw e refl
    not_freed (inr (ne, c)) = rw (ne→eqb x null ne) (rw c refl)

-- The order of two places does not matter.
pub Counted-swap :
    (ops : Operations) (v : Values) (x y : Ptr) (xs : List Ptr)
    → Counted ops v (x ∷ y ∷ xs)
    → Counted ops v (y ∷ x ∷ xs)
Counted-swap ops v x y xs h p ne c = h p ne c ∙ ap pos (swap p)
  where
    swap : (p : Ptr) → holders p (x ∷ y ∷ xs) ≡ holders p (y ∷ x ∷ xs)
    swap p = ground arith
