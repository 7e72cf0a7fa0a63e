-- ===== src/Values/Places.antt =====
-- What importing a value into a place and wiping a place do to the counts.
use logxcontroll_v.Base.{
  subst, ◌≡◌, refl, sym, ◌∙◌, ap, inl, inr, false, List, [], ◌∷◌, ◌++◌, ◌==◌, not, ◌&&◌,
  if◌then◌else◌, pos, Ptr, null, Bool-cases, eqb→eq,
}
use logxcontroll_v.Values.{
  Operations, Values, lxc_reference_value, lxc_unreference_value, lxc_import_new_value,
  lxc_wipe_value,
}
use logxcontroll_v.Values.Counted.{
  Counted, is_freed, reference-Counted, unreference-GivenUp, Counted-swap, holders-Uncounted,
}

-- The tests for NULL in front of the two calls change nothing.
guard_new :
    (ops : Operations) (v : Values) (x : Ptr)
    → (if x == null then v else (lxc_reference_value ops v x).1) ≡ (lxc_reference_value ops v x).1
unfolding lxc_reference_value
guard_new ops v x = elim (Bool-cases (x == null)) [ inl e ↦ rw e refl | inr e ↦ rw e refl ]

guard_old :
    (ops : Operations) (v : Values) (x : Ptr)
    → (if x == null then v else (lxc_unreference_value ops v x).1)
      ≡ (lxc_unreference_value ops v x).1
unfolding lxc_unreference_value
guard_old ops v x = elim (Bool-cases (x == null)) [ inl e ↦ rw e refl | inr e ↦ rw e refl ]

-- Importing a value into a place, where each count is the number of the places that hold the value:
-- the place then holds the new value, each count is again the number of the places that hold the
-- value, and the old value is freed exactly where it was another one, is no NULL, has the operations
-- and no place holds it any more; the answer tells whether the place changed.
pub import-Counted :
    (ops : Operations) (v : Values) (new_val internal : Ptr) (xs : List Ptr)
    → Counted ops v (internal ∷ xs)
    → (w : Values) × (lxc_import_new_value ops v new_val internal
        ≡ (not (new_val == internal), new_val, w))
      × Counted ops w (new_val ∷ xs)
      × (w.freed ≡ (
          if not (new_val == internal) && is_freed ops internal (new_val ∷ xs)
          then v.freed ++ internal ∷ []
          else v.freed))
unfolding lxc_import_new_value
import-Counted ops v new_val internal xs h = elim (Bool-cases (new_val == internal)) [
  | inl e ↦ (
    v,
    rw e (ap (λ q. (false, q, v)) (sym (eqb→eq new_val internal e))),
    subst (λ q. Counted ops v (q ∷ xs)) (sym (eqb→eq new_val internal e)) h,
    rw e refl,
  )
  | inr e ↦
      let (h₁, f₁) = reference-Counted ops v new_val (internal ∷ xs) h in
      let v₁ : Values = (lxc_reference_value ops v new_val).1 in
      let (h₂, f₂) =
        unreference-GivenUp ops v₁ internal (new_val ∷ xs)
          (Counted-swap ops v₁ new_val internal xs h₁) in
      (
        (lxc_unreference_value ops v₁ internal).1,
        rw e (rw (guard_new ops v new_val) (rw (guard_old ops v₁ internal) refl)),
        h₂,
        subst
            (λ t. (lxc_unreference_value ops v₁ internal).1.freed ≡ (
              if not t && is_freed ops internal (new_val ∷ xs)
              then v.freed ++ internal ∷ []
              else v.freed))
            (sym e)
            (f₂
              ∙ ap (λ l. if is_freed ops internal (new_val ∷ xs) then l ++ internal ∷ [] else l)
                  f₁),
      )
]

-- Wiping a place, where each count is the number of the places that hold the value, leaves NULL in it;
-- each count is again the number of the places that hold the value, and the value is freed exactly
-- where it is no NULL, has the operations and no place holds it any more.
pub wipe-Counted :
    (ops : Operations) (v : Values) (val : Ptr) (xs : List Ptr)
    → Counted ops v (val ∷ xs)
    → (w : Values) × (lxc_wipe_value ops v val ≡ (not (val == null), null, w))
      × Counted ops w xs
      × (w.freed ≡ (if is_freed ops val xs then v.freed ++ val ∷ [] else v.freed))
unfolding lxc_wipe_value
wipe-Counted ops v val xs h = elim (Bool-cases (val == null)) [
  | inl e ↦ (
    v,
    rw e (ap (λ q. (false, q, v)) (eqb→eq val null e)),
    λ p ne c. h p ne c ∙ ap pos (holders-Uncounted ops val p xs (inl (eqb→eq val null e)) ne c),
    rw e refl,
  )
  | inr e ↦
      let (h', f) = unreference-GivenUp ops v val xs h in
      ((lxc_unreference_value ops v val).1, rw e refl, h', f)
]
