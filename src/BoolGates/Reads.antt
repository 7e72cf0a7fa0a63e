-- ===== src/BoolGates/Reads.antt =====
-- How the boolean gates of arithmetic/lxc_bool_gates.c read their inputs: is_all_input_valid_and_copy
-- against a description without loops over cells.
use logxcontroll_v.Base.{
  ℕ, zero, suc, ◌≡◌, refl, sym, ◌∙◌, ap, inl, inr, Option, none, some, Bool, true, false, List, [],
  ◌∷◌, ◌++◌, arith, ◌==◌, ◌&&◌, not, if◌then◌else◌, length, Ptr, null, Bool-cases,
}
use logxcontroll_v.Wires.{World}
use logxcontroll_v.Wires.Drive.{lxc_get_token_value, lxc_wire_token_available}
use logxcontroll_v.BoolGates.Logic.{available_loop, copy_loop, is_all_input_valid_and_copy}

module _ {G : Type 0} (w : World G) where
  -- The wire of the tokenport holds a value.
  abbrev pub has_value : Ptr → Bool
  has_value tp = not ((w.wire (w.tokenport tp).owner).current_value == null)

  -- Every input that is wired has a value.
  abbrev pub all_ready : List Ptr → Bool
  all_ready [] = true
  all_ready (tp ∷ inputs) =
      let rest = all_ready inputs in if tp == null then rest else has_value tp && rest

  -- The bools of the wired inputs, in their order.
  abbrev pub bools : (Ptr → Bool) → List Ptr → List Bool
  bools bool_of [] = []
  bools bool_of (tp ∷ inputs) =
      let rest = bools bool_of inputs in
      if tp == null then rest else bool_of (w.wire (w.tokenport tp).owner).current_value ∷ rest

append_assoc :
    {A : Type 0} → (xs : List A) (y : A) (zs : List A) → (xs ++ y ∷ []) ++ zs ≡ xs ++ y ∷ zs
append_assoc [] y zs = refl
append_assoc (x ∷ xs) y zs = ap (λ l. x ∷ l) (append_assoc xs y zs)

append_nil : {A : Type 0} → (xs : List A) → xs ++ [] ≡ xs
append_nil [] = refl
append_nil (x ∷ xs) = ap (λ l. x ∷ l) (append_nil xs)

module _ {G : Type 0} (bool_of : Ptr → Bool) (w : World G) where
  available_lem :
      (n : ℕ) (a : List Ptr) → length a ≡ n → available_loop bool_of w n a ≡ some (all_ready w a)
  unfolding available_loop lxc_wire_token_available
  available_lem zero [] e = refl
  available_lem zero (c ∷ a) e = absurd (omega arith)
  available_lem (suc n) [] e = absurd (omega arith)
  available_lem (suc n) (c ∷ a) e = elim (Bool-cases (c == null)) [
    | inl z ↦ rw z (available_lem n a (omega arith))
    | inr z ↦ elim (Bool-cases (has_value w c)) [
      | inl v ↦ rw (z, v) (available_lem n a (omega arith))
      | inr v ↦ rw (z, v) refl
    ]
  ]

  -- What the copy gives, for the values so far.
  abbrev copied : List Ptr → List Bool → Option (List Bool)
  copied a values = if all_ready w a then some (values ++ bools w bool_of a) else none

  copy_lem :
      (n : ℕ) (a : List Ptr) (values : List Bool)
      → length a ≡ n
      → copy_loop bool_of w n a values ≡ some (copied a values)
  unfolding copy_loop lxc_get_token_value
  copy_lem zero [] values e = ap (λ l. some (some l)) (sym (append_nil values))
  copy_lem zero (c ∷ a) values e = absurd (omega arith)
  copy_lem (suc n) [] values e = absurd (omega arith)
  copy_lem (suc n) (c ∷ a) values e = elim (Bool-cases (c == null)) [
    | inl z ↦ rw z (copy_lem n a values (omega arith))
    | inr z ↦ elim (Bool-cases ((w.wire (w.tokenport c).owner).current_value == null)) [
      | inl v ↦ rw (z, v) refl
      | inr v ↦
          rw (z, v)
            (copy_lem n a (values ++ bool_of (w.wire (w.tokenport c).owner).current_value ∷ [])
                (omega arith)
              ∙ ap (λ l. some (if all_ready w a then some l else none))
                  (append_assoc values _ (bools w bool_of a)))
    ]
  ]

  -- Reading the 21 inputs of a gate never leaves the array: the answer is the bools of the wired inputs
  -- in their order where each of them has a value, and false where one has none.
  pub copy-bools :
      (inputs : List Ptr)
      → length inputs ≡ 21
      → is_all_input_valid_and_copy bool_of w inputs
        ≡ some (if all_ready w inputs then some (bools w bool_of inputs) else none)
  unfolding is_all_input_valid_and_copy
  copy-bools [] e = absurd (omega arith)
  copy-bools (c ∷ a) e = rw (available_lem 20 a (omega arith)) (gated (all_ready w a) refl)
    where
      later : all_ready w a ≡ false → all_ready w (c ∷ a) ≡ false
      later f = elim (Bool-cases (c == null)) [
        | inl z ↦ rw (z, f) refl
        | inr z ↦
            rw (z, f) (elim (Bool-cases (has_value w c)) [ inl v ↦ rw v refl | inr v ↦ rw v refl ])
      ]

      gated :
          (b : Bool)
          → all_ready w a ≡ b
          → (if b then copy_loop bool_of w 21 (c ∷ a) [] else some none) ≡ some (copied (c ∷ a) [])
      gated true r = copy_lem 21 (c ∷ a) [] e
      gated false r = rw (later r) refl
