-- ===== src/Wires/Labels.antt =====
-- The labels of all ports of a gate: get_labels of core/facet.c.
use logxcontroll_v.Base.{
  ℕ, zero, suc, ◌+◌, ◌-◌, ◌≤◌, ◌<◌, ◌≡◌, ◌≢◌, refl, sym, ◌∙◌, ap, Option, some, false, List, [],
  ◌∷◌, ◌++◌, arith, length, length-append, drop, append_assoc, write, if◌then◌else◌, ◌==◌, leb, pos,
  ne→eqb,
}
use Prim.Native.String.{String}
use logxcontroll_v.Ports.{FullSignalType}
use logxcontroll_v.Wires.Queries.{fill_labels, required, fill_all, get_labels}

-- The labels of `n` indices from `i` on.
abbrev pub labels_from : (ℕ → Option String) → ℕ → ℕ → List (Option String)
labels_from label_at zero i = []
labels_from label_at (suc n) i = label_at i ∷ labels_from label_at n (suc i)

-- The labels of the ports of each type, one type after the other.
abbrev pub all_labels :
    (FullSignalType → ℕ)
    → (FullSignalType → ℕ → Option String)
    → List FullSignalType
    → List (Option String)
all_labels max_of label_of [] = []
all_labels max_of label_of (t ∷ types) =
    labels_from (label_of t) (max_of t) 0 ++ all_labels max_of label_of types

abbrev pub count_labels : (FullSignalType → ℕ) → List FullSignalType → ℕ
count_labels max_of [] = 0
count_labels max_of (t ∷ types) = max_of t + count_labels max_of types

write-behind :
    {A : Type 0}
    → (pre : List A) (x v : A) (rest : List A) (i : ℕ) → i ≡ length pre
    → write (pre ++ x ∷ rest) i v ≡ some (pre ++ v ∷ rest)
write-behind [] x v rest zero e = refl
write-behind [] x v rest (suc i) e = absurd (omega arith)
write-behind (y ∷ pre) x v rest zero e = absurd (omega arith)
write-behind (y ∷ pre) x v rest (suc i) e = rw (write-behind pre x v rest i (omega arith)) refl

length-snoc : {A : Type 0} → (pre : List A) (v : A) → length (pre ++ v ∷ []) ≡ suc (length pre)
length-snoc [] v = refl
length-snoc (x ∷ pre) v = ap suc (length-snoc pre v)

drop_nil : {A : Type 0} → (n : ℕ) → drop {A = A} [] n ≡ []
drop_nil zero = refl
drop_nil (suc n) = refl

drop-drop : {A : Type 0} → (xs : List A) (a b : ℕ) → drop (drop xs a) b ≡ drop xs (a + b)
drop-drop xs zero b = ap (λ n. drop xs n) (omega arith)
drop-drop [] (suc a) b = drop_nil b ∙ sym (drop_nil (suc a + b))
drop-drop (x ∷ xs) (suc a) b = drop-drop xs a b ∙ sym (ap (λ n. drop (x ∷ xs) n) next)
  where
    next : suc a + b ≡ suc (a + b)
    next = omega arith

fill_labels_lem :
    (label_at : ℕ → Option String) (rounds permit i last_free : ℕ) (pre rest : List (Option String))
    → last_free + i ≡ length pre
    → rounds ≤ length rest
    → rounds < permit
    → fill_labels label_at rounds permit i last_free (pre ++ rest)
      ≡ some (i + rounds, pre ++ (labels_from label_at rounds i ++ drop rest rounds))
unfolding fill_labels
fill_labels_lem label_at zero permit i last_free pre rest e l p =
    ap (λ n. some (n, pre ++ rest)) (omega arith)
fill_labels_lem label_at (suc rounds) permit i last_free pre [] e l p = absurd (omega arith)
fill_labels_lem label_at (suc rounds) permit i last_free pre (x ∷ rest) e l p =
    rw (write-behind pre x (label_at i) rest (last_free + i) e) (
      rw (ne→eqb (permit - 1) 0 more) (
        ap (λ a. fill_labels label_at rounds (permit - 1) (suc i) last_free a)
          (sym (append_assoc pre (label_at i ∷ []) rest))
        ∙ fill_labels_lem label_at rounds (permit - 1) (suc i) last_free (pre ++ label_at i ∷ [])
            rest (omega (arith, length-snoc pre (label_at i))) (omega arith) (omega arith)
        ∙ ap some (
            rw next (
              rw
                (append_assoc pre (label_at i ∷ [])
                  (labels_from label_at rounds (suc i) ++ drop rest rounds))
                refl))))
  where
    more : permit - 1 ≢ 0
    more z = omega arith

    next : suc i + rounds ≡ i + suc rounds
    next = omega arith

required_lem :
    (max_of : FullSignalType → ℕ) (types : List FullSignalType)
    → required max_of (length types) types ≡ some (count_labels max_of types)
unfolding required
required_lem max_of [] = refl
required_lem max_of (t ∷ types) = rw (required_lem max_of types) refl

-- One type: nothing is called where it has no index.
fill_type :
    (label_at : ℕ → Option String) (n permit : ℕ) (pre rest : List (Option String))
    → n ≤ length rest
    → n < permit
    → (if n == 0
        then some (0, pre ++ rest)
        else fill_labels label_at n permit 0 (length pre) (pre ++ rest))
      ≡ some (n, pre ++ (labels_from label_at n 0 ++ drop rest n))
fill_type label_at zero permit pre rest l p = refl
fill_type label_at (suc n) permit pre rest l p = rw (ne→eqb (suc n) 0 (λ e. cc)) (
    fill_labels_lem label_at (suc n) permit 0 (length pre) pre rest (omega arith) l p
    ∙ ap (λ k. some (k, pre ++ (labels_from label_at (suc n) 0 ++ drop rest (suc n))))
        (omega arith))

length-labels : (label_at : ℕ → Option String) (n i : ℕ) → length (labels_from label_at n i) ≡ n
length-labels label_at zero i = refl
length-labels label_at (suc n) i = ap suc (length-labels label_at n (suc i))

length-drop :
    {A : Type 0} → (xs : List A) (n : ℕ) → n ≤ length xs → length (drop xs n) + n ≡ length xs
length-drop xs zero l = omega arith
length-drop [] (suc n) l = absurd (omega arith)
length-drop (x ∷ xs) (suc n) l = omega (arith, length-drop xs n (omega arith))

fill_all_lem :
    (max_of : FullSignalType → ℕ) (label_of : FullSignalType → ℕ → Option String) (max_length : ℕ)
    (types : List FullSignalType) (pre rest : List (Option String))
    → count_labels max_of types ≤ length rest
    → length pre + count_labels max_of types < max_length
    → fill_all max_of label_of max_length (length types) types (length pre) (pre ++ rest)
      ≡ some (
        length pre + count_labels max_of types,
        pre ++ (all_labels max_of label_of types ++ drop rest (count_labels max_of types)),
      )
unfolding fill_all
fill_all_lem max_of label_of max_length [] pre rest l p =
    ap (λ n. some (n, pre ++ rest)) (omega arith)
fill_all_lem max_of label_of max_length (t ∷ types) pre rest l p =
    rw
      (fill_type (label_of t) (max_of t) (max_length - length pre) pre rest (omega arith)
        (omega arith))
      (rw (sym (append_assoc pre here (drop rest (max_of t))), length_pre)
        (fill_all_lem max_of label_of max_length types (pre ++ here) (drop rest (max_of t))
            (omega (arith, length-drop rest (max_of t) (omega arith))) (omega (arith, length_pre))
          ∙ ap some same))
  where
    here : List (Option String)
    here = labels_from (label_of t) (max_of t) 0

    length_pre : length pre + max_of t ≡ length (pre ++ here)
    length_pre = omega (arith, length-append pre here, length-labels (label_of t) (max_of t) 0)

    counted :
        length (pre ++ here) + count_labels max_of types
        ≡ length pre + (max_of t + count_labels max_of types)
    counted = omega (arith, length_pre)

    same :
        ◌≡◌ {A = ℕ × List (Option String)}
          (
            length (pre ++ here) + count_labels max_of types,
            (pre ++ here)
                ++ (all_labels max_of label_of types
                    ++ drop (drop rest (max_of t)) (count_labels max_of types)),
          )
          (
            length pre + (max_of t + count_labels max_of types),
            pre
                ++ ((here ++ all_labels max_of label_of types)
                    ++ drop rest (max_of t + count_labels max_of types)),
          )
    same =
        rw
          (
            counted,
            drop-drop rest (max_of t) (count_labels max_of types),
            append_assoc pre here (
                all_labels max_of label_of types
                ++ drop rest (max_of t + count_labels max_of types)),
            append_assoc here (all_labels max_of label_of types)
                (drop rest (max_of t + count_labels max_of types)),
          )
          refl

-- Where a behavior gives as many types as it says, at least one, and `arr` has `max_length` cells or more
-- and the ports are fewer than `max_length`, the call stays inside of the array: the result is the
-- number of the ports, and `arr` then starts with the labels of all ports, one type after the other and
-- in the order of the indices, and is behind them what it was.
pub get_labels-all_labels :
    (max_of : FullSignalType → ℕ) (label_of : FullSignalType → ℕ → Option String)
    (t : FullSignalType) (types : List FullSignalType) (arr : List (Option String)) (max_length : ℕ)
    → count_labels max_of (t ∷ types) < max_length
    → max_length ≤ length arr
    → get_labels max_of label_of (some (pos (length (t ∷ types)), t ∷ types)) arr max_length
      ≡ some (
        pos (count_labels max_of (t ∷ types)),
        all_labels max_of label_of (t ∷ types) ++ drop arr (count_labels max_of (t ∷ types)),
      )
unfolding get_labels
get_labels-all_labels max_of label_of t types arr max_length l m =
    rw (ne→eqb (suc (length types)) 0 (λ e. cc), required_lem max_of (t ∷ types), not_le)
      (rw (fill_all_lem max_of label_of max_length (t ∷ types) [] arr (omega arith) (omega arith)) (
        ap
          (λ n. some (
            pos n,
            all_labels max_of label_of (t ∷ types) ++ drop arr (count_labels max_of (t ∷ types)),
          ))
          (omega arith)))
  where
    not_le : leb max_length (count_labels max_of (t ∷ types)) ≡ false
    not_le = ground arith
