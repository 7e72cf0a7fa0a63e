-- ===== src/Registry/Unique.antt =====
-- Registering keeps the names unique, and a registered object is found by its name.
use logxcontroll_v.Base.{
  ◌≡◌, ◌≢◌, refl, sym, ◌∙◌, ap, ◌⊎◌, inl, inr, Option, none, some, true, false, List, [], ◌∷◌, ◌++◌,
  if◌then◌else◌, ℤ, pos, Ptr, null, ◌>>=◌, Bool-cases, ne→eqb,
}
use Prim.Native.String.{String}
use text.Mathlib.Text.{◌==◌ as str_eq}
use text.Mathlib.TextEquality.{eq_iff}
use logxcontroll_v.Arrays.Pnt.Packed.{NonNull, PntHolds, packed}
use logxcontroll_v.Arrays.Pnt.Laws.{append-packed}
use logxcontroll_v.Registry.{find_by_name, search, append_new}

-- No entry has the name, and each entry has one.
abbrev pub Fresh : (Ptr → Option String) → String → List Ptr → Type 0
Fresh name_of name [] = Unit {0}
Fresh name_of name (x ∷ xs) =
    ((n : String) × (name_of x ≡ some n) × (n ≢ name)) × Fresh name_of name xs

-- Each entry has a name that no later entry has.
abbrev pub Unique : (Ptr → Option String) → List Ptr → Type 0
Unique name_of [] = Unit {0}
Unique name_of (x ∷ xs) =
    ((n : String) × (name_of x ≡ some n) × Fresh name_of n xs) × Unique name_of xs

-- The array is packed, and its entries are these and have unique names.
pub record Filed (name_of : Ptr → Option String) (arr : Option (List Ptr)) (xs : List Ptr)
    : Type 0 where
  pub nonnull : NonNull xs
  pub holds : PntHolds arr xs
  pub unique : Unique name_of xs

str_eq_ne : (a b : String) → b ≢ a → str_eq a b ≡ false
str_eq_ne a b ne = elim (Bool-cases (str_eq a b)) [
  | inl e ↦ absurd (ne (sym ((eq_iff a b).0 e)))
  | inr e ↦ e
]

find-Fresh :
    (name_of : Ptr → Option String) (name : String) (xs : List Ptr)
    → NonNull xs
    → Fresh name_of name xs
    → find_by_name name_of (packed xs) (some name) ≡ some null
unfolding find_by_name
find-Fresh name_of name [] nn f = refl
find-Fresh name_of name (x ∷ xs) nn f =
    let (n, e, ne) = f.0 in
    rw (ne→eqb x null nn.0) (rw e (rw (str_eq_ne name n ne) (find-Fresh name_of name xs nn.1 f.1)))

-- The search finds the entry with the name, or none has it.
abbrev Searched : (Ptr → Option String) → String → List Ptr → Option Ptr → Type 0
Searched name_of name xs out =
    (Fresh name_of name xs × (out ≡ some null))
    ⊎ ((x : Ptr) × (out ≡ some x) × (x ≢ null) × (name_of x ≡ some name))

pub find_step :
    (name_of : Ptr → Option String) (name n : String) (x : Ptr) (xs : List Ptr)
    → x ≢ null
    → name_of x ≡ some n
    → find_by_name name_of (packed (x ∷ xs)) (some name)
      ≡ (if str_eq name n then some x else find_by_name name_of (packed xs) (some name))
unfolding find_by_name
find_step name_of name n x xs ne e = rw (ne→eqb x null ne) (rw e refl)

find-cases :
    (name_of : Ptr → Option String) (name : String) (xs : List Ptr)
    → NonNull xs
    → Unique name_of xs
    → Searched name_of name xs (find_by_name name_of (packed xs) (some name))
unfolding find_by_name
find-cases name_of name [] nn u = inl (tt, refl)
find-cases name_of name (x ∷ xs) nn u =
    let (n, e, f) = u.0 in
    let step = find_step name_of name n x xs nn.0 e in
    elim (Bool-cases (str_eq name n)) [
      | inl b ↦ inr (x, step ∙ rw b refl, nn.0, e ∙ ap some (sym ((eq_iff name n).0 b)))
      | inr b ↦ elim (find-cases name_of name xs nn.1 u.1) [
        | inl (g, q) ↦ inl (((n, e, λ p. differ name n b p), g), step ∙ rw b q)
        | inr (y, q, ny, h) ↦ inr (y, step ∙ rw b q, ny, h)
      ]
    ]
  where
    differ : (a b : String) → str_eq a b ≡ false → b ≢ a
    differ a b h p = true_not_false (sym ((eq_iff a b).1 (sym p)) ∙ h)
      where
        true_not_false : true ≡ false → ⊥
        true_not_false e = cc

pub search-cases :
    (name_of : Ptr → Option String) (name : String) (arr : Option (List Ptr)) (xs : List Ptr)
    → Filed name_of arr xs
    → Searched name_of name xs (search name_of arr (some name))
unfolding search
search-cases name_of name none xs f = rw f.holds (inl (tt, refl))
search-cases name_of name (some a) xs f = rw f.holds (find-cases name_of name xs f.nonnull f.unique)

NonNull-append : (xs : List Ptr) (e : Ptr) → NonNull xs → e ≢ null → NonNull (xs ++ e ∷ [])
NonNull-append [] e nn ne = (ne, tt)
NonNull-append (x ∷ xs) e nn ne = (nn.0, NonNull-append xs e nn.1 ne)

Fresh-append :
    (name_of : Ptr → Option String) (name : String) (xs : List Ptr) (e : Ptr) (n : String)
    → name_of e ≡ some n
    → n ≢ name
    → Fresh name_of name xs
    → Fresh name_of name (xs ++ e ∷ [])
Fresh-append name_of name [] e n h ne f = ((n, h, ne), tt)
Fresh-append name_of name (x ∷ xs) e n h ne f = (f.0, Fresh-append name_of name xs e n h ne f.1)

Unique-append :
    (name_of : Ptr → Option String) (xs : List Ptr) (e : Ptr) (n : String)
    → name_of e ≡ some n
    → Fresh name_of n xs
    → Unique name_of xs
    → Unique name_of (xs ++ e ∷ [])
Unique-append name_of [] e n h f u = ((n, h, tt), tt)
Unique-append name_of (x ∷ xs) e n h f u =
    let (k, q, g) = u.0 in
    let (k', q', ne) = f.0 in
    (
      (k, q, Fresh-append name_of k xs e n h (λ p. ne (same_name q' q ∙ sym p)) g),
      Unique-append name_of xs e n h f.1 u.1,
    )
  where
    same_name : {a b : String} → name_of x ≡ some a → name_of x ≡ some b → a ≡ b
    same_name h h' = cc

pub Filed-append :
    (name_of : Ptr → Option String) (name : String) (xs : List Ptr) (e : Ptr)
    → e ≢ null
    → name_of e ≡ some name
    → Fresh name_of name xs
    → NonNull xs
    → Unique name_of xs
    → Filed name_of (some (packed (xs ++ e ∷ []))) (xs ++ e ∷ [])
Filed-append name_of name xs e ne h f nn u = record {
  nonnull = NonNull-append xs e nn ne;
  holds = refl;
  unique = Unique-append name_of xs e name h f u;
}

-- Either an entry has the name, and the error is returned and the array stays, or none has it, and
-- the element stands behind the old ones.
abbrev pub FiledBy :
    (Ptr → Option String)
    → String
    → Option (List Ptr)
    → List Ptr
    → Ptr
    → ℤ
    → Option (ℤ × Option (List Ptr))
    → Type 0
FiledBy name_of name arr xs e error out =
    ((x : Ptr) × (search name_of arr (some name) ≡ some x) × (x ≢ null) × (out ≡ some (error, arr)))
    ⊎ (Fresh name_of name xs
        × (arr' : Option (List Ptr)) × (out ≡ some (pos 0, arr'))
        × Filed name_of arr' (xs ++ e ∷ []))

pub append_new-FiledBy :
    (junk : Ptr) (name_of : Ptr → Option String) (name : String) (arr : Option (List Ptr))
    (xs : List Ptr) (e : Ptr) (error : ℤ)
    → e ≢ null
    → name_of e ≡ some name
    → Filed name_of arr xs
    → FiledBy name_of name arr xs e error
        (search name_of arr (some name) >>= append_new junk arr e error)
unfolding append_new
append_new-FiledBy junk name_of name arr xs e error ne h f =
    elim (search-cases name_of name arr xs f) [
      | inl (g, q) ↦ inr (
        g,
        some (packed (xs ++ e ∷ [])),
        rw q (rw (append-packed junk e arr xs ne f.nonnull f.holds) refl),
        Filed-append name_of name xs e ne h g f.nonnull f.unique,
      )
      | inr (x, q, nn, same) ↦ inl (x, q, nn, rw q (rw (ne→eqb x null nn) refl))
    ]
