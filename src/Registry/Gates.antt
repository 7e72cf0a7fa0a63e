-- ===== src/Registry/Gates.antt =====
-- Where a registered gate behavior is found: lxc_register_gate of core/accounting.c.
use logxcontroll_v.Base.{
  ◌≡◌, refl, sym, ◌∙◌, ap, inl, inr, some, Bool, true, false, List, [], ◌∷◌, ◌++◌, ◌&&◌,
  if◌then◌else◌, Ptr, append_assoc, Bool-cases,
}
use Prim.Native.String.{String}
use mathlib.Core.List.{append-nil}
use text.Mathlib.Text.{◌==◌ as str_eq}
use text.Mathlib.TextEquality.{eq_iff}
use logxcontroll_v.Registry.{Registry, add_to_paths}
use logxcontroll_v.Registry.Tree.{LibraryTree, add_gate}
use logxcontroll_v.Registry.Paths.{gates_at, add_gate-gates_at}

-- Each path has a first name.
abbrev pub AllNamed : List (List String) → Type 0
AllNamed [] = Unit {0}
AllNamed ([] ∷ paths) = ⊥
AllNamed ((name ∷ path) ∷ paths) = AllNamed paths

abbrev pub same_path : List String → List String → Bool
same_path [] [] = true
same_path [] (b ∷ bs) = false
same_path (a ∷ ps) [] = false
same_path (a ∷ ps) (b ∷ bs) = str_eq a b && same_path ps bs

-- The gate as often as the path is listed.
abbrev pub filings : List (List String) → List String → Ptr → List Ptr
filings [] path g = []
filings (p ∷ paths) path g =
    let rest = filings paths path g in if same_path p path then g ∷ rest else rest

same_path-eq : (p q : List String) → same_path p q ≡ true → q ≡ p
same_path-eq [] [] h = refl
same_path-eq [] (b ∷ bs) h = absurd (cc)
same_path-eq (a ∷ ps) [] h = absurd (cc)
same_path-eq (a ∷ ps) (b ∷ bs) h = elim (Bool-cases (str_eq a b)) [
  | inl e ↦ both ((eq_iff a b).0 e) (same_path-eq ps bs (rw e at h))
  | inr e ↦ absurd (false_not_true (rw e at h))
]
  where
    both : a ≡ b → bs ≡ ps → (b ∷ bs) ≡ (a ∷ ps)
    both x y = cc

    false_not_true : false ≡ true → ⊥
    false_not_true x = cc

same_path_refl : (p : List String) → same_path p p ≡ true
same_path_refl [] = refl
same_path_refl (a ∷ ps) = rw ((eq_iff a a).1 refl) (same_path_refl ps)

add_step :
    (t : LibraryTree) (name : String) (path : List String) (g : Ptr) (n : String) (q : List String)
    → gates_at (add_gate t name path g) n q
      ≡ gates_at t n q ++ (if same_path (name ∷ path) (n ∷ q) then g ∷ [] else [])
add_step t name path g n q = elim (Bool-cases (same_path (name ∷ path) (n ∷ q))) [
  | inl e ↦ rw e (at_path (same_path-eq (name ∷ path) (n ∷ q) e))
  | inr e ↦ rw e (
      (add_gate-gates_at t name path g).1 n q
        (λ d. contrary (sym e ∙ ap (same_path (name ∷ path)) d ∙ same_path_refl (name ∷ path)))
      ∙ sym (append-nil (gates_at t n q)))
]
  where
    contrary : false ≡ true → ⊥
    contrary x = cc

    at_path :
        (n ∷ q) ≡ (name ∷ path) → gates_at (add_gate t name path g) n q ≡ gates_at t n q ++ g ∷ []
    at_path d = rw (first d, rest d) ((add_gate-gates_at t name path g).0)
      where
        first : (n ∷ q) ≡ (name ∷ path) → n ≡ name
        first x = cc

        rest : (n ∷ q) ≡ (name ∷ path) → q ≡ path
        rest x = cc

pub paths-filings :
    (paths : List (List String)) (t : LibraryTree) (g : Ptr)
    → AllNamed paths
    → (t' : LibraryTree) × (add_to_paths t paths g ≡ some t')
      × ((n : String) (q : List String)
          → gates_at t' n q ≡ gates_at t n q ++ filings paths (n ∷ q) g)
unfolding add_to_paths
paths-filings [] t g a = (t, refl, λ n q. sym (append-nil (gates_at t n q)))
paths-filings ([] ∷ paths) t g a = absurd a
paths-filings ((name ∷ path) ∷ paths) t g a =
    let (t', e, h) = paths-filings paths (add_gate t name path g) g a in
    (
      t',
      e,
      λ n q.
          h n q
          ∙ ap (λ l. l ++ filings paths (n ∷ q) g) (add_step t name path g n q)
          ∙ append_assoc (gates_at t n q) (if same_path (name ∷ path) (n ∷ q) then g ∷ [] else [])
              (filings paths (n ∷ q) g)
          ∙ ap (λ l. gates_at t n q ++ l)
              (joined (same_path (name ∷ path) (n ∷ q)) (filings paths (n ∷ q) g)),
    )
  where
    joined : (b : Bool) (l : List Ptr) → (if b then g ∷ [] else []) ++ l ≡ (if b then g ∷ l else l)
    joined true l = refl
    joined false l = refl
