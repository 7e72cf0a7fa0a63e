-- ===== src/Registry/Agree.antt =====
-- A registry whose objects get their names as they are registered: the hooks of a wire and the
-- properties of a gate.
use logxcontroll_v.Base.{
  ℕ, suc, ◌≡◌, ◌≢◌, ◌⊎◌, refl, ◌∙◌, inl, inr, Option, some, List, [], ◌∷◌, ◌++◌, length, get_elem?,
  get_elem?-append_last, pos, Ptr, null,
}
use Prim.Native.String.{String}
use logxcontroll_v.Arrays.Pnt.{array_pnt_append_element}
use logxcontroll_v.Arrays.Pnt.Packed.{packed}
use logxcontroll_v.Arrays.Pnt.Laws.{append-packed}
use logxcontroll_v.Registry.{search}
use logxcontroll_v.Registry.Unique.{Fresh, Unique, Filed, search-cases, Filed-append}
use logxcontroll_v.Registry.Register.{search-Filed}

-- Two ways to name the entries that agree on a list.
abbrev pub Agree : (Ptr → Option String) → (Ptr → Option String) → List Ptr → Type 0
Agree f g xs = (j : ℕ) (x : Ptr) → get_elem? xs j ≡ some x → g x ≡ f x

Fresh-Agree :
    (f g : Ptr → Option String) (name : String) (xs : List Ptr)
    → Agree f g xs
    → Fresh f name xs
    → Fresh g name xs
Fresh-Agree f g name [] a h = tt
Fresh-Agree f g name (x ∷ xs) a h =
    let (n, e, ne) = h.0 in
    ((n, a 0 x refl ∙ e, ne), Fresh-Agree f g name xs (λ j y q. a (suc j) y q) h.1)

Unique-Agree :
    (f g : Ptr → Option String) (xs : List Ptr) → Agree f g xs → Unique f xs → Unique g xs
Unique-Agree f g [] a h = tt
Unique-Agree f g (x ∷ xs) a h =
    let (n, e, u) = h.0 in
    let later : Agree f g xs = λ j y q. a (suc j) y q in
    ((n, a 0 x refl ∙ e, Fresh-Agree f g n xs later u), Unique-Agree f g xs later h.1)

-- An object of the name is there; or there is none, and the array takes the new one, which is then found.
abbrev pub NewFiled :
    Ptr
    → Ptr
    → (Ptr → Option String)
    → (Ptr → Option String)
    → String
    → Option (List Ptr)
    → List Ptr
    → Type 0
NewFiled junk fresh f g name arr xs =
    ((x : Ptr) × (search f arr (some name) ≡ some x) × (x ≢ null))
    ⊎ (Fresh f name xs
        × (search f arr (some name) ≡ some null)
        × (array_pnt_append_element junk arr fresh
            ≡ some (pos (length xs), some (packed (xs ++ fresh ∷ []))))
        × Filed g (some (packed (xs ++ fresh ∷ []))) (xs ++ fresh ∷ [])
        × (search g (some (packed (xs ++ fresh ∷ []))) (some name) ≡ some fresh))

pub new-NewFiled :
    (junk fresh : Ptr) (f g : Ptr → Option String) (name : String) (arr : Option (List Ptr))
    (xs : List Ptr)
    → fresh ≢ null
    → g fresh ≡ some name
    → Agree f g xs
    → Filed f arr xs
    → NewFiled junk fresh f g name arr xs
new-NewFiled junk fresh f g name arr xs set named a h = elim (search-cases f name arr xs h) [
  | inl (free, e) ↦
      let filed =
        Filed-append g name xs fresh set named (Fresh-Agree f g name xs a free) h.nonnull
          (Unique-Agree f g xs a h.unique) in
      inr (
        free,
        e,
        append-packed junk fresh arr xs set h.nonnull h.holds,
        filed,
        search-Filed g name (some (packed (xs ++ fresh ∷ []))) (xs ++ fresh ∷ []) (length xs) fresh
            filed (get_elem?-append_last xs fresh) named,
      )
  | inr (x, e, nx, _) ↦ inl (x, e, nx)
]
