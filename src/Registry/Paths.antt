-- ===== src/Registry/Paths.antt =====
-- Where a gate is found in the library tree.
use logxcontroll_v.Base.{
  ◌≡◌, ◌≢◌, refl, sym, ◌∙◌, ap, inl, inr, true, false, List, [], ◌∷◌, ◌++◌, if◌then◌else◌, Ptr,
  Bool-cases,
}
use Prim.Native.String.{String}
use text.Mathlib.Text.{◌==◌ as str_eq}
use text.Mathlib.TextEquality.{eq_iff}
use logxcontroll_v.Registry.Tree.{LibraryTree, no_node, node, new_nodes, add_gate}

-- The gates of the node at a path, none where there is no such node.
abbrev pub gates_at : LibraryTree → String → List String → List Ptr
gates_at no_node name path = []
gates_at (node n gates subnodes others) name [] =
    let rest = gates_at others name [] in if str_eq name n then gates else rest
gates_at (node n gates subnodes others) name (next ∷ path) =
    let below = gates_at subnodes next path in
    let rest = gates_at others name (next ∷ path) in if str_eq name n then below else rest

eq_refl : (a : String) → str_eq a a ≡ true
eq_refl a = (eq_iff a a).1 refl

new_nodes-same :
    (name : String) (path : List String) (e : Ptr)
    → gates_at (new_nodes name path e) name path ≡ e ∷ []
unfolding new_nodes
new_nodes-same name [] e = rw (eq_refl name) refl
new_nodes-same name (next ∷ path) e = rw (eq_refl name) (new_nodes-same next path e)

add_gate-same :
    (t : LibraryTree) (name : String) (path : List String) (e : Ptr)
    → gates_at (add_gate t name path e) name path ≡ gates_at t name path ++ e ∷ []
unfolding add_gate
add_gate-same no_node name path e = new_nodes-same name path e
add_gate-same (node n gates subnodes others) name [] e = elim (Bool-cases (str_eq name n)) [
  | inl b ↦ rw b (rw b refl)
  | inr b ↦ rw b (rw b (add_gate-same others name [] e))
]
add_gate-same (node n gates subnodes others) name (next ∷ path) e =
    elim (Bool-cases (str_eq name n)) [
      | inl b ↦ rw b (rw b (add_gate-same subnodes next path e))
      | inr b ↦ rw b (rw b (add_gate-same others name (next ∷ path) e))
    ]

str_eq_other : (a b : String) → a ≢ b → str_eq a b ≡ false
str_eq_other a b ne = elim (Bool-cases (str_eq a b)) [
  | inl t ↦ absurd (ne ((eq_iff a b).0 t))
  | inr t ↦ t
]

new_nodes-other :
    (name : String) (path : List String) (e : Ptr) (name' : String) (path' : List String)
    → (name' ∷ path') ≢ (name ∷ path)
    → gates_at (new_nodes name path e) name' path' ≡ []
unfolding new_nodes
new_nodes-other name [] e name' [] d =
    rw (str_eq_other name' name (λ p. d (ap (λ x. x ∷ []) p))) refl
new_nodes-other name [] e name' (q ∷ qs) d = elim (Bool-cases (str_eq name' name)) [
  | inl b ↦ rw b refl
  | inr b ↦ rw b refl
]
new_nodes-other name (p ∷ ps) e name' [] d = elim (Bool-cases (str_eq name' name)) [
  | inl b ↦ rw b refl
  | inr b ↦ rw b refl
]
new_nodes-other name (p ∷ ps) e name' (q ∷ qs) d = elim (Bool-cases (str_eq name' name)) [
  | inl b ↦ rw b (new_nodes-other p ps e q qs (λ t. d (pair ((eq_iff name' name).0 b) t)))
  | inr b ↦ rw b refl
]
  where
    pair : name' ≡ name → (q ∷ qs) ≡ (p ∷ ps) → (name' ∷ q ∷ qs) ≡ (name ∷ p ∷ ps)
    pair x y = cc

same_name : (a b n : String) → str_eq a n ≡ true → str_eq b n ≡ true → b ≡ a
same_name a b n h h' = (eq_iff b n).0 h' ∙ sym ((eq_iff a n).0 h)

-- Adding a gate changes no other path.
add_gate-other :
    (t : LibraryTree) (name : String) (path : List String) (e : Ptr) (name' : String)
    (path' : List String)
    → (name' ∷ path') ≢ (name ∷ path)
    → gates_at (add_gate t name path e) name' path' ≡ gates_at t name' path'
unfolding add_gate
add_gate-other no_node name path e name' path' d = new_nodes-other name path e name' path' d
add_gate-other (node n gates subnodes others) name [] e name' [] d =
    elim (Bool-cases (str_eq name n)) [
      | inl b ↦ elim (Bool-cases (str_eq name' n)) [
        | inl b' ↦ absurd (d (ap (λ x. x ∷ []) (same_name name name' n b b')))
        | inr b' ↦ rw b (rw b' refl)
      ]
      | inr b ↦ rw b (
          ap (λ r. if str_eq name' n then gates else r)
            (add_gate-other others name [] e name' [] d))
    ]
add_gate-other (node n gates subnodes others) name [] e name' (q ∷ qs) d =
    elim (Bool-cases (str_eq name n)) [
      | inl b ↦ rw b refl
      | inr b ↦ rw b (
          ap (λ r. if str_eq name' n then gates_at subnodes q qs else r)
            (add_gate-other others name [] e name' (q ∷ qs) d))
    ]
add_gate-other (node n gates subnodes others) name (p ∷ ps) e name' [] d =
    elim (Bool-cases (str_eq name n)) [
      | inl b ↦ rw b refl
      | inr b ↦ rw b (
          ap (λ r. if str_eq name' n then gates else r)
            (add_gate-other others name (p ∷ ps) e name' [] d))
    ]
add_gate-other (node n gates subnodes others) name (p ∷ ps) e name' (q ∷ qs) d =
    elim (Bool-cases (str_eq name n)) [
      | inl b ↦ elim (Bool-cases (str_eq name' n)) [
        | inl b' ↦ rw b (
            rw b'
              (add_gate-other subnodes p ps e q qs (λ t. d (pair (same_name name name' n b b') t))))
        | inr b' ↦ rw b (rw b' refl)
      ]
      | inr b ↦ rw b (
          ap (λ r. if str_eq name' n then gates_at subnodes q qs else r)
            (add_gate-other others name (p ∷ ps) e name' (q ∷ qs) d))
    ]
  where
    pair : name' ≡ name → (q ∷ qs) ≡ (p ∷ ps) → (name' ∷ q ∷ qs) ≡ (name ∷ p ∷ ps)
    pair x y = cc

-- Filing a gate at a path puts it behind the gates that were filed there, makes the nodes that are
-- missing, and changes what is filed at no other path.
pub add_gate-gates_at :
    (t : LibraryTree) (name : String) (path : List String) (e : Ptr)
    → (gates_at (add_gate t name path e) name path ≡ gates_at t name path ++ e ∷ [])
      × ((name' : String) (path' : List String)
          → (name' ∷ path') ≢ (name ∷ path)
          → gates_at (add_gate t name path e) name' path' ≡ gates_at t name' path')
add_gate-gates_at t name path e =
    (add_gate-same t name path e, λ name' path' d. add_gate-other t name path e name' path' d)
