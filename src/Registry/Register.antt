-- ===== src/Registry/Register.antt =====
-- What registering a signal, a constant or a gate behavior does, on both branches.
use logxcontroll_v.Base.{
  ℕ, zero, suc, ◌≡◌, ◌≢◌, refl, sym, ◌∙◌, ap, ◌⊎◌, inl, inr, Option, none, some, false, List, [],
  ◌∷◌, ◌++◌, ℤ, pos, Ptr, null, ◌>>=◌, >>=-assoc, Bool-cases, length, ne→eqb, get_elem?,
  get_elem?-append_last,
}
use Prim.Native.String.{String}
use text.Mathlib.Text.{◌==◌ as str_eq}
use text.Mathlib.TextEquality.{eq_iff}
use logxcontroll_v.Arrays.Pnt.Packed.{NonNull, packed}
use logxcontroll_v.Arrays.Pnt.Laws.{append-packed}
use logxcontroll_v.Registry.{
  find_by_name, search, append_new, Objects, Registry, lxc_register_signal, lxc_register_gate,
  register_named, add_behavior, get_gate_entry_by_name, add_to_paths,
  lxc_error_entity_already_registered, lxc_error_entity_by_name_already_registered,
  lxc_get_signal_by_name, lxc_error_bad_call,
}
use logxcontroll_v.Registry.Tree.{LibraryTree}
use logxcontroll_v.Registry.Unique.{
  Fresh, Unique, Filed, find_step, append_new-FiledBy, search-cases, Filed-append,
}

Fresh-at :
    (name_of : Ptr → Option String) (n name : String) (xs : List Ptr) (i : ℕ) (x : Ptr)
    → Fresh name_of n xs
    → get_elem? xs i ≡ some x
    → name_of x ≡ some name
    → name ≢ n
Fresh-at name_of n name [] i x f h e = λ p. cc
Fresh-at name_of n name (y ∷ xs) zero x f h e = λ p. f.0.2 (same f.0.0 f.0.1 ∙ p)
  where
    same : (k : String) → name_of y ≡ some k → k ≡ name
    same k q = cc
Fresh-at name_of n name (y ∷ xs) (suc i) x f h e = Fresh-at name_of n name xs i x f.1 h e

find-at :
    (name_of : Ptr → Option String) (name : String) (xs : List Ptr) (i : ℕ) (x : Ptr)
    → NonNull xs
    → Unique name_of xs
    → get_elem? xs i ≡ some x
    → name_of x ≡ some name
    → find_by_name name_of (packed xs) (some name) ≡ some x
find-at name_of name [] i x nn u h e = absurd (cc)
find-at name_of name (y ∷ xs) zero x nn u h e =
    find_step name_of name name y xs nn.0 (y_named h) ∙ rw ((eq_iff name name).1 refl) h
  where
    y_named : some y ≡ some x → name_of y ≡ some name
    y_named q = cc
find-at name_of name (y ∷ xs) (suc i) x nn u h e =
    let (n, q, f) = u.0 in
    find_step name_of name n y xs nn.0 q
    ∙ rw (differ name n (Fresh-at name_of n name xs i x f h e))
        (find-at name_of name xs i x nn.1 u.1 h e)
  where
    differ : (a b : String) → a ≢ b → str_eq a b ≡ false
    differ a b ne = elim (Bool-cases (str_eq a b)) [
      | inl t ↦ absurd (ne ((eq_iff a b).0 t))
      | inr t ↦ t
    ]

-- Each entry of an array with unique names is found by its name.
pub search-Filed :
    (name_of : Ptr → Option String) (name : String) (arr : Option (List Ptr)) (xs : List Ptr)
    (i : ℕ) (x : Ptr)
    → Filed name_of arr xs
    → get_elem? xs i ≡ some x
    → name_of x ≡ some name
    → search name_of arr (some name) ≡ some x
unfolding search
search-Filed name_of name none xs i x f h e = absurd (empty (rw f.holds at h))
  where
    empty : get_elem? [] i ≡ some x → ⊥
    empty q = cc
search-Filed name_of name (some a) xs i x f h e =
    rw f.holds (find-at name_of name xs i x f.nonnull f.unique h e)

search_new :
    (name_of : Ptr → Option String) (name : String) (arr : Option (List Ptr)) (xs : List Ptr)
    (e : Ptr)
    → name_of e ≡ some name
    → Filed name_of arr (xs ++ e ∷ [])
    → search name_of arr (some name) ≡ some e
search_new name_of name arr xs e h f =
    search-Filed name_of name arr (xs ++ e ∷ []) (length xs) e f (get_elem?-append_last xs e) h

pub register_signal-Filed :
    (junk : Ptr) (o : Objects) (r : Registry) (s : Ptr) (name : String) (xs : List Ptr)
    → s ≢ null
    → o.signal_name s ≡ some name
    → Filed o.signal_name r.signals xs
    → ((x : Ptr) × (lxc_get_signal_by_name o r (some name) ≡ some x)
        × (x ≢ null)
        × (lxc_register_signal junk o r s ≡ some (lxc_error_entity_already_registered, r)))
      ⊎ (Fresh o.signal_name name xs
          × (arr' : Option (List Ptr)) × (lxc_register_signal junk o r s
              ≡ some (pos 0, record r { signals = arr' }))
          × Filed o.signal_name arr' (xs ++ s ∷ [])
          × (lxc_get_signal_by_name o (record r { signals = arr' }) (some name) ≡ some s))
unfolding lxc_register_signal lxc_get_signal_by_name
register_signal-Filed junk o r s name xs ne h f =
    elim (append_new-FiledBy junk o.signal_name name r.signals xs s
      lxc_error_entity_already_registered ne h f) [
        | inl (x, q, nn, e) ↦ inl (x, q, nn, by_search e)
        | inr (g, arr', e, f') ↦
            inr (g, arr', by_search e, f', search_new o.signal_name name arr' xs s h f')
      ]
  where
    answer : ℤ × Option (List Ptr) → Option (ℤ × Registry)
    answer (ret, arr) = some (ret, record r { signals = arr })

    by_search :
        {z : ℤ} {arr : Option (List Ptr)}
        → (search o.signal_name r.signals (some name)
            >>= append_new junk r.signals s lxc_error_entity_already_registered)
          ≡ some (z, arr)
        → lxc_register_signal junk o r s ≡ some (z, record r { signals = arr })
    by_search e = rw (ne→eqb s null ne) (
        rw h (
          sym (
            >>=-assoc (search o.signal_name r.signals (some name))
              (append_new junk r.signals s lxc_error_entity_already_registered) answer)
          ∙ ap (λ q. q >>= answer) e))

-- Registering a gate behavior with a name, in a registry of behaviors with unique names, returns the
-- error and changes nothing where a behavior has that name; else, where each of its paths has a
-- name, it returns 0, the names are unique with the new behavior at the end, the new behavior is
-- found by its name, and the library tree is the one with the behavior added at each path in turn.
pub register_gate-Added :
    (junk : Ptr) (o : Objects) (r : Registry) (g : Ptr) (name : String) (xs : List Ptr)
    (t : LibraryTree)
    → g ≢ null
    → o.gate_name g ≡ some name
    → Filed o.gate_name r.behaviors xs
    → add_to_paths r.root_nodes (o.paths g) g ≡ some t
    → ((x : Ptr) × (get_gate_entry_by_name o r (some name) ≡ some x)
        × (x ≢ null)
        × (lxc_register_gate junk o r g ≡ some (lxc_error_entity_by_name_already_registered, r)))
      ⊎ (Fresh o.gate_name name xs
          × (arr' : Option (List Ptr)) × (lxc_register_gate junk o r g
              ≡ some (pos 0, record r { behaviors = arr'; root_nodes = t }))
          × Filed o.gate_name arr' (xs ++ g ∷ [])
          × (search o.gate_name arr' (some name) ≡ some g))
unfolding lxc_register_gate register_named add_behavior get_gate_entry_by_name
register_gate-Added junk o r g name xs t ne h f p =
    elim (search-cases o.gate_name name r.behaviors xs f) [
      | inl (fresh, q) ↦
          let f' : Filed o.gate_name (some (packed (xs ++ g ∷ []))) (xs ++ g ∷ []) =
            Filed-append o.gate_name name xs g ne h fresh f.nonnull f.unique in
          inr (
            fresh,
            some (packed (xs ++ g ∷ [])),
            rw (ne→eqb g null ne) (
                rw h (
                  rw q
                    (rw (append-packed junk g r.behaviors xs ne f.nonnull f.holds) (rw p refl)))),
            f',
            search_new o.gate_name name (some (packed (xs ++ g ∷ []))) xs g h f',
          )
      | inr (x, q, nn, same) ↦
          inl (x, q, nn, rw (ne→eqb g null ne) (rw h (rw q (rw (ne→eqb x null nn) refl))))
    ]

-- A gate behavior with no name is refused, and the registries stay.
pub register_gate_unnamed :
    (junk : Ptr) (o : Objects) (r : Registry) (g : Ptr)
    → g ≢ null
    → o.gate_name g ≡ none
    → lxc_register_gate junk o r g ≡ some (lxc_error_bad_call, r)
unfolding lxc_register_gate register_named
register_gate_unnamed junk o r g ne h = rw (ne→eqb g null ne) (rw h refl)
