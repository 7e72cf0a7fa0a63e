-- ===== src/Wires/Hooks.antt =====
-- The hooks of a wire as they are registered: lxc_wire_add_debug_hook and its two companions of
-- core/facet.c. `none` is an access through NULL or outside of an array.
pub mod Filed
use logxcontroll_v.Base.{
  ℕ, zero, suc, Option, none, some, Bool, true, false, List, [], ◌∷◌, ◌==◌, ◌||◌, not,
  if◌then◌else◌, ℤ, pos, Ptr, null, ◌>>=◌,
}
use Prim.Native.String.{String}
use logxcontroll_v.Arrays.Pnt.{array_pnt_append_element, array_pnt_pop_element}
use logxcontroll_v.Registry.{same_text, search, lxc_error_entity_by_name_already_registered}
use logxcontroll_v.Wires.{update, lxc_error_bad_call}

-- struct lxc_wire_debug_hook_data: its id, and whether its function is not NULL
pub record HookData : Type 0 where
  pub id : Option String
  pub has_function : Bool

-- struct key_value
pub record KeyValue : Type 0 where
  pub key : Option String
  pub value : Ptr

abbrev pub key_of : (Ptr → KeyValue) → Ptr → Option String
key_of entry e = (entry e).key

abbrev is_none : Option String → Bool
is_none none = true
is_none (some s) = false

-- The part behind the guards: `fresh` is the new entry.
unfoldable pub add_hook :
    Ptr
    → Ptr
    → (Ptr → KeyValue)
    → Option (List Ptr)
    → Option String
    → Ptr
    → Option (ℤ × (Ptr → KeyValue) × Option (List Ptr))
unfolding search
add_hook junk fresh entry hooks id hook = search (key_of entry) hooks id >>= λ found.
    if found == null
    then (array_pnt_append_element junk hooks fresh >>= λ (i, hooks').
        some (pos 0, update entry fresh (record { key = id; value = hook }), hooks'))
    else some (lxc_error_entity_by_name_already_registered, entry, hooks)

-- The result, the entries, and the array of the wire.
unfoldable pub lxc_wire_add_debug_hook :
    Ptr
    → Ptr
    → (Ptr → HookData)
    → (Ptr → KeyValue)
    → Option (List Ptr)
    → Ptr
    → Ptr
    → Option (ℤ × (Ptr → KeyValue) × Option (List Ptr))
unfolding add_hook
lxc_wire_add_debug_hook junk fresh hook_data entry hooks wire hook =
    if wire == null
      || hook == null
      || is_none (hook_data hook).id
      || not (hook_data hook).has_function
    then some (lxc_error_bad_call, entry, hooks)
    else add_hook junk fresh entry hooks (hook_data hook).id hook

-- The index of the entry with the id, from `i` on.
unfoldable pub find_hook : (Ptr → Option String) → List Ptr → ℕ → Option String → Option (Option ℕ)
find_hook name_of [] i id = none
find_hook name_of (c ∷ a) i id =
    let rest = find_hook name_of a (suc i) id in
    if c == null
    then some none
    else (same_text id (name_of c) >>= λ b. if b then some (some i) else rest)

unfoldable pub remove_hook : Ptr → Option (List Ptr) → Option ℕ → Option (Ptr × Option (List Ptr))
remove_hook junk hooks none = some (null, hooks)
remove_hook junk hooks (some i) = array_pnt_pop_element junk hooks i

-- What is returned is the entry, and not the data of the hook.
unfoldable pub lxc_wire_remove_debug_hook :
    Ptr
    → (Ptr → KeyValue)
    → Option (List Ptr)
    → Ptr
    → Option String
    → Option (Ptr × Option (List Ptr))
unfolding find_hook remove_hook
lxc_wire_remove_debug_hook junk entry hooks wire id =
    if wire == null || is_none id then some (null, hooks) else elim hooks [
      | none ↦ some (null, none)
      | some a ↦ find_hook (key_of entry) a 0 id >>= remove_hook junk (some a)
    ]

unfoldable pub lxc_wire_get_debug_hook :
    (Ptr → KeyValue) → Option (List Ptr) → Option String → Option Ptr
unfolding search
lxc_wire_get_debug_hook entry hooks id =
    search (key_of entry) hooks id >>= λ e. some (if e == null then null else (entry e).value)
