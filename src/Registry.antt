-- ===== src/Registry.antt =====
-- The registries of core/accounting.c: signals, gate behaviors and constants by name, and the library
-- tree of the gates. `none` is an access through NULL or outside of an array.
pub mod Tree
pub mod Unique
pub mod Agree
pub mod Register
pub mod Paths
pub mod Load
pub mod Gates
pub mod Structs
pub mod Conversions
use logxcontroll_v.Base.{
  ℕ, Option, none, some, Bool, true, false, List, [], ◌∷◌, ◌++◌, ◌==◌, if◌then◌else◌, ℤ, pos,
  negsuc, Ptr, null, ◌>>=◌,
}
use Prim.Native.String.{String}
use text.Mathlib.Text.{◌==◌ as str_eq}
use logxcontroll_v.Arrays.Pnt.{array_pnt_append_element}
use logxcontroll_v.Registry.Tree.{LibraryTree, add_gate}

-- The fields of the registered objects that are read; NULL for a name is `none`, and the paths of a
-- gate, a NULL terminated array of such arrays, are lists.
pub record Objects : Type 0 where
  pub signal_name : Ptr → Option String
  pub gate_name : Ptr → Option String
  pub constant_name : Ptr → Option String
  pub paths : Ptr → List (List String)

-- REGISTERED_SIGNALS, REGISTERED_BEHAVIORS, REGISTERED_CONSTANT_VALUES and ROOT_NODES
pub record Registry : Type 0 where
  pub signals : Option (List Ptr)
  pub behaviors : Option (List Ptr)
  pub constants : Option (List Ptr)
  pub root_nodes : LibraryTree

abbrev pub lxc_error_entity_already_registered : ℤ
lxc_error_entity_already_registered = negsuc 13

abbrev pub lxc_error_entity_by_name_already_registered : ℤ
lxc_error_entity_by_name_already_registered = negsuc 15

abbrev pub lxc_error_bad_call : ℤ
lxc_error_bad_call = negsuc 4

-- `0 == strcmp(a, b)`
abbrev pub same_text : Option String → Option String → Option Bool
same_text (some a) (some b) = some (str_eq a b)
same_text _ _ = none

-- `for(i=0;NULL != a[i];++i)` up to the entry with the name; NULL where there is none.
unfoldable pub find_by_name : (Ptr → Option String) → List Ptr → Option String → Option Ptr
find_by_name name_of [] name = none
find_by_name name_of (c ∷ a) name =
    let rest = find_by_name name_of a name in
    if c == null
    then some null
    else (same_text name (name_of c) >>= λ b. if b then some c else rest)

unfoldable pub search : (Ptr → Option String) → Option (List Ptr) → Option String → Option Ptr
unfolding find_by_name
search name_of none name = some null
search name_of (some a) name = find_by_name name_of a name

unfoldable pub get_gate_entry_by_name : Objects → Registry → Option String → Option Ptr
unfolding search
get_gate_entry_by_name o r name = search o.gate_name r.behaviors name

unfoldable pub lxc_get_signal_by_name : Objects → Registry → Option String → Option Ptr
unfolding search
lxc_get_signal_by_name o r name = search o.signal_name r.signals name

-- The element goes to the end of the array, unless the search found an entry.
unfoldable pub append_new : Ptr → Option (List Ptr) → Ptr → ℤ → Ptr → Option (ℤ × Option (List Ptr))
append_new junk arr e error found =
    if found == null
    then (array_pnt_append_element junk arr e >>= λ (i, arr'). some (pos 0, arr'))
    else some (error, arr)

unfoldable pub lxc_register_signal : Ptr → Objects → Registry → Ptr → Option (ℤ × Registry)
unfolding lxc_get_signal_by_name append_new
lxc_register_signal junk o r signal =
    if signal == null
    then none
    else (lxc_get_signal_by_name o r (o.signal_name signal) >>= λ found.
        append_new junk r.signals signal lxc_error_entity_already_registered found >>= λ (ret, arr).
        some (ret, record r { signals = arr }))

unfoldable pub lxc_register_constant_value : Ptr → Objects → Registry → Ptr → Option (ℤ × Registry)
unfolding search append_new
lxc_register_constant_value junk o r val =
    if val == null
    then none
    else (search o.constant_name r.constants (o.constant_name val) >>= λ found.
        append_new junk r.constants val lxc_error_entity_already_registered found >>= λ (ret, arr).
        some (ret, record r { constants = arr }))

-- The loop over the paths of a gate. A path with no name has no node to hold the gate.
unfoldable pub add_to_paths : LibraryTree → List (List String) → Ptr → Option LibraryTree
unfolding add_gate
add_to_paths t [] entry = some t
add_to_paths t ([] ∷ paths) entry = none
add_to_paths t ((name ∷ path) ∷ paths) entry = add_to_paths (add_gate t name path entry) paths entry

-- The part behind the search: `in` is `found`.
unfoldable pub add_behavior : Ptr → Objects → Registry → Ptr → Ptr → Option (ℤ × Registry)
unfolding add_to_paths
add_behavior junk o r entry found =
    if found == null
    then (array_pnt_append_element junk r.behaviors entry >>= λ (i, arr).
        add_to_paths r.root_nodes (o.paths entry) entry >>= λ t.
        some (pos 0, record r { behaviors = arr; root_nodes = t }))
    else some (lxc_error_entity_by_name_already_registered, r)

unfoldable pub register_named :
    Ptr → Objects → Registry → Ptr → Option String → Option (ℤ × Registry)
unfolding get_gate_entry_by_name add_behavior
register_named junk o r entry none = some (lxc_error_bad_call, r)
register_named junk o r entry (some name) =
    get_gate_entry_by_name o r (some name) >>= add_behavior junk o r entry

unfoldable pub lxc_register_gate : Ptr → Objects → Registry → Ptr → Option (ℤ × Registry)
unfolding register_named
lxc_register_gate junk o r entry =
    if entry == null then none else register_named junk o r entry (o.gate_name entry)
