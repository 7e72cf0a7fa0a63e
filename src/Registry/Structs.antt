-- ===== src/Registry/Structs.antt =====
-- The struct types of core/accounting.c. A struct descriptor is a cell that was allocated alone.
use logxcontroll_v.Base.{
  ℕ, zero, suc, Option, none, some, List, [], ◌∷◌, ◌==◌, if◌then◌else◌, ℤ, pos, negsuc, Ptr, null,
  ◌>>=◌,
}
use Prim.Native.String.{String}
use logxcontroll_v.Arrays.Pnt.{array_pnt_append_element, array_pnt_population}
use logxcontroll_v.Registry.{same_text, lxc_error_entity_already_registered}

pub record StructEntry : Type 0 where
  pub field_name : Option String
  pub type : Ptr
  pub subtype : ℤ

-- `entrys_array_pnt` is NULL in every descriptor, since nothing sets it.
pub record StructDescriptor : Type 0 where
  pub ordinal : ℤ
  pub name : Option String

-- REGISTERED_STRUCT_SUBTYPES and the descriptors by their addresses.
pub record Structs : Type 0 where
  pub registered : Option (List Ptr)
  pub descriptor : Ptr → StructDescriptor

-- The loop that clones the entries: what the cells of `into` point to. A name that is NULL cannot be copied.
unfoldable pub clone_entries : (Ptr → StructEntry) → ℕ → List Ptr → Option (List StructEntry)
clone_entries entry zero a = some []
clone_entries entry (suc len) [] = none
clone_entries entry (suc len) (c ∷ a) =
    let rest = clone_entries entry len a in
    if c == null
    then none
    else elim (entry c).field_name [ none ↦ none | some n ↦ rest >>= λ into. some (entry c ∷ into) ]

abbrev pub cells_of : Option (List Ptr) → List Ptr
cells_of none = []
cells_of (some a) = a

-- `-ordinal`
abbrev pub negated : ℤ → ℤ
negated (pos zero) = pos zero
negated (pos (suc n)) = negsuc n
negated (negsuc n) = pos (suc n)

-- `d` is the address of the new descriptor, which is the result; the clones of the entries are lost.
unfoldable pub lxc_do_register_structure :
    Ptr → (Ptr → StructEntry) → Ptr → Option String → Option (List Ptr) → Structs → Option Structs
unfolding clone_entries
lxc_do_register_structure junk entry d name entrys_array_pnt s =
    array_pnt_population entrys_array_pnt >>= λ len.
    clone_entries entry len (cells_of entrys_array_pnt) >>= λ into.
    array_pnt_append_element junk s.registered d >>= λ (ordinal, registered'). some (record {
      registered = registered';
      descriptor =
          λ q. if d == q then record { ordinal = negated ordinal; name = name } else s.descriptor q;
    })

-- The pointer goes on from the first descriptor to the memory behind it.
unfoldable pub lxc_get_struct_subtype_by_name : Option String → Structs → Option Ptr
lxc_get_struct_subtype_by_name name s = elim s.registered [
  | none ↦ some null
  | some a ↦ elim a [
    | [] ↦ none
    | c ∷ cells ↦
        if c == null
        then some null
        else (same_text name (s.descriptor c).name >>= λ found. if found then some c else none)
  ]
]

-- The placeholder goes to the address `p`, where nothing is registered yet.
unfoldable pub initialized : Ptr → (Ptr → StructEntry) → Ptr → Structs → Option Structs
unfolding lxc_do_register_structure
initialized junk entry p s = elim s.registered [
  | none ↦ lxc_do_register_structure junk entry p (some "\r\n") (some (null ∷ [])) s
  | some a ↦ some s
]

-- The result, what is written to `*error` where `error` is not NULL, and the registry.
unfoldable pub lxc_register_struct_type :
    Ptr
    → (Ptr → StructEntry)
    → Ptr
    → Ptr
    → Option String
    → Option (List Ptr)
    → Structs
    → Option (Ptr × Option ℤ × Structs)
unfolding initialized lxc_get_struct_subtype_by_name lxc_do_register_structure
lxc_register_struct_type junk entry p d name entrys_array_pnt s =
    initialized junk entry p s >>= λ s'. lxc_get_struct_subtype_by_name name s' >>= λ re.
    if re == null
    then (lxc_do_register_structure junk entry d name entrys_array_pnt s' >>= λ s''.
        some (d, none, s''))
    else some (null, some lxc_error_entity_already_registered, s')
