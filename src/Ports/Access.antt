-- ===== src/Ports/Access.antt =====
-- The functions of core/builtins/gate_generic.c that read a port manager, or use it to read and write
-- an array of wires. `none` is an access outside of an array or through NULL.
use logxcontroll_v.Base.{
  ℕ, zero, suc, Option, none, some, Bool, true, false, List, [], ◌∷◌, ◌==◌, ltb, leb, if◌then◌else◌,
  length, get_elem?, write, ℤ, pos, negsuc, minus_one, Ptr, null, ◌>>=◌,
}
use Prim.Native.String.{String}
use text.Mathlib.Text.{◌==◌ as str_eq}
use logxcontroll_v.Ports.{FullSignalType, PortManager, PortName, text_of, lxc_port_get_absindex}

abbrev pub lxc_error_entity_out_of_range : ℤ
lxc_error_entity_out_of_range = negsuc 0

-- `arr[abs]` where `abs` is not negative, and NULL else.
unfoldable pub wire_at : List Ptr → ℤ → Option Ptr
wire_at arr (pos abs) = get_elem? arr abs
wire_at arr _ = some null

unfoldable pub lxc_port_get_wire : PortManager → Ptr → ℤ → ℕ → List Ptr → Option Ptr
unfolding wire_at
lxc_port_get_wire m signal subtype index arr =
    lxc_port_get_absindex m signal subtype index >>= wire_at arr

unfoldable pub wire_at_safe : List Ptr → ℕ → ℤ → Option Ptr
wire_at_safe arr port_size (pos abs) = if leb port_size abs then some null else get_elem? arr abs
wire_at_safe arr port_size _ = some null

unfoldable pub lxc_port_get_wire_safe : PortManager → Ptr → ℤ → ℕ → List Ptr → ℕ → Option Ptr
unfolding wire_at_safe
lxc_port_get_wire_safe m signal subtype index arr port_size =
    lxc_port_get_absindex m signal subtype index >>= wire_at_safe arr port_size

unfoldable pub wire_to : List Ptr → Ptr → ℤ → Option (ℤ × List Ptr)
wire_to arr w (pos abs) = write arr abs w >>= λ arr'. some (pos 0, arr')
wire_to arr w _ = some (lxc_error_entity_out_of_range, arr)

unfoldable pub lxc_port_wiring : PortManager → Ptr → ℤ → ℕ → List Ptr → Ptr → Option (ℤ × List Ptr)
unfolding wire_to
lxc_port_wiring m signal subtype index arr w =
    lxc_port_get_absindex m signal subtype index >>= wire_to arr w

-- NULL, or the name in the slot.
unfoldable pub label_at : List PortName → ℤ → Option (Option PortName)
label_at names (pos abs) = get_elem? names abs >>= λ n. some (some n)
label_at names _ = some none

unfoldable pub lxc_generic_get_port_label : PortManager → Ptr → ℤ → ℕ → Option (Option PortName)
unfolding label_at
lxc_generic_get_port_label m signal subtype index =
    lxc_port_get_absindex m signal subtype index >>= label_at m.port_names

unfoldable pub negated : ℕ → ℤ
negated zero = pos 0
negated (suc n) = negsuc n

-- `lxc_port_fill_types`: the result and what is copied to the two destination arrays.
unfoldable pub lxc_port_fill_types : PortManager → ℕ → ℤ × List FullSignalType
unfolding negated
lxc_port_fill_types m max_length =
    let popul = length m.managed_types in
    if ltb max_length popul then (negated popul, []) else (pos popul, m.managed_types)

-- The first `size` cells hold a pointer that is not NULL.
unfoldable pub any_connected : ℕ → List Ptr → Option Bool
any_connected zero wires = some false
any_connected (suc size) [] = none
any_connected (suc size) (w ∷ wires) =
    let rest = any_connected size wires in if w == null then rest else some true

-- NULL for `wires` is `none`.
unfoldable pub lxc_port_is_any_wire_connected : PortManager → Option (List Ptr) → ℕ → Option Bool
unfolding any_connected
lxc_port_is_any_wire_connected m wires max_length = elim wires [
  | none ↦ some false
  | some a ↦ any_connected (if ltb max_length m.max_size then max_length else m.max_size) a
]

-- The walk over the names: its test is that of the address, so that it leaves the array where no
-- name fits.
unfoldable pub name_index : List PortName → String → ℕ → Option ℤ
name_index [] name i = none
name_index (n ∷ ns) name i =
    let rest = name_index ns name (suc i) in if str_eq (text_of n) name then some (pos i) else rest

unfoldable pub lxc_port_get_absindex_by_name : PortManager → String → Option ℤ
unfolding name_index
lxc_port_get_absindex_by_name m name = name_index m.port_names name 0

-- The search in one group, over `max` entries from `a` on.
unfoldable pub index_in_group : ℕ → List ℕ → ℕ → ℕ → Option ℤ
index_in_group zero g a absindex = some minus_one
index_in_group (suc max) [] a absindex = none
index_in_group (suc max) (x ∷ g) a absindex =
    let rest = index_in_group max g (suc a) absindex in if absindex == x then some (pos a) else rest

-- The type, the index of the type and the index in the group; the last two are -1 where the walk over
-- the groups ends, and the type is then NULL.
pub record PortPlace : Type 0 where
  pub signal : Ptr
  pub managed_type_index : ℤ
  pub index : ℤ

unfoldable pub place_in_groups : List (List ℕ) → List FullSignalType → ℕ → ℕ → ℕ → Option PortPlace
place_in_groups [] types max i absindex =
    some (record { signal = null; managed_type_index = minus_one; index = minus_one })
place_in_groups (g ∷ groups) [] max i absindex = none
place_in_groups (g ∷ groups) (t ∷ types) max i absindex =
    let rest = place_in_groups groups types max (suc i) absindex in
    index_in_group max g 0 absindex >>= λ z. elim z [
      | pos a ↦ some (record { signal = t.signal; managed_type_index = pos i; index = pos a })
      | negsuc _ ↦ rest
    ]

-- Every group is searched over `*to_abs_size` entries, the size of the first group.
unfoldable pub lxc_port_get_type_and_index_by_absindex : PortManager → ℕ → Option PortPlace
unfolding index_in_group place_in_groups
lxc_port_get_type_and_index_by_absindex m absindex = elim m.to_abs_size [
  | [] ↦ (elim m.to_abs [
    | [] ↦ some (record { signal = null; managed_type_index = minus_one; index = minus_one })
    | _ ↦ none
  ])
  | max ∷ _ ↦ place_in_groups m.to_abs m.managed_types max 0 absindex
]
