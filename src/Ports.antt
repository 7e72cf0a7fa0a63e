-- ===== src/Ports.antt =====
-- The port manager of core/builtins/gate_generic.c: ports by signal type, with an index in the type's
-- group and an absolute index. The arrays are lists of the entries in front of their terminators; an
-- array that is NULL reads like one with no entry. `none` is an access outside of an array.
pub mod Types
pub mod Ensure
pub mod Add
pub mod AddPort
pub mod Access
pub mod Wires
use logxcontroll_v.Base.{
  ℕ, zero, suc, ◌+◌, Option, none, some, Bool, true, false, List, [], ◌∷◌, ◌++◌, ◌==◌, ltb, ◌&&◌,
  if◌then◌else◌, length, get_elem?, set, write, realloc, ℤ, pos, negsuc, minus_one, eq_ℤ, Ptr, null,
  ◌>>=◌,
}
use Prim.Native.String.{String}
use text.Mathlib.Text.{◌==◌ as str_eq}

-- struct lxc_full_signal_type
pub record FullSignalType : Type 0 where
  pub signal : Ptr
  pub subtype : ℤ

-- An entry of `port_names`: the address `lxc_port_empty_name`, or a name.
pub data PortName : Type 0 where
  lxc_port_empty_name : PortName
  label : String → PortName

-- struct lxc_port_manager
pub record PortManager : Type 0 where
  pub max_size : ℕ
  pub managed_types : List FullSignalType
  pub to_abs : List (List ℕ)
  pub port_names : List PortName
  pub to_abs_size : List ℕ

unfoldable pub lxc_port_init_port_manager_factory : PortManager
lxc_port_init_port_manager_factory = record {
  max_size = 0;
  managed_types = [];
  to_abs = [];
  port_names = [];
  to_abs_size = [];
}

abbrev pub same_type : FullSignalType → Ptr → ℤ → Bool
same_type t signal subtype = t.signal == signal && eq_ℤ t.subtype subtype

-- The search for the first entry of a type; `none` at the terminator.
unfoldable pub find_type : List FullSignalType → Ptr → ℤ → Option ℕ
find_type [] signal subtype = none
find_type (t ∷ ts) signal subtype =
    let rest = find_type ts signal subtype >>= λ i. some (suc i) in
    if same_type t signal subtype then some 0 else rest

-- The entry of a group, where the index lies below the group's size; -1 else.
unfoldable pub read_group : PortManager → ℕ → ℕ → Option ℤ
read_group m tindex index = get_elem? m.to_abs_size tindex >>= λ len.
    if ltb index len
    then (get_elem? m.to_abs tindex >>= λ g. get_elem? g index >>= λ a. some (pos a))
    else some minus_one

-- `tindex` is the index of the type, if it is registered.
unfoldable pub read_port : PortManager → ℕ → Option ℕ → Option ℤ
unfolding read_group
read_port m index none = some minus_one
read_port m index (some tindex) = read_group m tindex index

unfoldable pub lxc_port_get_absindex : PortManager → Ptr → ℤ → ℕ → Option ℤ
unfolding find_type read_port
lxc_port_get_absindex m signal subtype index =
    read_port m index (find_type m.managed_types signal subtype)

unfoldable pub size_of_type : PortManager → Option ℕ → Option ℤ
size_of_type m none = some minus_one
size_of_type m (some i) = get_elem? m.to_abs_size i >>= λ n. some (pos n)

unfoldable pub lxc_generic_get_type_max_index : PortManager → Ptr → ℤ → Option ℤ
unfolding find_type size_of_type
lxc_generic_get_type_max_index m signal subtype =
    size_of_type m (find_type m.managed_types signal subtype)

-- The text that `strcmp` reads.
abbrev pub text_of : PortName → String
text_of lxc_port_empty_name = ""
text_of (label s) = s

unfoldable pub name_in : List PortName → String → Bool
name_in [] name = false
name_in (n ∷ ns) name = let rest = name_in ns name in if str_eq (text_of n) name then true else rest

unfoldable pub lxc_port_check_portname_in_use : PortManager → String → Bool
unfolding name_in
lxc_port_check_portname_in_use m name = name_in m.port_names name

-- The search for an empty slot.
unfoldable pub empty_slot : List PortName → Option ℕ
empty_slot [] = none
empty_slot (lxc_port_empty_name ∷ ns) = some 0
empty_slot (label s ∷ ns) = empty_slot ns >>= λ i. some (suc i)

-- The search for a managed type with no port.
unfoldable pub empty_type : List FullSignalType → List ℕ → Option (Option ℕ)
empty_type [] lengths = some none
empty_type (t ∷ ts) [] = none
empty_type (t ∷ ts) (n ∷ lengths) =
    let rest =
      empty_type ts lengths >>= λ o. some (elim o [ none ↦ none | some i ↦ some (suc i) ]) in
    if n == 0 then some (some 0) else rest

-- A type that is not registered takes the entry of a type with no port, or a new one at the end with
-- an empty group; `junk` is what `realloc` leaves in the sizes.
pub register_at : ℕ → PortManager → Ptr → ℤ → Option ℕ → Option (ℕ × PortManager)
register_at junk m signal subtype (some i) =
    write m.managed_types i (record { signal = signal; subtype = subtype }) >>= λ types.
    write m.to_abs_size i 0 >>= λ sizes.
    some (i, record m { managed_types = types; to_abs_size = sizes })
register_at junk m signal subtype none =
    let ti = length m.managed_types in
    write (realloc junk (ti + 1) m.to_abs_size) ti 0 >>= λ sizes. some (
      ti,
      record m {
        managed_types = m.managed_types ++ record { signal = signal; subtype = subtype } ∷ [];
        to_abs = m.to_abs ++ [] ∷ [];
        to_abs_size = sizes;
      },
    )

-- The index of the type, registered if it was not.
ensure_from : ℕ → PortManager → Ptr → ℤ → Option ℕ → Option (ℕ × PortManager)
unfolding empty_type register_at
ensure_from junk m signal subtype (some ti) = some (ti, m)
ensure_from junk m signal subtype none =
    empty_type m.managed_types m.to_abs_size >>= register_at junk m signal subtype

unfoldable pub ensure_type : ℕ → PortManager → Ptr → ℤ → Option (ℕ × PortManager)
unfolding find_type ensure_from
ensure_type junk m signal subtype =
    ensure_from junk m signal subtype (find_type m.managed_types signal subtype)

-- The absolute index goes to the end of the group; the result is the index in the group.
unfoldable pub push_abs : ℕ → PortManager → ℕ → ℕ → Option (ℕ × PortManager)
push_abs junk m ti next_abs = get_elem? m.to_abs_size ti >>= λ len. get_elem? m.to_abs ti >>= λ g.
    write (realloc junk (len + 1) g) len next_abs >>= λ g'. write m.to_abs ti g' >>= λ groups.
    write m.to_abs_size ti (len + 1) >>= λ sizes.
    some (len, record m { to_abs = groups; to_abs_size = sizes })

-- What `lxc_port_unchecked_add_new_port` returns and writes to `index_in_type_group`.
pub record AddedPort : Type 0 where
  pub returned : ℕ
  pub index_in_type_group : ℕ
  pub manager : PortManager

-- The name goes to the empty slot, or to the end; the two cases return different numbers.
unfoldable pub place_name : PortManager → String → Option ℕ → Option (ℕ × PortManager)
place_name m port_name (some next_abs) = write m.port_names next_abs (label port_name) >>= λ names.
    some (next_abs, record m { port_names = names; max_size = length names })
place_name m port_name none =
    let ni = length m.port_names in
    some (ni + 1, record m { port_names = m.port_names ++ label port_name ∷ []; max_size = ni + 1 })

abbrev pub next_abs_of : PortManager → Option ℕ → ℕ
next_abs_of m (some i) = i
next_abs_of m none = length m.port_names

unfoldable pub lxc_port_unchecked_add_new_port :
    ℕ → PortManager → String → Ptr → ℤ → Option AddedPort
lxc_port_unchecked_add_new_port junk m port_name signal subtype =
    let slot = empty_slot m.port_names in
    ensure_type junk m signal subtype >>= λ (ti, m₁).
    push_abs junk m₁ ti (next_abs_of m slot) >>= λ (index, m₂).
    place_name m₂ port_name slot >>= λ (returned, m₃).
    some (record { returned = returned; index_in_type_group = index; manager = m₃ })

unfoldable pub lxc_port_count : PortManager → ℕ
lxc_port_count m = m.max_size
