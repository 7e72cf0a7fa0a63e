-- ===== src/Wires.antt =====
-- Wires and the ports that gates tie to them: core/facet.c, from lxc_wire_create to
-- lxc_wire_gate_output. The state of the gates is a type `G`, and what a behavior does with its ports
-- is a parameter. `none` is an access through NULL or outside of an array.
pub mod Wiring
pub mod Ports
pub mod Laws
pub mod Tie
pub mod Unwire
pub mod TieOutput
pub mod RoundTrip
pub mod Refused
pub mod Drive
pub mod Notify
pub mod Hooks
pub mod Queries
pub mod Labels
pub mod Lookup
use logxcontroll_v.Base.{
  ℕ, zero, suc, ◌+◌, ◌^◌, Option, none, some, Bool, true, false, List, [], ◌∷◌, ◌++◌, ◌==◌, ltb,
  leb, ◌&&◌, ◌||◌, not, if◌then◌else◌, ℤ, pos, negsuc, eq_ℤ, Ptr, null, ◌>>=◌,
}
use Prim.Native.String.{String}
use logxcontroll_v.Arrays.Tracked.{TrackedArray}
use logxcontroll_v.Arrays.Nt.{array_nt_append_element, array_nt_contains, array_nt_pop_element}
use logxcontroll_v.Values.{Values}
use logxcontroll_v.Ports.{FullSignalType, same_type}

-- struct lxc_tokenport
pub record Tokenport : Type 0 where
  pub owner : Ptr
  pub wire_index : ℤ
  pub gate : Ptr
  pub index : ℕ

-- struct lxc_wire; `wire_debug_hooks` is a packed array, whose entries stand for their hooks.
pub record Wire : Type 0 where
  pub type : Ptr
  pub subtype : ℤ
  pub current_value : Ptr
  pub ref_des : Option String
  pub wire_debug_hooks : Option (List Ptr)
  pub drivers : TrackedArray
  pub drivens : TrackedArray

abbrev pub no_array : TrackedArray
no_array = record { cells = none; length = 0 }

-- The memory of the wires, their tokenports and the gates, the counts of the values, the fields
-- `enabled` and `ref_des` of the gates, and the tokenports and wires that were given to `free`.
pub record World (G : Type 0) : Type 0 where
  pub wire : Ptr → Wire
  pub tokenport : Ptr → Tokenport
  pub state : Ptr → G
  pub enabled : Ptr → Bool
  pub gate_ref_des : Ptr → Option String
  pub values : Values
  pub freed : List Ptr

abbrev pub update : {A : Type 0} → (Ptr → A) → Ptr → A → Ptr → A
update f p v q = if p == q then v else f q

-- What a behavior offers for the ports of one direction: the types with their number, the maximal
-- index of a type, the tokenport or wire at a port, and the function that ties one to a port.
pub record PortAccess (G : Type 0) : Type 0 where
  pub get_types : G → ℤ × List FullSignalType
  pub get_max_index : G → Ptr → ℤ → Option ℤ
  pub get_wire : G → Ptr → ℤ → ℕ → Option Ptr
  pub wire_function : G → Ptr → ℤ → ℕ → Ptr → Option (ℤ × G)

-- The two directions: what is tied to an input port is a tokenport, to an output port the wire itself.
pub data Direction : Type 0 where
  direction_in direction_out : Direction

-- What the execution of a gate is called with: a value, NULL included, or the event of an added wire.
pub data Message : Type 0 where
  of_value : Ptr → ℤ → Ptr → ℕ → Message
  output_wire_added : Ptr → ℤ → ℕ → Message

abbrev pub lxc_error_entity_out_of_range : ℤ
lxc_error_entity_out_of_range = negsuc 0

abbrev pub lxc_error_type_not_supported : ℤ
lxc_error_type_not_supported = negsuc 1

abbrev pub lxc_error_port_is_in_use : ℤ
lxc_error_port_is_in_use = negsuc 2

abbrev pub lxc_error_port_is_already_free : ℤ
lxc_error_port_is_already_free = negsuc 3

abbrev pub lxc_error_bad_call : ℤ
lxc_error_bad_call = negsuc 4

abbrev pub lxc_error_not_connected_unwiring : ℤ
lxc_error_not_connected_unwiring = negsuc 6

abbrev pub lxc_error_corruption : ℤ
lxc_error_corruption = negsuc 17

abbrev pub lxc_error_too_many_types : ℤ
lxc_error_too_many_types = negsuc 1023

-- The wire that lxc_wire_create sets up in the memory it was given.
unfoldable pub lxc_wire_create : Ptr → Wire
lxc_wire_create type = record {
  type = type;
  subtype = pos 0;
  current_value = null;
  ref_des = none;
  wire_debug_hooks = none;
  drivers = no_array;
  drivens = no_array;
}

-- The search of remove_port: the index of the first tokenport of the gate and the index.
unfoldable pub find_port : (Ptr → Tokenport) → Ptr → ℕ → List Ptr → ℕ → ℕ → Option (Option ℕ)
find_port token instance_of index a zero i = some none
find_port token instance_of index [] (suc rounds) i = none
find_port token instance_of index (p ∷ a) (suc rounds) i =
    let rest = find_port token instance_of index a rounds (suc i) in
    if p == null
    then none
    else if instance_of == (token p).gate && index == (token p).index
    then some (some i)
    else rest

-- The part of remove_port behind the search: the array, and the tokenport to free.
unfoldable pub take_port : TrackedArray → Option ℕ → Option (Option (Ptr × TrackedArray))
take_port ports none = some none
take_port ports (some i) = array_nt_pop_element ports i >>= λ out. some (some out)

-- `none` inside is the answer false.
unfoldable pub remove_port :
    (Ptr → Tokenport) → Ptr → ℕ → TrackedArray → Option (Option (Ptr × TrackedArray))
unfolding find_port take_port
remove_port token instance_of index ports = elim ports.cells [
  | none ↦ none
  | some [] ↦ none
  | some (c ∷ a) ↦
      if c == null
      then some none
      else (find_port token instance_of index (c ∷ a) ports.length 0 >>= take_port ports)
]

-- `ports[0]..ports[n-1]`: whether the type is among the first `n`.
unfoldable pub is_supported : ℕ → List FullSignalType → Ptr → ℤ → Option Bool
is_supported zero types signal subtype = some false
is_supported (suc n) [] signal subtype = none
is_supported (suc n) (t ∷ types) signal subtype =
    let rest = is_supported n types signal subtype in
    if same_type t signal subtype then some true else rest

-- The checks up to the label `passed`, and the one of the index: 0, or the error. `index` is an int, so
-- that a number from 2^31 on is negative.
unfoldable pub check_types : ℤ × List FullSignalType → Ptr → ℤ → Option ℤ
unfolding is_supported
check_types (negsuc n, types) signal subtype =
    some (if ltb 19 n then lxc_error_too_many_types else lxc_error_type_not_supported)
check_types (pos n, types) signal subtype = is_supported n types signal subtype >>= λ b.
    some (if b then pos 0 else lxc_error_type_not_supported)

-- `index < 0 || index > max`
abbrev pub out_of_range : ℕ → ℤ → Bool
out_of_range index (pos max) = leb (2 ^ 31) index || ltb max index
out_of_range index (negsuc n) = true

-- lxc_gate_is_enabled
unfoldable pub lxc_gate_is_enabled : {G : Type 0} → World G → Ptr → Bool
lxc_gate_is_enabled w gate = if gate == null then true else w.enabled gate

-- The world with other fields of one wire, or with another state of one gate.
abbrev pub with_wire : {G : Type 0} → World G → Ptr → Wire → World G
with_wire w p v = record w { wire = update w.wire p v }

abbrev pub with_state : {G : Type 0} → World G → Ptr → G → World G
with_state w g s = record w { state = update w.state g s }

abbrev pub with_token : {G : Type 0} → World G → Ptr → Tokenport → World G
with_token w p t = record w { tokenport = update w.tokenport p t }

-- The wire of what is tied to the port, its array of tokenports, and the wire with another one.
abbrev pub owner_of : {G : Type 0} → Direction → World G → Ptr → Ptr
owner_of direction_in w wired = (w.tokenport wired).owner
owner_of direction_out w wired = wired

abbrev pub ports_of : Direction → Wire → TrackedArray
ports_of direction_in o = o.drivens
ports_of direction_out o = o.drivers

abbrev pub with_ports : Direction → Wire → TrackedArray → Wire
with_ports direction_in o ports = record o { drivens = ports }
with_ports direction_out o ports = record o { drivers = ports }
