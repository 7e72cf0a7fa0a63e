-- ===== src/Circuits.antt =====
-- Circuits: core/facet.c, from lxc_wire_set_refdes to lxc_circuit_wire_ports_together. The hash map that
-- files the wires and the gates by their names is a parameter. `none` is an access through NULL.
pub mod Together
pub mod Connected
use logxcontroll_v.Base.{
  ℕ, zero, suc, Option, none, some, Bool, true, false, List, [], ◌∷◌, ◌++◌, ◌==◌, ◌&&◌, ◌||◌, not,
  if◌then◌else◌, ℤ, pos, negsuc, eq_ℤ, Ptr, null, ◌>>=◌,
}
use Prim.Native.String.{String}
use logxcontroll_v.Values.{Operations, lxc_import_new_value}
use logxcontroll_v.Registry.{lxc_error_entity_by_name_already_registered}
use logxcontroll_v.Ports.{FullSignalType}
use logxcontroll_v.Wires.{
  Wire, World, PortAccess, Message, with_wire, lxc_wire_create, lxc_error_port_is_in_use,
  lxc_error_type_not_supported,
}
use logxcontroll_v.Wires.Wiring.{lxc_wire_gate_input, lxc_wire_gate_output}
use logxcontroll_v.Wires.Queries.{
  PortQueries, rounds_of, lxc_gate_set_enabled, lxc_gate_get_portinfo_by_name,
}

abbrev pub lxc_error_already_has_driver : ℤ
lxc_error_already_has_driver = negsuc 5

abbrev pub lxc_error_entity_not_found : ℤ
lxc_error_entity_not_found = negsuc 14

abbrev pub lxc_error_type_mismatch : ℤ
lxc_error_type_mismatch = negsuc 1029

-- The hash map: what `hashmap_get` stores for a key, NULL where there is none; whether `hashmap_put`
-- gives MAP_OK, and the map behind it; and the entries in the order of `hashmap_iterate`.
pub record MapOps (M : Type 0) : Type 0 where
  pub hashmap_new : M
  pub hashmap_get : M → String → Ptr
  pub hashmap_put : M → String → Ptr → Bool × M
  pub entries : M → List Ptr

-- struct circuit, less its name
pub record Circuit (M : Type 0) : Type 0 where
  pub wires : M
  pub gates : M

-- The name that was there is freed.
unfoldable pub lxc_wire_set_refdes : {G : Type 0} → World G → Ptr → String → World G
lxc_wire_set_refdes w p name = with_wire w p (record (w.wire p) { ref_des = some name })

unfoldable pub lxc_gate_set_refdes : {G : Type 0} → World G → Ptr → String → World G
lxc_gate_set_refdes w gate name = record w {
  gate_ref_des = λ g. if gate == g then some name else w.gate_ref_des g;
}

-- The value that the wire holds is given up, and the wire is freed.
unfoldable pub lxc_wire_destroy : {G : Type 0} → Operations → World G → Ptr → World G
lxc_wire_destroy ops w p =
    let imported = lxc_import_new_value ops w.values null (w.wire p).current_value in
    record (with_wire w p (record (w.wire p) { current_value = imported.1 })) {
      values = imported.2;
      freed = w.freed ++ p ∷ [];
    }

abbrev pub set_all : {G : Type 0} → World G → List Ptr → Bool → World G
set_all w [] enable = w
set_all w (g ∷ gates) enable = set_all (lxc_gate_set_enabled w g enable) gates enable

module _ {M : Type 0} (maps : MapOps M) where
  unfoldable pub lxc_circuit_create : Circuit M
  lxc_circuit_create = record { wires = maps.hashmap_new; gates = maps.hashmap_new }

  unfoldable pub lxc_circuit_get_wire_by_refdes : Circuit M → Option String → Ptr
  lxc_circuit_get_wire_by_refdes circ none = null
  lxc_circuit_get_wire_by_refdes circ (some name) = maps.hashmap_get circ.wires name

  unfoldable pub lxc_circuit_get_gate_by_refdes : Circuit M → String → Ptr
  lxc_circuit_get_gate_by_refdes circ name = maps.hashmap_get circ.gates name

  -- The part of lxc_circuit_add_wire behind the test for the name. Each error code becomes `true`.
  unfoldable pub add_named_wire : Circuit M → Ptr → Option String → Bool × Circuit M
  unfolding lxc_circuit_get_wire_by_refdes
  add_named_wire circ p none = (true, circ)
  add_named_wire circ p (some name) =
      if not (lxc_circuit_get_wire_by_refdes circ (some name) == null)
      then (true, circ)
      else let put = maps.hashmap_put circ.wires name p in
        (not put.0, record circ { wires = put.1 })

  unfoldable pub lxc_circuit_add_wire : {G : Type 0} → World G → Circuit M → Ptr → Bool × Circuit M
  unfolding add_named_wire
  lxc_circuit_add_wire w circ p =
      if p == null then (true, circ) else add_named_wire circ p (w.wire p).ref_des

  unfoldable pub add_named_gate : Circuit M → Ptr → Option String → Option (ℤ × Circuit M)
  unfolding lxc_circuit_get_gate_by_refdes
  add_named_gate circ gate none = none
  add_named_gate circ gate (some name) =
      if not (lxc_circuit_get_gate_by_refdes circ name == null)
      then some (lxc_error_entity_by_name_already_registered, circ)
      else some (pos 0, record circ { gates = (maps.hashmap_put circ.gates name gate).1 })

  unfoldable pub lxc_circuit_add_gate :
      {G : Type 0} → World G → Circuit M → Ptr → Option (ℤ × Circuit M)
  unfolding add_named_gate
  lxc_circuit_add_gate w circ gate = add_named_gate circ gate (w.gate_ref_des gate)

  unfoldable pub lxc_circuit_set_all_gate_enable :
      {G : Type 0} → World G → Circuit M → Bool → World G
  unfolding lxc_gate_set_enabled
  lxc_circuit_set_all_gate_enable w circ enable = set_all w (maps.entries circ.gates) enable

  -- A new wire at `address`, with its name and filed in the circuit; the answer of lxc_circuit_add_wire.
  unfoldable pub create_wire :
      {G : Type 0} → World G → Circuit M → Ptr → String → Ptr → Bool × Circuit M × World G
  unfolding lxc_wire_set_refdes lxc_circuit_add_wire
  create_wire w circ address name sig =
      let w₁ = lxc_wire_set_refdes (with_wire w address (lxc_wire_create sig)) address name in
      let added = lxc_circuit_add_wire w₁ circ address in (added.0, added.1, w₁)

  unfoldable pub lxc_circuit_get_or_create_wire :
      {G : Type 0} → World G → Circuit M → Ptr → String → Ptr → Option (Ptr × Circuit M × World G)
  unfolding create_wire lxc_circuit_get_wire_by_refdes
  lxc_circuit_get_or_create_wire w circ address name sig =
      let found = lxc_circuit_get_wire_by_refdes circ (some name) in
      if found == null
      then if sig == null
        then none
        else (let made = create_wire w circ address name sig in some (address, made.1, made.2))
      else if sig == (w.wire found).type
      then some (found, circ, w)
      else some (null, circ, w)

-- The gates of a circuit: how their ports of either direction are used and asked for. `execute` is
-- what the execution of a gate does.
module _ {G : Type 0} (ops : Operations) (execute : Ptr → Message → World G → World G) (junk : Ptr)
    (ins outs : PortAccess G) (in_queries out_queries : PortQueries G) where
  -- `m` is the index, with the rounds that are left; `unwire` is lxc_wire_gate_input or
  -- lxc_wire_gate_output with NULL.
  unfoldable pub release_indices :
      (World G → Ptr → ℤ → ℕ → Option Ptr)
      → (Ptr → ℤ → ℕ → World G → Option (ℤ × World G))
      → Ptr
      → ℤ
      → ℕ
      → ℕ
      → World G
      → Option (World G)
  release_indices get_wire unwire type subtype zero m w = some w
  release_indices get_wire unwire type subtype (suc rounds) m w =
      get_wire w type subtype m >>= λ wired.
      (if wired == null then some w else (unwire type subtype m w >>= λ out. some out.1))
      >>= release_indices get_wire unwire type subtype rounds (suc m)

  unfoldable pub release_types :
      (World G → Ptr → ℤ → Option ℤ)
      → (World G → Ptr → ℤ → ℕ → Option Ptr)
      → (Ptr → ℤ → ℕ → World G → Option (ℤ × World G))
      → ℕ
      → List FullSignalType
      → World G
      → Option (World G)
  unfolding release_indices
  release_types max_of get_wire unwire zero types w = some w
  release_types max_of get_wire unwire (suc rounds) [] w = none
  release_types max_of get_wire unwire (suc rounds) (t ∷ types) w =
      max_of w t.signal t.subtype >>= λ max.
      release_indices get_wire unwire t.signal t.subtype (rounds_of max) 0 w
      >>= release_types max_of get_wire unwire rounds types

  unfoldable pub release_port_generic :
      PortAccess G
      → (Ptr → ℤ → ℕ → World G → Option (ℤ × World G))
      → Ptr
      → World G
      → Option (World G)
  unfolding release_types
  release_port_generic access unwire gate w =
      let types = access.get_types (w.state gate) in
      release_types (λ v. access.get_max_index (v.state gate)) (λ v. access.get_wire (v.state gate))
        unwire (rounds_of types.0) types.1 w

  unfoldable pub iterate_release_all_port : Ptr → World G → Option (World G)
  unfolding release_port_generic
  iterate_release_all_port gate w =
      release_port_generic ins
        (λ type subtype m v. lxc_wire_gate_input execute junk null ins type subtype null gate m v)
        gate w
      >>= λ w₁.
          release_port_generic outs
            (λ type subtype m v.
              lxc_wire_gate_output execute junk null outs type subtype null gate m v)
            gate w₁
