-- ===== src/Tests/Ports.antt =====
-- The port manager of core/builtins/gate_generic.c with one signal type and one port.
use logxcontroll_v.Base.{
  ℕ, zero, suc, ◌≡◌, ◌≤◌, refl, some, false, List, [], ◌∷◌, arith, length, get_elem?, pos, negsuc,
  Ptr, null,
}
use logxcontroll_v.Ports.{
  PortManager, lxc_port_empty_name, label, lxc_port_get_absindex, lxc_port_check_portname_in_use,
  lxc_port_unchecked_add_new_port, AddedPort, empty_slot, lxc_port_count,
  lxc_generic_get_type_max_index, ensure_type, lxc_port_init_port_manager_factory,
}
use logxcontroll_v.Ports.Types.{Aligned}
use logxcontroll_v.Ports.Ensure.{EnsuredBy, ensure_lem}
use logxcontroll_v.Ports.Add.{Added}
use logxcontroll_v.Ports.AddPort.{add-port}
use logxcontroll_v.Ports.Access.{
  lxc_port_wiring, lxc_port_get_wire, lxc_port_get_wire_safe, lxc_port_get_absindex_by_name,
  lxc_generic_get_port_label, lxc_port_fill_types, lxc_port_is_any_wire_connected,
  lxc_port_get_type_and_index_by_absindex,
}
use logxcontroll_v.Ports.Wires.{wiring-get_wire, get_wire_safe-total}

-- The port I1 stands at 1, behind an empty slot, and I2 at 2.
abbrev manager : PortManager
manager = record {
  max_size = 3;
  managed_types = record { signal = 9; subtype = pos 0 } ∷ [];
  to_abs = (1 ∷ 2 ∷ []) ∷ [];
  port_names = lxc_port_empty_name ∷ label "I1" ∷ label "I2" ∷ [];
  to_abs_size = 2 ∷ [];
}

manager-Aligned : Aligned manager
manager-Aligned = record { signals = ((cc), tt); types = refl; groups = refl; room = room }
  where
    room :
        (i n : ℕ) (g : List ℕ)
        → get_elem? (2 ∷ []) i ≡ some n
        → get_elem? ((1 ∷ 2 ∷ []) ∷ []) i ≡ some g
        → n ≤ length g
    room zero n g h h' = ground (arith, h, h')
    room (suc i) n g h h' = absurd (cc)

ensure_lem_example : EnsuredBy (ensure_type 7 manager 8 (pos 1)) manager 8 (pos 1)
ensure_lem_example = ensure_lem 7 manager 8 (pos 1) (cc) manager-Aligned

add-port_example :
    (out : AddedPort) × (lxc_port_unchecked_add_new_port 7 manager "I3" 8 (pos 1) ≡ some out)
    × Added manager out "I3" 8 (pos 1) 0
    × (out.returned ≡ 0)
unfolding empty_slot
add-port_example = add-port 7 manager "I3" 8 (pos 1) (cc) manager-Aligned

I1_at : lxc_port_get_absindex manager 9 (pos 0) 0 ≡ some (pos 1)
unfolding lxc_port_get_absindex
I1_at = refl

I2_at : lxc_port_get_absindex manager 9 (pos 0) 1 ≡ some (pos 2)
unfolding lxc_port_get_absindex
I2_at = refl

wiring-get_wire_example :
    (arr' : List Ptr) × (lxc_port_wiring manager 9 (pos 0) 0 (null ∷ null ∷ 6 ∷ []) 5
      ≡ some (pos 0, arr'))
    × (lxc_port_get_wire manager 9 (pos 0) 0 arr' ≡ some 5)
    × (lxc_port_get_wire_safe manager 9 (pos 0) 0 arr' 3 ≡ some 5)
    × (lxc_port_get_wire manager 9 (pos 0) 1 arr'
        ≡ lxc_port_get_wire manager 9 (pos 0) 1 (null ∷ null ∷ 6 ∷ []))
wiring-get_wire_example =
    wiring-get_wire manager 9 9 (pos 0) (pos 0) 0 1 1 2 (null ∷ null ∷ 6 ∷ []) 5 I1_at I2_at (cc)
      (omega arith)

get_wire_safe-total_example :
    (w : Ptr) × (lxc_port_get_wire_safe manager 9 (pos 0) 1 (null ∷ null ∷ []) 2 ≡ some w)
get_wire_safe-total_example =
    get_wire_safe-total manager 9 (pos 0) 1 (pos 2) (null ∷ null ∷ []) 2 I2_at (omega arith)

no_port_called_X : lxc_port_check_portname_in_use manager "X" ≡ false
unfolding lxc_port_check_portname_in_use
no_port_called_X = refl

other_reads :
    (lxc_generic_get_port_label manager 9 (pos 0) 1 ≡ some (some (label "I2")))
    × (lxc_port_fill_types manager 0 ≡ (negsuc 0, []))
    × (lxc_port_is_any_wire_connected manager (some (null ∷ null ∷ 6 ∷ [])) 2 ≡ some false)
    × (lxc_port_get_absindex_by_name manager "I2" ≡ some (pos 2))
    × (lxc_port_get_type_and_index_by_absindex manager 2
        ≡ some (record { signal = 9; managed_type_index = pos 0; index = pos 1 }))
    × (lxc_port_count manager ≡ 3)
    × (lxc_generic_get_type_max_index manager 9 (pos 0) ≡ some (pos 2))
unfolding lxc_generic_get_port_label lxc_port_fill_types lxc_port_is_any_wire_connected
    lxc_port_get_absindex_by_name lxc_port_get_type_and_index_by_absindex lxc_port_count
    lxc_generic_get_type_max_index lxc_port_get_absindex
other_reads = (refl, refl, refl, refl, refl, refl, refl)

factory_has_no_port : lxc_port_count lxc_port_init_port_manager_factory ≡ 0
unfolding lxc_port_count lxc_port_init_port_manager_factory
factory_has_no_port = refl
