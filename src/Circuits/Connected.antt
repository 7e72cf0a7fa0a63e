-- ===== src/Circuits/Connected.antt =====
-- Two ports of a circuit that lxc_circuit_wire_ports_together of core/facet.c connects by a new wire.
use logxcontroll_v.Base.{
  ℕ, ◌≡◌, ◌≢◌, refl, sym, ◌∙◌, ap, subst, Option, some, Bool, true, false, [], ◌∷◌, ◌++◌,
  if◌then◌else◌, get_elem?, ℤ, pos, negsuc, eq_ℤ, Ptr, null, ◌>>=◌, ne→eqb, eqb_refl,
}
use Prim.Native.String.{String}
use logxcontroll_v.Values.{Operations}
use logxcontroll_v.Ports.{FullSignalType, same_type}
use logxcontroll_v.Arrays.Tracked.{IsAllocated}
use logxcontroll_v.Arrays.Nt.Items.{items}
use logxcontroll_v.Wires.{World, PortAccess, Message, lxc_wire_create, with_wire}
use logxcontroll_v.Wires.Queries.{PortQueries, lxc_gate_get_portinfo_by_name}
use logxcontroll_v.Wires.Laws.{PortLaws}
use logxcontroll_v.Wires.Tie.{wire_input-InputTied}
use logxcontroll_v.Wires.TieOutput.{output_told, wire_output-OutputTied}
use logxcontroll_v.Circuits.{
  MapOps, Circuit, lxc_circuit_get_wire_by_refdes, lxc_circuit_get_gate_by_refdes, create_wire,
  lxc_wire_set_refdes, lxc_circuit_add_wire, add_named_wire, lxc_wire_destroy,
}
use logxcontroll_v.Circuits.Together.{
  named_port, connect, with_new_wire, with_wire_named, check_input, check_output,
  lxc_circuit_wire_ports_together,
}

eq_ℤ_refl : (z : ℤ) → eq_ℤ z z ≡ true
eq_ℤ_refl (pos n) = eqb_refl n
eq_ℤ_refl (negsuc n) = eqb_refl n

same_type_refl : (t : FullSignalType) → same_type t t.signal t.subtype ≡ true
same_type_refl t = rw (eqb_refl t.signal, eq_ℤ_refl t.subtype) refl

-- The wire connects the output `i` of one gate with the input `j` of another; before, its drivers and
-- its drivens were those of `w`.
pub record IsConnected {G : Type 0} (fresh_out fresh_in : Ptr) (ins outs : PortAccess G)
    (t : FullSignalType) (wire out : Ptr) (i : ℕ) (in_gate : Ptr) (j : ℕ) (w w' : World G)
    : Type 0 where
  pub output : outs.get_wire (w'.state out) t.signal t.subtype i ≡ some wire
  pub input : ins.get_wire (w'.state in_gate) t.signal t.subtype j ≡ some fresh_in
  pub drivers : items (w'.wire wire).drivers ≡ items (w.wire wire).drivers ++ fresh_out ∷ []
  pub drivens : items (w'.wire wire).drivens ≡ items (w.wire wire).drivens ++ fresh_in ∷ []
  pub owner : (w'.tokenport fresh_in).owner ≡ wire
  pub gate : (w'.tokenport fresh_in).gate ≡ in_gate
  pub index : (w'.tokenport fresh_in).index ≡ j

module _ {G M : Type 0} (ops : Operations) (execute : Ptr → Message → World G → World G)
    (junk fresh_out fresh_in address : Ptr) (maps : MapOps M) (ins outs : PortAccess G)
    (in_queries out_queries : PortQueries G) {InPort OutPort : G → Ptr → ℤ → ℕ → Type 0}
    (in_laws : PortLaws ins InPort) (out_laws : PortLaws outs OutPort) (t : FullSignalType)
    (out : Ptr) (i : ℕ) (in_gate : Ptr) (j : ℕ) where
  connect-IsConnected :
      (wire : Ptr) (circ : Circuit M) (w : World G)
      → wire ≢ null
      → fresh_out ≢ null
      → fresh_in ≢ null
      → out ≢ in_gate
      → (w.wire wire).type ≡ t.signal
      → w.enabled out ≡ false
      → OutPort (w.state out) t.signal t.subtype i
      → outs.get_wire (w.state out) t.signal t.subtype i ≡ some null
      → InPort (w.state in_gate) t.signal t.subtype j
      → ins.get_wire (w.state in_gate) t.signal t.subtype j ≡ some null
      → IsAllocated (w.wire wire).drivers
      → IsAllocated (w.wire wire).drivens
      → ((k : ℕ) → get_elem? (items (w.wire wire).drivens) k ≢ some fresh_in)
      → (w' : World G) × (connect ops execute junk fresh_out fresh_in address maps ins outs
            in_queries out_queries t wire out i in_gate j circ w
          ≡ some (pos 0, circ, w'))
        × IsConnected fresh_out fresh_in ins outs t wire out i in_gate j w w'
  unfolding connect
  connect-IsConnected wire circ w set new_out new_in two typed off port_o free_o port_i free_i fit_o
        fit_i absent =
      let o =
        wire_output-OutputTied execute junk fresh_out outs out_laws t.signal t.subtype wire out i w
          set new_out typed port_o free_o fit_o in
      let w₁ = o.0 in
      let told : output_told execute t.signal t.subtype out i w₁ ≡ w₁ =
        rw (o.2.same_enabled, off) refl in
      let kept : w₁.state in_gate ≡ w.state in_gate = o.2.same_states in_gate two in
      let n =
        wire_input-InputTied execute junk fresh_in ins in_laws t.signal t.subtype wire in_gate j w₁
          set new_in (o.2.same_type ∙ typed)
          (subst (λ s. InPort s t.signal t.subtype j) (sym kept) port_i)
          (ap (λ s. ins.get_wire s t.signal t.subtype j) kept ∙ free_i)
          (subst (λ r. IsAllocated r) (sym (o.2.drivens)) fit_i)
          (λ k e. absent k (ap (λ r. get_elem? (items r) k) (sym (o.2.drivens)) ∙ e)) in
      (
        n.0,
        rw (o.1) (rw told (rw (n.1) refl)),
        record {
          output =
              ap (λ s. outs.get_wire s t.signal t.subtype i)
                (n.2.same_states out (λ e. two (sym e)))
              ∙ o.2.reads;
          input = n.2.reads;
          drivers = ap items (n.2.drivers) ∙ o.2.drivers;
          drivens = n.2.drivens ∙ ap (λ r. items r ++ fresh_in ∷ []) (o.2.drivens);
          owner = ap (λ k. k.owner) (n.2.token);
          gate = ap (λ k. k.gate) (n.2.token);
          index = ap (λ k. k.index) (n.2.token);
        },
      )

  -- The world with the new wire.
  abbrev with_new : String → World G → World G
  with_new name w =
      with_wire (with_wire w address (lxc_wire_create t.signal)) address
        (record (lxc_wire_create t.signal) { ref_des = some name })

  abbrev filed : Circuit M → String → Circuit M
  filed circ name = record circ { wires = (maps.hashmap_put circ.wires name address).1 }

  create_wire-filed :
      (circ : Circuit M) (name : String) (w : World G)
      → address ≢ null
      → maps.hashmap_get circ.wires name ≡ null
      → (maps.hashmap_put circ.wires name address).0 ≡ true
      → create_wire maps w circ address name t.signal ≡ (false, filed circ name, with_new name w)
  unfolding create_wire lxc_wire_set_refdes lxc_circuit_add_wire add_named_wire
      lxc_circuit_get_wire_by_refdes
  create_wire-filed circ name w set missing put =
      rw (ne→eqb address null set) (rw (eqb_refl address) (rw missing (rw put refl)))

  new_wire-connect :
      (circ : Circuit M) (name : String) (w : World G)
      → address ≢ null
      → t.signal ≢ null
      → maps.hashmap_get circ.wires name ≡ null
      → (maps.hashmap_put circ.wires name address).0 ≡ true
      → with_wire_named ops execute junk fresh_out fresh_in address maps ins outs in_queries
          out_queries t name true out i in_gate j circ w
        ≡ connect ops execute junk fresh_out fresh_in address maps ins outs in_queries out_queries t
            address out i in_gate j
            (filed circ name)
            (with_new name w)
  unfolding with_wire_named with_new_wire lxc_circuit_get_wire_by_refdes
  new_wire-connect circ name w set typed missing put =
      rw missing (rw (ne→eqb t.signal null typed) refl)
      ∙ ap finish (create_wire-filed circ name w set missing put)
    where
      finish : Bool × Circuit M × World G → Option (ℤ × Circuit M × World G)
      finish r =
          if r.0
          then some (pos 1, r.1, lxc_wire_destroy ops r.2 address)
          else connect ops execute junk fresh_out fresh_in address maps ins outs in_queries
              out_queries t address out i in_gate j r.1 r.2

  named_port-found :
      (queries : PortQueries G) (w : World G) (gate : Ptr) (port : String) (i : ℕ)
      → gate ≢ null
      → lxc_gate_get_portinfo_by_name queries w.state gate port ≡ some (pos 0, some (t, i))
      → named_port queries w gate port ≡ some (pos 0, some (t, i))
  unfolding named_port
  named_port-found queries w gate port i set info = there ∙ info
    where
      there :
          named_port queries w gate port ≡ lxc_gate_get_portinfo_by_name queries w.state gate port
      there = rw (ne→eqb gate null set) refl

  check_input-with_wire :
      (circ : Circuit M) (name : String) (w : World G)
      → ins.get_wire (w.state in_gate) t.signal t.subtype j ≡ some null
      → check_input ops execute junk fresh_out fresh_in address maps ins outs in_queries out_queries
          t i out name in_gate
          (some (t, j))
          (pos 0)
          true
          circ
          w
        ≡ with_wire_named ops execute junk fresh_out fresh_in address maps ins outs in_queries
            out_queries t name true out i in_gate j circ w
  unfolding check_input
  check_input-with_wire circ name w free_i = rw (same_type_refl t) (rw free_i refl)

  check_output-with_wire :
      (circ : Circuit M) (name in_name in_port : String) (w : World G)
      → in_gate ≢ null
      → maps.hashmap_get circ.gates in_name ≡ in_gate
      → lxc_gate_get_portinfo_by_name in_queries w.state in_gate in_port ≡ some (pos 0, some (t, j))
      → outs.get_wire (w.state out) t.signal t.subtype i ≡ some null
      → ins.get_wire (w.state in_gate) t.signal t.subtype j ≡ some null
      → check_output ops execute junk fresh_out fresh_in address maps ins outs in_queries
          out_queries
          (some (t, i))
          out
          name
          in_name
          in_port
          (pos 0)
          true
          circ
          w
        ≡ with_wire_named ops execute junk fresh_out fresh_in address maps ins outs in_queries
            out_queries t name true out i in_gate j circ w
  unfolding check_output lxc_circuit_get_gate_by_refdes
  check_output-with_wire circ name in_name in_port w set_i at_i info_i free_o free_i = rw free_o (
      ap
        (λ g. named_port in_queries w g in_port >>= λ r.
          check_input ops execute junk fresh_out fresh_in address maps ins outs in_queries
            out_queries t i out name g r.1 r.0 true circ w)
        at_i
      ∙ ap
          (λ o. o >>= λ r.
            check_input ops execute junk fresh_out fresh_in address maps ins outs in_queries
              out_queries t i out name in_gate r.1 r.0 true circ w)
          (named_port-found in_queries w in_gate in_port j set_i info_i)
      ∙ check_input-with_wire circ name w free_i)

  -- The names of a call and what they stand for: two gates with a free port each, of one type, and a
  -- wire that is not there and that the map takes.
  pub record Named (circ : Circuit M) (out_name out_port name in_name in_port : String)
      (w : World G) : Type 0 where
    pub out_set : out ≢ null
    pub in_set : in_gate ≢ null
    pub out_at : maps.hashmap_get circ.gates out_name ≡ out
    pub in_at : maps.hashmap_get circ.gates in_name ≡ in_gate
    pub out_info :
        lxc_gate_get_portinfo_by_name out_queries w.state out out_port ≡ some (pos 0, some (t, i))
    pub in_info :
        lxc_gate_get_portinfo_by_name in_queries w.state in_gate in_port ≡ some (pos 0, some (t, j))
    pub out_free : outs.get_wire (w.state out) t.signal t.subtype i ≡ some null
    pub in_free : ins.get_wire (w.state in_gate) t.signal t.subtype j ≡ some null
    pub missing : maps.hashmap_get circ.wires name ≡ null
    pub put : (maps.hashmap_put circ.wires name address).0 ≡ true

  together-with_wire :
      (circ : Circuit M) (out_name out_port name in_name in_port : String) (w : World G)
      → Named circ out_name out_port name in_name in_port w
      → lxc_circuit_wire_ports_together ops execute junk fresh_out fresh_in address maps ins outs
          in_queries out_queries circ out_name out_port name in_name in_port true w
        ≡ with_wire_named ops execute junk fresh_out fresh_in address maps ins outs in_queries
            out_queries t name true out i in_gate j circ w
  unfolding lxc_circuit_wire_ports_together lxc_circuit_get_gate_by_refdes
  together-with_wire circ out_name out_port name in_name in_port w n =
      ap
        (λ g. named_port out_queries w g out_port >>= λ r.
          check_output ops execute junk fresh_out fresh_in address maps ins outs in_queries
            out_queries r.1 g name in_name in_port r.0 true circ w)
        (n.out_at)
      ∙ ap
          (λ o. o >>= λ r.
            check_output ops execute junk fresh_out fresh_in address maps ins outs in_queries
              out_queries r.1 out name in_name in_port r.0 true circ w)
          (named_port-found out_queries w out out_port i (n.out_set) (n.out_info))
      ∙ check_output-with_wire circ name in_name in_port w (n.in_set) (n.in_at) (n.in_info)
          (n.out_free) (n.in_free)

  -- Where the names of a call stand for two different gates of the circuit, with a free port each of
  -- one type, and no wire has the name and the map takes it, and the first gate is not enabled, and the
  -- addresses that are allocated are not NULL: the result is 0, the circuit has the new wire
  -- under the name, the output reads the wire, the input a tokenport of the wire that knows the gate
  -- and the index, and the wire has one driver and one driven tokenport, those of the two ports.
  pub together-IsConnected :
      (circ : Circuit M) (out_name out_port name in_name in_port : String) (w : World G)
      → Named circ out_name out_port name in_name in_port w
      → address ≢ null
      → fresh_out ≢ null
      → fresh_in ≢ null
      → out ≢ in_gate
      → w.enabled out ≡ false
      → OutPort (w.state out) t.signal t.subtype i
      → InPort (w.state in_gate) t.signal t.subtype j
      → (w' : World G) × (lxc_circuit_wire_ports_together ops execute junk fresh_out fresh_in
            address maps ins outs in_queries out_queries circ out_name out_port name in_name in_port
            true w
          ≡ some (pos 0, record circ { wires = (maps.hashmap_put circ.wires name address).1 }, w'))
        × IsConnected fresh_out fresh_in ins outs t address out i in_gate j (with_new name w) w'
        × (items (w'.wire address).drivers ≡ fresh_out ∷ [])
        × (items (w'.wire address).drivens ≡ fresh_in ∷ [])
  unfolding lxc_wire_create
  together-IsConnected circ out_name out_port name in_name in_port w n set new_o new_i two off
        port_o port_i =
      let no_drivens : items ((with_new name w).wire address).drivens ≡ [] =
        rw (eqb_refl address) refl in
      let no_drivers : items ((with_new name w).wire address).drivers ≡ [] =
        rw (eqb_refl address) refl in
      let done =
        connect-IsConnected address (filed circ name) (with_new name w) set new_o new_i two
          (rw (eqb_refl address) refl) off port_o (n.out_free) port_i (n.in_free)
          (rw (eqb_refl address) refl) (rw (eqb_refl address) refl)
          (λ k e. empty k (ap (λ l. get_elem? l k) (sym no_drivens) ∙ e)) in
      (
        done.0,
        together-with_wire circ out_name out_port name in_name in_port w n
            ∙ new_wire-connect circ name w set
                (out_laws.is_set (w.state out) t.signal t.subtype i port_o) (n.missing) (n.put)
            ∙ done.1,
        done.2,
        done.2.drivers ∙ ap (λ l. l ++ fresh_out ∷ []) no_drivers,
        done.2.drivens ∙ ap (λ l. l ++ fresh_in ∷ []) no_drivens,
      )
    where
      empty : (k : ℕ) → get_elem? [] k ≢ some fresh_in
      empty k e = cc
