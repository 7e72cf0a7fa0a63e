-- ===== src/Wires/Drive.antt =====
-- A gate writes a value to a wire: wire_direct_propagate_wire_new_value, the reads of a tokenport, the
-- hooks of a wire and lxc_drive_wire_value of core/facet.c.
use logxcontroll_v.Base.{
  ℕ, zero, suc, Option, none, some, Bool, true, false, List, [], ◌∷◌, ◌==◌, ◌&&◌, ◌||◌, not,
  if◌then◌else◌, length, get_elem?, Ptr, null, ◌>>=◌,
}
use logxcontroll_v.Values.{Operations, lxc_import_new_value}
use logxcontroll_v.Arrays.Tracked.{TrackedArray}
use logxcontroll_v.Wires.{Wire, World, Message, of_value, with_wire}

-- enum lxc_wire_operation_phase
pub data Phase : Type 0 where
  lxc_before_wire_driven lxc_before_gate_notified lxc_after_gate_notified lxc_after_wire_driven :
      Phase

-- The cells of an array that a function has read the address of: with another number of cells it was
-- given to `realloc`, and the address may be of freed memory.
abbrev pub cells_of : TrackedArray → ℕ → Option (List Ptr)
cells_of r len = r.cells >>= λ a. if length a == len then some a else none

abbrev pub same_cells : Option (List Ptr) → List Ptr → Bool
same_cells none ys = false
same_cells (some []) [] = true
same_cells (some []) (y ∷ ys) = false
same_cells (some (x ∷ xs)) [] = false
same_cells (some (x ∷ xs)) (y ∷ ys) = x == y && same_cells (some xs) ys

-- `ops` are the operations of the values, `execute` is what `execution_behavior` does, for the gates
-- where it is not NULL (`has_behavior`), and `hook` what the hook of an entry does.
module _ {G : Type 0} (ops : Operations) (execute : Ptr → Message → World G → World G)
    (has_behavior : Ptr → Bool) (hook : Ptr → Phase → Ptr → Ptr → ℕ → Ptr → World G → World G) where
  -- The calls for the entries from some index on, of an array whose cells are `all`.
  unfoldable pub raise_loop :
      List Ptr → List Ptr → Phase → Ptr → Ptr → ℕ → Ptr → World G → Option (World G)
  raise_loop all [] phase this_wire gate index value w = none
  raise_loop all (e ∷ entries) phase this_wire gate index value w =
      if not (same_cells (w.wire this_wire).wire_debug_hooks all)
      then none
      else if e == null
      then some w
      else raise_loop all entries phase this_wire gate index value
          (hook e phase this_wire gate index value w)

  unfoldable pub raise_wire_hook_calls : Phase → Ptr → Ptr → ℕ → Ptr → World G → Option (World G)
  unfolding raise_loop
  raise_wire_hook_calls phase this_wire gate index value w =
      elim (w.wire this_wire).wire_debug_hooks [
        | none ↦ some w
        | some a ↦ raise_loop a a phase this_wire gate index value w
      ]

  -- `if(NULL != wire_debug_hooks)`, for the value that the function read at its start
  abbrev pub hooked : Bool → Phase → Ptr → Ptr → ℕ → Ptr → World G → Option (World G)
  hooked on phase this_wire gate index value w =
      if on then raise_wire_hook_calls phase this_wire gate index value w else some w

  -- The hooks for the gate of a tokenport.
  abbrev pub hooked_at : Bool → Phase → Ptr → Ptr → Ptr → World G → Option (World G)
  hooked_at on phase wire value p w =
      hooked on phase wire (w.tokenport p).gate (w.tokenport p).index value w

  -- One driven tokenport.
  unfoldable pub notify : Bool → Ptr → Ptr → Ptr → Ptr → World G → Option (World G)
  unfolding raise_wire_hook_calls
  notify on wire signal value p w =
      (if w.enabled (w.tokenport p).gate && has_behavior (w.tokenport p).gate
        then (hooked_at on lxc_before_gate_notified wire value p w >>= λ w₁.
            hooked_at on lxc_after_gate_notified wire value p (
              execute (w₁.tokenport p).gate
                (of_value signal (w₁.wire wire).subtype value (w₁.tokenport p).index) w₁))
        else some w)
      >>= hooked_at on lxc_after_gate_notified wire value p

  -- The loop over `drivens`, from `i` on: `len` cells, with the rounds that are left. A NULL ends it.
  unfoldable pub notify_loop : ℕ → Bool → Ptr → Ptr → Ptr → ℕ → ℕ → World G → Option (World G)
  unfolding notify
  notify_loop zero on wire signal value len i w = some w
  notify_loop (suc rounds) on wire signal value len i w =
      cells_of (w.wire wire).drivens len >>= λ a. get_elem? a i >>= λ p.
      if p == null
      then some w
      else (notify on wire signal value p w >>= notify_loop rounds on wire signal value len (suc i))

  -- The wire takes the value.
  abbrev pub taken_value : Ptr → Ptr → World G → World G
  taken_value wire value w =
      let o : Wire = w.wire wire in
      let imported = lxc_import_new_value ops w.values value o.current_value in
      record (with_wire w wire (record o { current_value = imported.1 })) { values = imported.2 }

  abbrev pub has_hooks : World G → Ptr → Bool
  has_hooks w wire = elim (w.wire wire).wire_debug_hooks [ none ↦ false | some a ↦ true ]

  unfoldable pub wire_direct_propagate_wire_new_value :
      Ptr → ℕ → Ptr → Ptr → World G → Option (World G)
  unfolding raise_wire_hook_calls notify_loop
  wire_direct_propagate_wire_new_value instance_of out_index wire value w =
      let on : Bool = has_hooks w wire in
      hooked on lxc_before_wire_driven wire instance_of out_index value w >>= λ w₁.
      let w₂ : World G = taken_value wire value w₁ in
      let o : Wire = w₂.wire wire in
      notify_loop o.drivens.length on wire o.type value o.drivens.length 0 w₂

  unfoldable pub lxc_drive_wire_value : Ptr → ℕ → Ptr → Ptr → World G → Option (World G)
  unfolding wire_direct_propagate_wire_new_value
  lxc_drive_wire_value instance_of out_index wire value w =
      if wire == null || value == null
      then some w
      else wire_direct_propagate_wire_new_value instance_of out_index wire value w

module _ {G : Type 0} (w : World G) where
  -- wire_direct_propagate_get_value, for a tokenport that is not NULL
  unfoldable pub lxc_get_token_value : Ptr → Ptr
  lxc_get_token_value tp =
      if tp == null then null else (w.wire (w.tokenport tp).owner).current_value

  unfoldable pub lxc_wire_token_available : Ptr → Bool
  lxc_wire_token_available tp =
      if tp == null then false else not ((w.wire (w.tokenport tp).owner).current_value == null)
