-- ===== src/BoolGates/Wiring.antt =====
-- The boolean gates of arithmetic/lxc_bool_gates.c as gates that core/facet.c wires.
use logxcontroll_v.Base.{
  ℕ, ◌<◌, ◌≡◌, ◌≢◌, refl, sym, ◌∙◌, inl, inr, some, false, List, [], ◌∷◌, arith, length, length-set,
  set, get_elem?, get_elem?-set_self, get_elem?-set_ne, write-eq-set, ℤ, pos, Ptr, null, eqb_refl,
  ne→eqb,
}
use logxcontroll_v.Arrays.Tracked.{IsAllocated}
use logxcontroll_v.Arrays.Nt.Append.{append-items}
use logxcontroll_v.Ports.{FullSignalType}
use logxcontroll_v.Wires.{
  with_wire, with_token, with_state, World, PortAccess, Message, check_types, out_of_range,
  is_supported,
}
use logxcontroll_v.Wires.Wiring.{
  lxc_wire_gate_output, private_generic_wiring, with_signal, passed, tie, on_success,
  on_successfull_output_wiring,
}
use logxcontroll_v.Wires.Laws.{IsOther, PortLaws}
use logxcontroll_v.BoolGates.{
  BoolInstance, logx_bool_get_supported_types, return_20, return_1, logx_bool_get_input_wire,
  logx_bool_get_output_wire, logx_bool_wire_input, logx_bool_wire_output,
}

abbrev typed : List Ptr → List ℤ → List FullSignalType
typed [] subs = []
typed (t ∷ ts) [] = []
typed (t ∷ ts) (u ∷ us) = record { signal = t; subtype = u } ∷ typed ts us

abbrev types_of : ℤ × List Ptr × List ℤ → ℤ × List FullSignalType
types_of (z, arr, subs) = (z, typed arr subs)

-- The functions of `commons` for the inputs and for the outputs.
abbrev pub bool_inputs : Ptr → PortAccess BoolInstance
bool_inputs b = record {
  get_types = λ s. types_of (logx_bool_get_supported_types b 20);
  get_max_index = λ s type subtype. some (return_20 b type subtype);
  get_wire = logx_bool_get_input_wire b;
  wire_function = logx_bool_wire_input;
}

abbrev pub bool_outputs : Ptr → PortAccess BoolInstance
bool_outputs b = record {
  get_types = λ s. types_of (logx_bool_get_supported_types b 20);
  get_max_index = λ s type subtype. some (return_1 b type subtype);
  get_wire = logx_bool_get_output_wire b;
  wire_function = logx_bool_wire_output;
}

-- An input of a gate that has its 21 cells.
abbrev pub IsInput : Ptr → BoolInstance → Ptr → ℤ → ℕ → Type 0
IsInput b s type subtype index =
    (type ≡ b) × (subtype ≡ pos 0) × (index < 21) × (length s.inputs ≡ 21)

module _ (b : Ptr) (set_b : b ≢ null) where
  input_supported :
      (s : BoolInstance) (type : Ptr) (subtype : ℤ)
      → type ≡ b
      → subtype ≡ pos 0
      → check_types ((bool_inputs b).get_types s) type subtype ≡ some (pos 0)
  unfolding check_types is_supported logx_bool_get_supported_types
  input_supported s type subtype t u = rw (t, u) (rw (eqb_refl b) refl)

  input_in_range :
      (type : Ptr) (subtype : ℤ) (index : ℕ)
      → type ≡ b
      → subtype ≡ pos 0
      → index < 21
      → out_of_range index (return_20 b type subtype) ≡ false
  unfolding return_20
  input_in_range type subtype index t u i = rw (t, u) (rw (eqb_refl b) (ground arith))

  input_read :
      (s : BoolInstance) (type : Ptr) (subtype : ℤ) (index : ℕ)
      → IsInput b s type subtype index
      → logx_bool_get_input_wire b s type subtype index ≡ get_elem? s.inputs index
  unfolding logx_bool_get_input_wire
  input_read s type subtype index (t, u, i, l) = rw (t, u) (rw (eqb_refl b) (ground arith))

  -- The cell of the input after a write to it.
  abbrev input_written : BoolInstance → ℕ → Ptr → BoolInstance
  input_written s index p = record s { inputs = set s.inputs index p }

  IsInput-written :
      (s : BoolInstance) (index : ℕ) (p type' : Ptr) (subtype' : ℤ) (index' : ℕ)
      → IsInput b s type' subtype' index'
      → IsInput b (input_written s index p) type' subtype' index'
  IsInput-written s index p type' subtype' index' (t, u, i, l) =
      (t, u, i, length-set s.inputs index p ∙ l)

  other_index :
      (type : Ptr) (subtype : ℤ) (index : ℕ) (type' : Ptr) (subtype' : ℤ) (index' : ℕ)
      → type ≡ b
      → subtype ≡ pos 0
      → type' ≡ b
      → subtype' ≡ pos 0
      → IsOther type subtype index type' subtype' index'
      → index ≢ index'
  other_index type subtype index type' subtype' index' t u t' u' (inl n) = absurd (n (t' ∙ sym t))
  other_index type subtype index type' subtype' index' t u t' u' (inr (inl n)) =
      absurd (n (u' ∙ sym u))
  other_index type subtype index type' subtype' index' t u t' u' (inr (inr n)) = λ e. n (sym e)

  IsInput-tied :
      (s : BoolInstance) (type : Ptr) (subtype : ℤ) (index : ℕ) (p : Ptr)
      → IsInput b s type subtype index
      → (s' : BoolInstance) × (logx_bool_wire_input s type subtype index p ≡ some (pos 0, s'))
        × (logx_bool_get_input_wire b s' type subtype index ≡ some p)
        × ((type' : Ptr) (subtype' : ℤ) (index' : ℕ)
            → IsInput b s type' subtype' index'
            → IsInput b s' type' subtype' index')
        × ((type' : Ptr) (subtype' : ℤ) (index' : ℕ)
            → IsInput b s type' subtype' index'
            → IsOther type subtype index type' subtype' index'
            → logx_bool_get_input_wire b s' type' subtype' index'
              ≡ logx_bool_get_input_wire b s type' subtype' index')
  unfolding logx_bool_wire_input
  IsInput-tied s type subtype index p (t, u, i, l) =
      let kept = IsInput-written s index p in
      (
        input_written s index p,
        rw (write-eq-set s.inputs index p (omega arith)) refl,
        input_read (input_written s index p) type subtype index
              (kept type subtype index (t, u, i, l))
            ∙ get_elem?-set_self s.inputs index p (omega arith),
        kept,
        λ type' subtype' index' (t', u', i', l') o.
            input_read (input_written s index p) type' subtype' index'
              (kept type' subtype' index' (t', u', i', l'))
            ∙ get_elem?-set_ne s.inputs index index' p
                (other_index type subtype index type' subtype' index' t u t' u' o)
            ∙ sym (input_read s type' subtype' index' (t', u', i', l')),
      )

  -- The boolean gates keep the laws of the wiring at their inputs.
  pub bool_inputs-PortLaws : PortLaws (bool_inputs b) (IsInput b)
  bool_inputs-PortLaws = record {
    is_set = λ s type subtype index (t, u, i, l) e. set_b (sym t ∙ e);
    supported = λ s type subtype index (t, u, i, l). input_supported s type subtype t u;
    in_range = λ s type subtype index (t, u, i, l).
        (return_20 b type subtype, refl, input_in_range type subtype index t u i);
    tied = IsInput-tied;
  }

-- Tying a wire to the output 1 of a gate that is not enabled, whose only output is tied to another
-- wire, succeeds: the gate's output is then the new wire, and the drivers of the old one are still what
-- they were.
pub output_one-overwrites :
    (execute : Ptr → Message → World BoolInstance → World BoolInstance) (junk fresh b wire g : Ptr)
    (w : World BoolInstance)
    → b ≢ null
    → wire ≢ null
    → fresh ≢ null
    → (w.wire wire).type ≡ b
    → (w.state g).output ≢ wire
    → w.enabled g ≡ false
    → IsAllocated (w.wire wire).drivers
    → (w' : World BoolInstance) × (lxc_wire_gate_output execute junk fresh
          (bool_outputs b)
          b
          (pos 0)
          wire
          g
          1
          w
        ≡ some (pos 0, w'))
      × ((w'.state g).output ≡ wire)
      × ((w'.wire (w.state g).output).drivers ≡ (w.wire (w.state g).output).drivers)
unfolding lxc_wire_gate_output private_generic_wiring with_signal passed tie on_success
    on_successfull_output_wiring check_types is_supported logx_bool_get_supported_types return_1
    logx_bool_get_output_wire logx_bool_wire_output
output_one-overwrites execute junk fresh b wire g w set_b set_w new of_type other off fit =
    let more = append-items junk (w.wire wire).drivers fresh new fit in
    (
      with_wire
          (with_token (with_state w g (record (w.state g) { output = wire })) fresh
            (record { owner = wire; wire_index = pos junk; gate = g; index = 1 }))
          wire (record (w.wire wire) { drivers = more.0 }),
      rw (ne→eqb b null set_b, ne→eqb wire null set_w, of_type)
          (rw (eqb_refl b) (rw (more.1) (rw off refl))),
      rw (eqb_refl g) refl,
      rw (ne→eqb wire (w.state g).output (λ e. other (sym e))) refl,
    )
