-- ===== src/BoolGates/Outputs.antt =====
-- The output of the boolean gates of arithmetic/lxc_bool_gates.c, and what they answer for their ports.
use logxcontroll_v.Base.{
  ℕ, ◌≡◌, ◌≢◌, refl, sym, ◌∙◌, inl, inr, Option, none, some, false, ℤ, pos, Ptr, null, eqb_refl,
}
use Prim.Native.String.{String}
use logxcontroll_v.Wires.{check_types, out_of_range, is_supported}
use logxcontroll_v.Wires.Laws.{IsOther, PortLaws}
use logxcontroll_v.Wires.Queries.{PortQueries}
use logxcontroll_v.BoolGates.{
  BoolInstance, logx_bool_get_supported_types, return_20, return_1, logx_bool_get_output_wire,
  logx_bool_wire_output, logx_bool_get_input_label, logx_bool_get_output_label,
}
use logxcontroll_v.BoolGates.Wiring.{bool_inputs, bool_outputs}

-- The labels are read inside of the arrays of names.
abbrev read_label : Option (Option String) → Option String
read_label none = none
read_label (some l) = l

abbrev pub input_queries : Ptr → PortQueries BoolInstance
input_queries b = record {
  get_types = some (bool_inputs b).get_types;
  get_max_index = some (λ s type subtype. return_20 b type subtype);
  get_label =
      some (λ s type subtype index. read_label (logx_bool_get_input_label b type subtype index));
}

abbrev pub output_queries : Ptr → PortQueries BoolInstance
output_queries b = record {
  get_types = some (bool_outputs b).get_types;
  get_max_index = some (λ s type subtype. return_1 b type subtype);
  get_label =
      some (λ s type subtype index. read_label (logx_bool_get_output_label b type subtype index));
}

-- The one output of a gate.
abbrev pub IsOutput : Ptr → BoolInstance → Ptr → ℤ → ℕ → Type 0
IsOutput b s type subtype index = (type ≡ b) × (subtype ≡ pos 0) × (index ≡ 0)

module _ (b : Ptr) (set_b : b ≢ null) where
  output_supported :
      (s : BoolInstance) (type : Ptr) (subtype : ℤ)
      → type ≡ b
      → subtype ≡ pos 0
      → check_types ((bool_outputs b).get_types s) type subtype ≡ some (pos 0)
  unfolding check_types is_supported logx_bool_get_supported_types
  output_supported s type subtype t u = rw (t, u) (rw (eqb_refl b) refl)

  output_in_range :
      (type : Ptr) (subtype : ℤ) (index : ℕ)
      → type ≡ b
      → subtype ≡ pos 0
      → index ≡ 0
      → out_of_range index (return_1 b type subtype) ≡ false
  unfolding return_1
  output_in_range type subtype index t u i = rw (t, u, i) (rw (eqb_refl b) refl)

  output_read :
      (s : BoolInstance) (type : Ptr) (subtype : ℤ) (index : ℕ)
      → IsOutput b s type subtype index
      → logx_bool_get_output_wire b s type subtype index ≡ some s.output
  unfolding logx_bool_get_output_wire
  output_read s type subtype index (t, u, i) = rw (t, i) (rw (eqb_refl b) refl)

  no_other :
      (s : BoolInstance) (type : Ptr) (subtype : ℤ) (index : ℕ) (type' : Ptr) (subtype' : ℤ)
      (index' : ℕ)
      → IsOutput b s type subtype index
      → IsOutput b s type' subtype' index'
      → IsOther type subtype index type' subtype' index'
      → ⊥
  no_other s type subtype index type' subtype' index' (t, u, i) (t', u', i') (inl n) =
      n (t' ∙ sym t)
  no_other s type subtype index type' subtype' index' (t, u, i) (t', u', i') (inr (inl n)) =
      n (u' ∙ sym u)
  no_other s type subtype index type' subtype' index' (t, u, i) (t', u', i') (inr (inr n)) =
      n (i' ∙ sym i)

  -- The boolean gates keep the laws of the wiring at their output 0.
  pub bool_outputs-PortLaws : PortLaws (bool_outputs b) (IsOutput b)
  unfolding logx_bool_wire_output
  bool_outputs-PortLaws = record {
    is_set = λ s type subtype index (t, u, i) e. set_b (sym t ∙ e);
    supported = λ s type subtype index (t, u, i). output_supported s type subtype t u;
    in_range = λ s type subtype index (t, u, i).
        (return_1 b type subtype, refl, output_in_range type subtype index t u i);
    tied = λ s type subtype index p port. (
      record s { output = p },
      refl,
      output_read (record s { output = p }) type subtype index port,
      λ type' subtype' index' port'. port',
      λ type' subtype' index' port' o.
          absurd (no_other s type subtype index type' subtype' index' port port' o),
    );
  }
