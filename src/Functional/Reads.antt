-- ===== src/Functional/Reads.antt =====
-- When the wrapped function of core/builtins/functional_wrapper.c is called.
use logxcontroll_v.Base.{
  ℕ, zero, suc, ◌≡◌, refl, ◌∙◌, ap, inl, inr, none, some, Bool, true, List, [], ◌∷◌, ◌++◌, arith,
  append_assoc, ◌==◌, ◌&&◌, not, if◌then◌else◌, length, ℤ, Ptr, null, Bool-cases,
}
use logxcontroll_v.Values.{Operations}
use logxcontroll_v.Wires.{World, Message}
use logxcontroll_v.Wires.Drive.{Phase, lxc_get_token_value}
use logxcontroll_v.PortGates.{PortbGate}
use logxcontroll_v.Functional.{read_inputs, write_outputs, written, functional_gate_execute}

module _ {G : Type 0} (w : World G) where
  abbrev pub value_at : Ptr → Ptr
  value_at tp = (w.wire (w.tokenport tp).owner).current_value

  -- Every input is wired and has a value.
  abbrev pub all_present : List Ptr → Bool
  all_present [] = true
  all_present (tp ∷ inputs) = not (tp == null) && not (value_at tp == null) && all_present inputs

  abbrev pub values_of : List Ptr → List Ptr
  values_of [] = []
  values_of (tp ∷ inputs) = value_at tp ∷ values_of inputs

append_nil : (xs : List Ptr) → xs ≡ xs ++ []
append_nil [] = refl
append_nil (x ∷ xs) = ap (λ l. x ∷ l) (append_nil xs)

read_lem :
    {G : Type 0} (w : World G) (n : ℕ) (inputs values : List Ptr)
    → length inputs ≡ n
    → read_inputs w n inputs values
      ≡ some (if all_present w inputs then some (values ++ values_of w inputs) else none)
unfolding read_inputs lxc_get_token_value
read_lem w zero [] values e = ap (λ l. some (some l)) (append_nil values)
read_lem w zero (c ∷ inputs) values e = absurd (omega arith)
read_lem w (suc n) [] values e = absurd (omega arith)
read_lem w (suc n) (c ∷ inputs) values e = elim (Bool-cases (c == null)) [
  | inl z ↦ rw z refl
  | inr z ↦ elim (Bool-cases (value_at w c == null)) [
    | inl v ↦ rw (z, v) refl
    | inr v ↦
        rw (z, v)
          (read_lem w n inputs (values ++ value_at w c ∷ []) (omega arith)
            ∙ ap (λ l. some (if all_present w inputs then some l else none))
                (append_assoc values (value_at w c ∷ []) (values_of w inputs)))
  ]
]

-- Executing a gate that has a cell for each of its inputs writes, where every input is wired and has a
-- value, the results of the function for the values in the order of the inputs to the outputs, and
-- changes nothing where an input is not wired or has no value.
pub functional_execute-values :
    (ops : Operations) (execute : Ptr → Message → World PortbGate → World PortbGate)
    (has_behavior : Ptr → Bool)
    (hook : Ptr → Phase → Ptr → Ptr → ℕ → Ptr → World PortbGate → World PortbGate)
    (type_of : Ptr → Ptr) (subtype_of : Ptr → ℤ) (function : List Ptr → List Ptr) (g : Ptr)
    (w : World PortbGate)
    → length (w.state g).inputs ≡ (w.state g).input_ports.max_size
    → functional_gate_execute ops execute has_behavior hook type_of subtype_of function g w ≡ (
        if all_present w (w.state g).inputs
        then write_outputs ops execute has_behavior hook type_of subtype_of function g
            (w.state g).output_ports.max_size
            0
            (function (values_of w (w.state g).inputs))
            w
        else some w)
unfolding functional_gate_execute written
functional_execute-values ops execute has_behavior hook type_of subtype_of function g w full =
    rw (read_lem w (w.state g).input_ports.max_size (w.state g).inputs [] full)
      (elim (Bool-cases (all_present w (w.state g).inputs)) [
        | inl a ↦ rw a refl
        | inr a ↦ rw a refl
      ])
