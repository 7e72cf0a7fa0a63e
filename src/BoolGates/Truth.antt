-- ===== src/BoolGates/Truth.antt =====
-- What the boolean gates of arithmetic/lxc_bool_gates.c compute, against the connectives, and what the
-- execution of a gate does to its output wire.
use logxcontroll_v.Base.{
  ℕ, suc, ◌≡◌, ◌≢◌, refl, sym, ◌∙◌, ap, none, some, Bool, true, false, List, [], ◌∷◌, arith, ◌==◌,
  ◌&&◌, ◌||◌, not, if◌then◌else◌, length, replicate, Ptr, null,
}
use logxcontroll_v.Values.{Operations}
use logxcontroll_v.Arrays.Tracked.{IsAllocated}
use logxcontroll_v.Arrays.Nt.Items.{items}
use logxcontroll_v.Wires.{World, Message}
use logxcontroll_v.Wires.Drive.{Phase, taken_value}
use logxcontroll_v.Wires.Notify.{KeepsDrivens, notify_all, drive-notify_all}
use logxcontroll_v.BoolGates.{BoolInstance}
use logxcontroll_v.BoolGates.Logic.{
  nand_loop, nor_loop, and_loop, or_loop, xor_loop, logic_function_nand, logic_function_nor,
  logic_function_and, logic_function_or, logic_function_not, logic_function_xor, LogicGate,
  logic_nand, logic_nor, logic_and, logic_or, logic_not, logic_xor, logic_function, truth_value,
  drive_result, logx_bool_execute,
}
use logxcontroll_v.BoolGates.Reads.{all_ready, bools, copy-bools}

abbrev pub all : List Bool → Bool
all [] = true
all (v ∷ vs) = v && all vs

abbrev pub any : List Bool → Bool
any [] = false
any (v ∷ vs) = v || any vs

nand_lem : (vs : List Bool) → nand_loop vs ≡ not (all vs)
unfolding nand_loop
nand_lem [] = refl
nand_lem (true ∷ vs) = nand_lem vs
nand_lem (false ∷ vs) = refl

nor_lem : (vs : List Bool) → nor_loop vs ≡ not (any vs)
unfolding nor_loop
nor_lem [] = refl
nor_lem (true ∷ vs) = refl
nor_lem (false ∷ vs) = nor_lem vs

and_lem : (vs : List Bool) → and_loop vs ≡ not (any vs)
unfolding and_loop
and_lem [] = refl
and_lem (true ∷ vs) = refl
and_lem (false ∷ vs) = and_lem vs

or_lem : (vs : List Bool) → or_loop vs ≡ any vs
unfolding or_loop
or_lem [] = refl
or_lem (true ∷ vs) = refl
or_lem (false ∷ vs) = or_lem vs

-- For the values `v ∷ vs` of the wired inputs: the gate nand gives false exactly where all are true, nor
-- true exactly where none is, or true exactly where one is, not the contrary of the first, and xor,
-- with two inputs, true exactly where they differ.
pub logic_function-connectives :
    (v : Bool) (vs : List Bool)
    → (logic_function logic_nand (v ∷ vs) ≡ some (not (all (v ∷ vs))))
      × (logic_function logic_nor (v ∷ vs) ≡ some (not (any (v ∷ vs))))
      × (logic_function logic_or (v ∷ vs) ≡ some (any (v ∷ vs)))
      × (logic_function logic_not (v ∷ vs) ≡ some (not v))
      × ((u : Bool) → logic_function logic_xor (v ∷ u ∷ []) ≡ some (if v then not u else u))
unfolding logic_function logic_function_nand logic_function_nor logic_function_or logic_function_not
    logic_function_xor xor_loop
logic_function-connectives v vs = (
  counted (nand_loop (v ∷ vs)) ∙ ap some (nand_lem (v ∷ vs)),
  counted (nor_loop (v ∷ vs)) ∙ ap some (nor_lem (v ∷ vs)),
  counted (or_loop (v ∷ vs)) ∙ ap some (or_lem (v ∷ vs)),
  refl,
  λ u. differ v u,
)
  where
    counted : (b : Bool) → (if suc (length vs) == 0 then none else some b) ≡ some b
    counted b = ground arith

    differ : (a b : Bool) → logic_function logic_xor (a ∷ b ∷ []) ≡ some (if a then not b else b)
    differ true true = refl
    differ true false = refl
    differ false true = refl
    differ false false = refl

-- The gate "bool and" answers for any values what the gate "bool nor" answers, and for one or more
-- inputs that are all true it answers false.
pub and_gate-nor :
    (vs : List Bool) (n : ℕ)
    → (logic_function logic_and vs ≡ logic_function logic_nor vs)
      × (logic_function logic_and (replicate (suc n) true) ≡ some false)
unfolding logic_function logic_function_and logic_function_nor and_loop
and_gate-nor vs n = (
  ap (λ b. if length vs == 0 then none else some b) (and_lem vs ∙ sym (nor_lem vs)),
  ground arith,
)

module _ (ops : Operations) (execute : Ptr → Message → World BoolInstance → World BoolInstance)
    (has_behavior : Ptr → Bool)
    (hook : Ptr → Phase → Ptr → Ptr → ℕ → Ptr → World BoolInstance → World BoolInstance)
    (bool_of : Ptr → Bool) (value_true value_false : Ptr) (keeps : KeepsDrivens execute)
    (nonnull : (b : Bool)
      → truth_value ops execute has_behavior hook bool_of value_true value_false b ≢ null) where
  abbrev driven : Ptr → Bool → World BoolInstance → World BoolInstance
  driven o b w =
      taken_value ops execute has_behavior hook o
        (truth_value ops execute has_behavior hook bool_of value_true value_false b) w

  -- Executing a gate with 21 inputs one of which is wired to a wire without a value changes nothing.
  pub execute-waits :
      (k : LogicGate) (g : Ptr) (w : World BoolInstance)
      → length (w.state g).inputs ≡ 21
      → all_ready w (w.state g).inputs ≡ false
      → logx_bool_execute ops execute has_behavior hook bool_of value_true value_false k g w
        ≡ some w
  unfolding logx_bool_execute drive_result
  execute-waits k g w full r = rw (copy-bools bool_of w (w.state g).inputs full) (rw r refl)

  -- Executing a gate with 21 inputs, where each wired one has a value and the function of the gate
  -- answers `b` for their bools, and where the output wire has no hooks and its drivens are allocated and
  -- the execution of gates leaves the drivens, succeeds: the output wire holds the constant of `b`,
  -- and then the enabled gates of its tokenports are executed with that constant in their order.
  pub execute-drives :
      (k : LogicGate) (g : Ptr) (b : Bool) (w : World BoolInstance)
      → length (w.state g).inputs ≡ 21
      → all_ready w (w.state g).inputs ≡ true
      → logic_function k (bools w bool_of (w.state g).inputs) ≡ some b
      → (w.state g).output ≢ null
      → (w.wire (w.state g).output).wire_debug_hooks ≡ none
      → IsAllocated (w.wire (w.state g).output).drivens
      → (logx_bool_execute ops execute has_behavior hook bool_of value_true value_false k g w
          ≡ some (
              notify_all execute has_behavior
                (w.state g).output
                (w.wire (w.state g).output).type
                (truth_value ops execute has_behavior hook bool_of value_true value_false b)
                (items (w.wire (w.state g).output).drivens)
                (driven (w.state g).output b w)))
        × (((driven (w.state g).output b w).wire (w.state g).output).current_value
            ≡ truth_value ops execute has_behavior hook bool_of value_true value_false b)
  unfolding logx_bool_execute drive_result
  execute-drives k g b w full r f set hooks fit =
      let drives =
        drive-notify_all ops execute has_behavior hook keeps g 0 (w.state g).output
          (truth_value ops execute has_behavior hook bool_of value_true value_false b) w set
          (nonnull b) hooks fit in
      (rw (copy-bools bool_of w (w.state g).inputs full) (rw r (rw f (drives.0))), drives.1)
