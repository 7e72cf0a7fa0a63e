-- ===== src/BoolGates/Logic.antt =====
-- What the boolean gates of arithmetic/lxc_bool_gates.c compute, and what their execution drives.
use logxcontroll_v.Base.{
  ℕ, zero, suc, Option, none, some, Bool, true, false, List, [], ◌∷◌, ◌++◌, ◌==◌, not,
  if◌then◌else◌, length, Ptr, null, ◌>>=◌,
}
use Prim.Native.String.{String}
use logxcontroll_v.Values.{Operations}
use logxcontroll_v.Wires.{World, Message}
use logxcontroll_v.Wires.Drive.{
  Phase, lxc_get_token_value, lxc_wire_token_available, lxc_drive_wire_value,
}
use logxcontroll_v.BoolGates.{BoolInstance}

-- `bool_of` is the bool that a value holds.
module _ {G : Type 0} (bool_of : Ptr → Bool) (w : World G) where
  -- The first loop of is_all_input_valid_and_copy, over the cells from an index on, and the rounds that
  -- are left.
  unfoldable pub available_loop : ℕ → List Ptr → Option Bool
  unfolding lxc_wire_token_available
  available_loop zero inputs = some true
  available_loop (suc rounds) [] = none
  available_loop (suc rounds) (tp ∷ inputs) =
      let rest = available_loop rounds inputs in
      if tp == null then rest else if not (lxc_wire_token_available w tp) then some false else rest

  -- The second loop: the values so far, or `none` for the result false.
  unfoldable pub copy_loop : ℕ → List Ptr → List Bool → Option (Option (List Bool))
  unfolding lxc_get_token_value
  copy_loop zero inputs values = some (some values)
  copy_loop (suc rounds) [] values = none
  copy_loop (suc rounds) (tp ∷ inputs) values =
      if tp == null
      then copy_loop rounds inputs values
      else if lxc_get_token_value w tp == null
      then some none
      else copy_loop rounds inputs (values ++ bool_of (lxc_get_token_value w tp) ∷ [])

  -- The first loop starts at the index 1. To absorb and to release a token does nothing: it is
  -- wire_direct_propagate_noop_tp.
  unfoldable pub is_all_input_valid_and_copy : List Ptr → Option (Option (List Bool))
  unfolding available_loop copy_loop
  is_all_input_valid_and_copy [] = none
  is_all_input_valid_and_copy (tp ∷ inputs) =
      available_loop 20 inputs >>= λ b. if b then copy_loop 21 (tp ∷ inputs) [] else some none

unfoldable pub nand_loop : List Bool → Bool
nand_loop [] = false
nand_loop (v ∷ vs) = let rest = nand_loop vs in if not v then true else rest

unfoldable pub nor_loop : List Bool → Bool
nor_loop [] = true
nor_loop (v ∷ vs) = let rest = nor_loop vs in if v then false else rest

unfoldable pub and_loop : List Bool → Bool
and_loop [] = true
and_loop (v ∷ vs) = let rest = and_loop vs in if v then false else rest

unfoldable pub or_loop : List Bool → Bool
or_loop [] = false
or_loop (v ∷ vs) = let rest = or_loop vs in if v then true else rest

abbrev pub same_bool : Bool → Bool → Bool
same_bool true b = b
same_bool false b = not b

-- The loop from an index on, behind the value before it.
unfoldable pub xor_loop : Bool → List Bool → Bool
xor_loop before [] = true
xor_loop before (v ∷ vs) = let rest = xor_loop v vs in if same_bool v before then false else rest

-- The functions behind the copy of the values; `none` is NULL.
unfoldable pub logic_function_nand : List Bool → Option Bool
unfolding nand_loop
logic_function_nand values = if length values == 0 then none else some (nand_loop values)

unfoldable pub logic_function_nor : List Bool → Option Bool
unfolding nor_loop
logic_function_nor values = if length values == 0 then none else some (nor_loop values)

unfoldable pub logic_function_and : List Bool → Option Bool
unfolding and_loop
logic_function_and values = if length values == 0 then none else some (and_loop values)

unfoldable pub logic_function_or : List Bool → Option Bool
unfolding or_loop
logic_function_or values = if length values == 0 then none else some (or_loop values)

unfoldable pub logic_function_not : List Bool → Option Bool
logic_function_not [] = none
logic_function_not (v ∷ vs) = some (not v)

unfoldable pub logic_function_xor : List Bool → Option Bool
unfolding xor_loop
logic_function_xor [] = none
logic_function_xor (v ∷ []) = none
logic_function_xor (v ∷ u ∷ vs) = some (xor_loop v (u ∷ vs))

-- The behaviors that library_operation_function sets up, but the one that prints.
pub data LogicGate : Type 0 where
  logic_nand logic_nor logic_and logic_or logic_not logic_xor : LogicGate

unfoldable pub gate_name : LogicGate → String
gate_name logic_nand = "bool nand"
gate_name logic_nor = "bool nor"
gate_name logic_and = "bool and"
gate_name logic_or = "bool or"
gate_name logic_not = "bool not"
gate_name logic_xor = "bool xor"

unfoldable pub logic_function : LogicGate → List Bool → Option Bool
unfolding logic_function_nand logic_function_nor logic_function_and logic_function_or
    logic_function_not logic_function_xor
logic_function logic_nand values = logic_function_nand values
logic_function logic_nor values = logic_function_nor values
logic_function logic_and values = logic_function_and values
logic_function logic_or values = logic_function_or values
logic_function logic_not values = logic_function_not values
logic_function logic_xor values = logic_function_xor values

-- `execute`, `has_behavior` and `hook` as for lxc_drive_wire_value; `value_true` and `value_false` are
-- the values of the constants.
module _ (ops : Operations) (execute : Ptr → Message → World BoolInstance → World BoolInstance)
    (has_behavior : Ptr → Bool)
    (hook : Ptr → Phase → Ptr → Ptr → ℕ → Ptr → World BoolInstance → World BoolInstance)
    (bool_of : Ptr → Bool) (value_true value_false : Ptr) where
  abbrev pub truth_value : Bool → Ptr
  truth_value b = if b then value_true else value_false

  -- What is driven for the answer of the function.
  unfoldable pub drive_result : Ptr → Option Bool → World BoolInstance → Option (World BoolInstance)
  unfolding lxc_drive_wire_value
  drive_result g none w = some w
  drive_result g (some b) w =
      lxc_drive_wire_value ops execute has_behavior hook g 0 (w.state g).output (truth_value b) w

  unfoldable pub logx_bool_execute :
      LogicGate → Ptr → World BoolInstance → Option (World BoolInstance)
  unfolding is_all_input_valid_and_copy logic_function drive_result
  logx_bool_execute k g w = is_all_input_valid_and_copy bool_of w (w.state g).inputs >>= λ copied.
      drive_result g (copied >>= logic_function k) w
