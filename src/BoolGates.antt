-- ===== src/BoolGates.antt =====
-- The boolean gates of arithmetic/lxc_bool_gates.c: their ports. The address of the signal type "bool" is
-- a parameter. `none` is an access outside of an array; NULL is `null`, or `none` inside for a string.
pub mod Logic
pub mod Reads
pub mod Truth
pub mod Wiring
pub mod Outputs
use logxcontroll_v.Base.{
  ℕ, Option, none, some, Bool, List, [], ◌∷◌, ◌==◌, ltb, ◌||◌, not, if◌then◌else◌, get_elem?,
  replicate, write, ℤ, pos, negsuc, minus_one, eq_ℤ, Ptr, null, ◌>>=◌,
}
use Prim.Native.String.{String}
use logxcontroll_v.Ports.{FullSignalType}

-- struct lxc_bool_instance, behind its base
pub record BoolInstance : Type 0 where
  pub inputs : List Ptr
  pub output : Ptr

-- logx_bool_create: memory of zeros
unfoldable pub logx_bool_create : BoolInstance
logx_bool_create = record { inputs = replicate 21 null; output = null }

abbrev pub input_names : List String
input_names =
    "I0" ∷ "I1" ∷ "I2" ∷ "I3" ∷ "I4" ∷ "I5" ∷ "I6" ∷ "I7" ∷ "I8" ∷ "I9" ∷ "I1" ∷ "I10" ∷ "I11"
    ∷ "I12" ∷ "I13" ∷ "I14" ∷ "I15" ∷ "I16" ∷ "I17" ∷ "I18" ∷ "I19" ∷ "I20" ∷ []

abbrev pub output_names : List String
output_names =
    "Q0" ∷ "Q1" ∷ "Q2" ∷ "Q3" ∷ "Q4" ∷ "Q5" ∷ "Q6" ∷ "Q7" ∷ "Q8" ∷ "Q9" ∷ "Q1" ∷ "Q10" ∷ "Q11"
    ∷ "Q12" ∷ "Q13" ∷ "Q14" ∷ "Q15" ∷ "Q16" ∷ "Q17" ∷ "Q18" ∷ "Q19" ∷ "Q20" ∷ []

module _ (lxc_signal_bool : Ptr) where
  -- The result, and the cells of `arr` and `subtype` that are written, for an `arr` that is not NULL.
  unfoldable pub logx_bool_get_supported_types : ℕ → ℤ × List Ptr × List ℤ
  logx_bool_get_supported_types max_length = if ltb max_length 1 then (minus_one, [], []) else (
    pos 1,
    if ltb 1 max_length then lxc_signal_bool ∷ null ∷ [] else lxc_signal_bool ∷ [],
    pos 0 ∷ [],
  )

  -- `&lxc_signal_bool != signal || index > 20 || 0 != subtype`
  abbrev pub is_no_port : Ptr → ℤ → ℕ → Bool
  is_no_port signal subtype index =
      not (lxc_signal_bool == signal) || ltb 20 index || not (eq_ℤ (pos 0) subtype)

  unfoldable pub logx_bool_get_input_label : Ptr → ℤ → ℕ → Option (Option String)
  logx_bool_get_input_label signal subtype index =
      if is_no_port signal subtype index
      then some none
      else (get_elem? input_names index >>= λ s. some (some s))

  unfoldable pub logx_bool_get_output_label : Ptr → ℤ → ℕ → Option (Option String)
  logx_bool_get_output_label signal subtype index =
      if is_no_port signal subtype index
      then some none
      else (get_elem? output_names index >>= λ s. some (some s))

  unfoldable pub return_20 : Ptr → ℤ → ℤ
  return_20 s subtype =
      if not (lxc_signal_bool == s) || not (eq_ℤ (pos 0) subtype) then minus_one else pos 20

  unfoldable pub return_1 : Ptr → ℤ → ℤ
  return_1 s subtype =
      if not (lxc_signal_bool == s) || not (eq_ℤ (pos 0) subtype) then minus_one else pos 1

  unfoldable pub logx_bool_get_input_wire : BoolInstance → Ptr → ℤ → ℕ → Option Ptr
  logx_bool_get_input_wire s signal subtype index =
      if is_no_port signal subtype index then some null else get_elem? s.inputs index

  unfoldable pub logx_bool_get_output_wire : BoolInstance → Ptr → ℤ → ℕ → Option Ptr
  logx_bool_get_output_wire s signal subtype index =
      if not (lxc_signal_bool == signal) || not (0 == index) then some null else some s.output

unfoldable pub logx_bool_wire_input : BoolInstance → Ptr → ℤ → ℕ → Ptr → Option (ℤ × BoolInstance)
logx_bool_wire_input s signal subtype index wire =
    write s.inputs index wire >>= λ inputs. some (pos 0, record s { inputs = inputs })

unfoldable pub logx_bool_wire_output : BoolInstance → Ptr → ℤ → ℕ → Ptr → Option (ℤ × BoolInstance)
logx_bool_wire_output s signal subtype index wire = some (pos 0, record s { output = wire })
