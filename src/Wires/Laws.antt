-- ===== src/Wires/Laws.antt =====
-- What the wiring relies on in a behavior: an interface between core/facet.c and the gates.
use logxcontroll_v.Base.{ℕ, ◌≡◌, ◌≢◌, ◌⊎◌, some, false, ℤ, pos, Ptr, null}
use logxcontroll_v.Wires.{PortAccess, check_types, out_of_range}

-- Another port: of another type, subtype or index.
abbrev pub IsOther : Ptr → ℤ → ℕ → Ptr → ℤ → ℕ → Type 0
IsOther type subtype index type' subtype' index' =
    (type' ≢ type) ⊎ (subtype' ≢ subtype) ⊎ (index' ≢ index)

-- The ports of a gate, `IsPort`, are among its types and its indices; tying something to a port
-- succeeds, is what the port then reads, and leaves each other port as it was.
pub record PortLaws {G : Type 0} (ops : PortAccess G) (IsPort : G → Ptr → ℤ → ℕ → Type 0)
    : Type 0 where
  pub is_set :
      (s : G) (type : Ptr) (subtype : ℤ) (index : ℕ) → IsPort s type subtype index → type ≢ null
  pub supported :
      (s : G) (type : Ptr) (subtype : ℤ) (index : ℕ)
      → IsPort s type subtype index
      → check_types (ops.get_types s) type subtype ≡ some (pos 0)
  pub in_range :
      (s : G) (type : Ptr) (subtype : ℤ) (index : ℕ)
      → IsPort s type subtype index
      → (max : ℤ) × (ops.get_max_index s type subtype ≡ some max) × (out_of_range index max ≡ false)
  pub tied :
      (s : G) (type : Ptr) (subtype : ℤ) (index : ℕ) (p : Ptr)
      → IsPort s type subtype index
      → (s' : G) × (ops.wire_function s type subtype index p ≡ some (pos 0, s'))
        × (ops.get_wire s' type subtype index ≡ some p)
        × ((type' : Ptr) (subtype' : ℤ) (index' : ℕ)
            → IsPort s type' subtype' index'
            → IsPort s' type' subtype' index')
        × ((type' : Ptr) (subtype' : ℤ) (index' : ℕ)
            → IsPort s type' subtype' index'
            → IsOther type subtype index type' subtype' index'
            → ops.get_wire s' type' subtype' index' ≡ ops.get_wire s type' subtype' index')
