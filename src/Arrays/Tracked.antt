-- ===== src/Arrays/Tracked.antt =====
-- A `void**` together with the `unsigned int` that counts its cells, as the `array_nt_*` and the
-- `array_fix_*` functions of core/utils/utils.c take them.
use logxcontroll_v.Base.{ℕ, ◌≡◌, Option, none, some, List, length, Ptr}

pub record TrackedArray : Type 0 where
  pub cells : Option (List Ptr)
  pub length : ℕ

abbrev pub CellsFit : Option (List Ptr) → ℕ → Type 0
CellsFit none n = n ≡ 0
CellsFit (some a) n = length a ≡ n

-- The tracked length is the number of the cells that are allocated.
abbrev pub IsAllocated : TrackedArray → Type 0
IsAllocated r = CellsFit r.cells r.length
