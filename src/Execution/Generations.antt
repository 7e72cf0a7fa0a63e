-- ===== src/Execution/Generations.antt =====
-- The loop breaker executes its tasks generation by generation.
use logxcontroll_v.Base.{ℕ, zero, suc, Option, none, some, List, [], ◌∷◌, ◌++◌}
use logxcontroll_v.Execution.{QeTask, Gates, qe_task_execute_then_destroy}

module _ {W : Type 0} (g : Gates W) where
  -- The tasks of one generation in their order, and all that they submit.
  abbrev pub generation : List QeTask → W → W × List QeTask
  generation [] w = (w, [])
  generation (t ∷ ts) w =
      let (w₁, s) = qe_task_execute_then_destroy g t w [] in
      let (w₂, s') = generation ts w₁ in (w₂, s ++ s')

  -- So many generations at most; `none` where that does not end it.
  abbrev pub generations : ℕ → List QeTask → W → Option W
  generations n [] w = some w
  generations zero (t ∷ ts) w = none
  generations (suc n) (t ∷ ts) w = let (w', s) = generation (t ∷ ts) w in generations n s w'
