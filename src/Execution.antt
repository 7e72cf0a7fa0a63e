-- ===== src/Execution.antt =====
-- The loop breaker of core/lxc_execution.c: tasks that a gate submits while a task of the loop breaker
-- is executed wait in a queue. The rest of the program is a world `W`; what the execution of a gate
-- does to it, and the tasks that it submits on the way, is a parameter.
pub mod Generations
use logxcontroll_v.Base.{
  ℕ, zero, suc, Option, none, some, Bool, true, false, List, [], ◌∷◌, ◌++◌, if◌then◌else◌, Ptr,
  ◌>>=◌,
}

-- struct qe_task
pub record QeTask : Type 0 where
  pub instance_of : Ptr
  pub value : Ptr
  pub index : ℕ

-- The course of an execution: it ends, or submits a task and goes on.
pub data Course (W : Type 0) : Type 0 where
  ends : W → Course W
  submits : QeTask → W → (W → Course W) → Course W

-- Counting a reference to a value, whether a gate is enabled, and its execution.
pub record Gates (W : Type 0) : Type 0 where
  pub reference : Ptr → W → W
  pub unreference : Ptr → W → W
  pub is_enabled : Ptr → W → Bool
  pub execute : QeTask → W → Course W

module _ {W : Type 0} (g : Gates W) where
  -- The call of the loop breaker where LOOP_BREAKER is not NULL.
  abbrev pub enqueue : QeTask → W → List QeTask → W × List QeTask
  enqueue t w q = (g.reference t.value w, q ++ t ∷ [])

  unfoldable pub follow : Course W → List QeTask → W × List QeTask
  follow (ends w) q = (w, q)
  follow (submits t w go_on) q = follow (go_on (g.reference t.value w)) (q ++ t ∷ [])

  unfoldable pub lxc_do_execute : QeTask → W → List QeTask → W × List QeTask
  unfolding follow
  lxc_do_execute t w q = if g.is_enabled t.instance_of w then follow (g.execute t w) q else (w, q)

  unfoldable pub qe_task_execute_then_destroy : QeTask → W → List QeTask → W × List QeTask
  unfolding lxc_do_execute
  qe_task_execute_then_destroy t w q =
      let (w', q') = lxc_do_execute t w q in (g.unreference t.value w', q')

  -- `while(NULL != crnt)`: the first task is `crnt`, the others stand in the queue. `none` is the end of
  -- the fuel.
  unfoldable pub drain : ℕ → W → List QeTask → Option W
  unfolding qe_task_execute_then_destroy
  drain zero w [] = some w
  drain zero w (t ∷ q) = none
  drain (suc n) w [] = some w
  drain (suc n) w (t ∷ q) = let (w', q') = qe_task_execute_then_destroy t w q in drain n w' q'

  -- LOOP_BREAKER is the optional list; NULL is `none`.
  unfoldable pub lxc_execution_loopbreaker :
      ℕ → QeTask → W → Option (List QeTask) → Option (W × Option (List QeTask))
  unfolding drain
  lxc_execution_loopbreaker n t w none =
      drain n (g.reference t.value w) (t ∷ []) >>= λ w'. some (w', none)
  lxc_execution_loopbreaker n t w (some q) = let (w', q') = enqueue t w q in some (w', some q')
