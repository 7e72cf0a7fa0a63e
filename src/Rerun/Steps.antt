-- ===== src/Rerun/Steps.antt =====
-- The interleavings of the executor with the requests of other threads, as a step relation.
use logxcontroll_v.Base.{ℕ, ◌<◌, ◌≡◌, ◌≢◌, some, ℤ, Ptr}
use logxcontroll_v.Rerun.{
  Rrt, rrt_init, rrt_start, rrt_try_rerun_if_free, request_shutdown, notify_job, executor_step,
  rrt_idle, checked, blocked, at_callback, wake_up,
}

-- A request that sends a notification, or asks for the shutdown, needs the mutex of the condition,
-- which the executor holds at `checked`. `Gate` says which states let the executor go on, and `Wakes`
-- in which of them its wait on the condition may return without a notification, as POSIX allows.
pub data Step (Gate : Rrt → Type 0) (Wakes : Rrt → Type 0) : Rrt → Rrt → Type 0 where
  start : (r : Rrt) (created : ℤ) → Step Gate Wakes r (rrt_start r created).1
  rerun : (r : Rrt) (f : ℕ) (p : Ptr) → Step Gate Wakes r (rrt_try_rerun_if_free r f p).1
  shutdown : (r : Rrt) → r.place ≢ checked → Step Gate Wakes r (request_shutdown r.status r).1
  notify : (r : Rrt) → 0 < r.signals → r.place ≢ checked → Step Gate Wakes r (notify_job r)
  wake : (r : Rrt) → r.place ≡ blocked → Wakes r → Step Gate Wakes r (wake_up r)
  execute : {r s : Rrt} → Gate r → executor_step r ≡ some s → Step Gate Wakes r s

pub data Reach (Gate : Rrt → Type 0) (Wakes : Rrt → Type 0) : Rrt → Type 0 where
  here : Reach Gate Wakes rrt_init
  next : {r s : Rrt} → Reach Gate Wakes r → Step Gate Wakes r s → Reach Gate Wakes s

-- The executor is never held up.
abbrev pub Free : Rrt → Type 0
Free r = Unit {0}

-- The executor of a pool: its callback takes the pool's lock, which a thread that submits a task or
-- shuts the pool down holds until its notification is sent.
abbrev pub Pooled : Rrt → Type 0
Pooled r = r.place ≡ at_callback → r.signals ≡ 0

-- The wait may return without a notification at any time.
abbrev pub Anytime : Rrt → Type 0
Anytime r = Unit {0}

-- It may do so only while the thread is not idle.
abbrev pub WhileNotIdle : Rrt → Type 0
WhileNotIdle r = r.status ≢ rrt_idle

-- It never does so.
abbrev pub Never : Rrt → Type 0
Never r = ⊥
