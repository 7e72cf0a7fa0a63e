-- ===== src/Rerun/Shutdown.antt =====
-- After a shutdown request was granted, the executor comes to its end.
use logxcontroll_v.Base.{ℕ, zero, suc, none, some, Bool, true, false, ◌&&◌, ltb, if◌then◌else◌, not}
use logxcontroll_v.Rerun.{
  RrtStatus, rrt_shutdown_requested, Place, not_started, at_wait, checked, blocked, at_fetch,
  in_call, at_finish, at_callback, at_exit, finished, crashed, Rrt, notify_job, executor_step,
}

abbrev is_checked : Place → Bool
is_checked checked = true
is_checked _ = false

-- One round of a schedule that is fair: a notification that is due is sent where the mutex is free,
-- and else the executor makes a step.
pub round : Rrt → Rrt
round r =
    if ltb 0 r.signals && not (is_checked r.place)
    then notify_job r
    else elim (executor_step r) [ none ↦ r | some s ↦ s ]

pub settle : ℕ → Rrt → Rrt
settle zero r = r
settle (suc k) r = settle k (round r)

abbrev rank : Place → ℕ
rank at_callback = 7
rank at_wait = 6
rank checked = 6
rank blocked = 5
rank at_fetch = 4
rank in_call = 3
rank at_finish = 2
rank at_exit = 1
rank _ = 0

-- The thread was started, and a shutdown was granted.
abbrev pub stopping : Place → RrtStatus → Bool
stopping finished s = true
stopping not_started s = false
stopping crashed s = false
stopping p rrt_shutdown_requested = true
stopping p s = false
