-- ===== src/Rerun/Race.antt =====
-- A thread without the lock of a pool: a notification that is sent late wakes an idle executor.
use logxcontroll_v.Base.{ℕ, ◌≡◌, refl, pos, Ptr, null, [], ◌∷◌, arith}
use logxcontroll_v.Rerun.{
  Rrt, rrt_idle, rrt_busy, no_run, job, blocked, at_callback, in_call, checked, crashed, rrt_init,
  rrt_start, rrt_try_rerun_if_free, notify_job, executor_step,
}
use logxcontroll_v.Rerun.Steps.{start, rerun, notify, execute, Reach, here, next, Free, Never}

-- The thread after the job, asleep, with the notification still to come.
abbrev asleep : ℕ → Ptr → Rrt
asleep f p = record {
  status = rrt_idle;
  run = no_run;
  parameter = null;
  place = blocked;
  signals = 1;
  accepted = (job f, p) ∷ [];
  called = (job f, p) ∷ [];
}

asleep_reached : (f : ℕ) (p : Ptr) → Reach Free Never (asleep f p)
unfolding rrt_init rrt_start rrt_try_rerun_if_free executor_step
asleep_reached f p = next called (execute tt refl)
  where
    accepted : Reach Free Never (rrt_try_rerun_if_free (rrt_start rrt_init (pos 0)).1 f p).1
    accepted = next (next here (start rrt_init (pos 0))) (rerun (rrt_start rrt_init (pos 0)).1 f p)

    in_task :
        Reach Free Never
          (record (asleep f p) { status = rrt_busy; run = job f; parameter = p; place = in_call })
    in_task = next (next accepted (execute tt refl)) (execute tt refl)

    done : Reach Free Never (record (asleep f p) { place = at_callback })
    done = next (next in_task (execute tt refl)) (execute tt refl)

    called : Reach Free Never (record (asleep f p) { place = checked })
    called = next (next done (execute tt refl)) (execute tt refl)

-- For every job: there is an interleaving without any shutdown, in which no wait returns without a notification and in which the executor calls a NULL
-- function. The job is accepted, runs to its end and leaves the thread idle and asleep before the
-- accepting thread sends its notification, and the executor reads the job without a check.
pub late_notify_crashes : (f : ℕ) (p : Ptr) → (r : Rrt) × Reach Free Never r × (r.place ≡ crashed)
unfolding notify_job executor_step
late_notify_crashes f p = (
  record (asleep f p) { place = crashed; signals = 0 },
  next (next (asleep_reached f p) (notify (asleep f p) (omega arith) (cc))) (execute tt refl),
  refl,
)
