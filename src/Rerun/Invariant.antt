-- ===== src/Rerun/Invariant.antt =====
-- The invariant of a thread that belongs to a pool.
use logxcontroll_v.Base.{
  ℕ, ◌<◌, ◌≡◌, ◌≢◌, refl, some, Bool, true, false, List, [], ◌∷◌, ◌++◌, arith, ◌&&◌, ◌==◌, ltb, ℤ,
  Ptr,
}
use mathlib.Core.List.{append-nil}
use logxcontroll_v.Rerun.{
  RrtStatus, rrt_initalized, rrt_idle, rrt_busy, rrt_shutdown_requested, rrt_exited, Run, no_run,
  pointer_on_shutdown_request, job, Place, not_started, at_wait, checked, blocked, at_fetch,
  in_call, at_finish, at_callback, at_exit, finished, crashed, Rrt, rrt_init, rrt_start,
  rrt_try_rerun_if_free, request_shutdown, notify_job, executor_step, step_at, wake_up,
}
use logxcontroll_v.Rerun.Steps.{
  Step, start, rerun, shutdown, notify, wake, execute, Reach, here, next, Pooled, WhileNotIdle,
  Anytime,
}

-- A job stands in `run` exactly while the thread is busy with one that it has not called yet, and
-- the poison only under a shutdown.
abbrev waiting_ok : RrtStatus → Run → Bool
waiting_ok rrt_idle no_run = true
waiting_ok rrt_busy (job f) = true
waiting_ok rrt_shutdown_requested (job f) = true
waiting_ok rrt_shutdown_requested pointer_on_shutdown_request = true
waiting_ok _ _ = false

abbrev working : RrtStatus → Bool
working rrt_busy = true
working rrt_shutdown_requested = true
working _ = false

-- At rest no notification is on its way.
abbrev quiet_if_idle : RrtStatus → ℕ → Bool
quiet_if_idle rrt_idle n = n == 0
quiet_if_idle _ n = true

-- A sleeping executor that has something to do is about to be notified.
abbrev notified_unless_idle : RrtStatus → ℕ → Bool
notified_unless_idle rrt_idle n = n == 0
notified_unless_idle _ n = ltb 0 n

abbrev not_started_ok : RrtStatus → Run → ℕ → Bool
not_started_ok rrt_initalized no_run n = n == 0
not_started_ok s r n = waiting_ok s r && quiet_if_idle s n

abbrev call_ok : RrtStatus → Run → Bool
call_ok s (job f) = working s
call_ok s r = false

abbrev finish_ok : RrtStatus → Run → Bool
finish_ok s no_run = working s
finish_ok s r = false

abbrev exit_ok : RrtStatus → Run → Bool
exit_ok rrt_shutdown_requested (job f) = false
exit_ok rrt_shutdown_requested r = true
exit_ok s r = false

abbrev finished_ok : RrtStatus → Run → Bool
finished_ok rrt_exited (job f) = false
finished_ok rrt_exited r = true
finished_ok s r = false

abbrev pub consistent : Place → RrtStatus → Run → ℕ → Bool
consistent not_started s r n = not_started_ok s r n
consistent at_wait s r n = waiting_ok s r && quiet_if_idle s n
consistent at_callback s r n = waiting_ok s r
consistent checked s r n = waiting_ok s r && notified_unless_idle s n
consistent blocked s r n = waiting_ok s r && notified_unless_idle s n
consistent at_fetch s r n = waiting_ok s r
consistent in_call s r n = call_ok s r
consistent at_finish s r n = finish_ok s r
consistent at_exit s r n = exit_ok s r
consistent finished s r n = finished_ok s r
consistent crashed s r n = waiting_ok s r

abbrev job_of : Run → Ptr → List (Run × Ptr)
job_of (job f) p = (job f, p) ∷ []
job_of _ p = []

-- The job that is accepted and not called yet.
abbrev pub pending : Place → Run → Ptr → List (Run × Ptr)
pending in_call r p = []
pending at_finish r p = []
pending at_exit r p = []
pending finished r p = []
pending _ r p = job_of r p

pub record Inv (r : Rrt) : Type 0 where
  pub coherent : consistent r.place r.status r.run r.signals ≡ true
  pub history : r.accepted ≡ r.called ++ pending r.place r.run r.parameter

init-Inv : Inv rrt_init
unfolding rrt_init
init-Inv = record { coherent = refl; history = refl }

start-Inv : (r : Rrt) (z : ℤ) → Inv r → Inv (rrt_start r z).1
unfolding rrt_start
start-Inv r z h = record {
  coherent = ground (arith, h.coherent);
  history = ground (arith, h.coherent, h.history, append-nil r.called);
}

rerun-Inv : (r : Rrt) (f : ℕ) (p : Ptr) → Inv r → Inv (rrt_try_rerun_if_free r f p).1
unfolding rrt_try_rerun_if_free
rerun-Inv r f p h = record {
  coherent = ground (arith, h.coherent);
  history = ground (arith, h.coherent, h.history, append-nil r.called);
}

shutdown-Inv : (r : Rrt) → r.place ≢ checked → Inv r → Inv (request_shutdown r.status r).1
unfolding request_shutdown
shutdown-Inv r c h = record {
  coherent = ground (arith, h.coherent);
  history = ground (arith, h.coherent, h.history, append-nil r.called);
}

notify-Inv : (r : Rrt) → 0 < r.signals → r.place ≢ checked → Inv r → Inv (notify_job r)
unfolding notify_job
notify-Inv r n c h = record {
  coherent = ground (arith, h.coherent);
  history = ground (arith, h.coherent, h.history);
}

wake-Inv : (r : Rrt) → r.place ≡ blocked → Inv r → Inv (wake_up r)
unfolding wake_up
wake-Inv r b h = record {
  coherent = ground (arith, h.coherent);
  history = ground (arith, h.coherent, h.history);
}

module _ (r : Rrt) (h : Inv r) where
  execute_coherent :
      {s : Rrt}
      → (p : Place) → r.place ≡ p
      → Pooled r
      → step_at p r ≡ some s
      → consistent s.place s.status s.run s.signals ≡ true
  unfolding step_at
  execute_coherent not_started e g eq = cc
  execute_coherent at_callback e g eq = ground (arith, h.coherent, g e)
  execute_coherent _ e g eq = ground (arith, h.coherent)

  execute_history :
      {s : Rrt}
      → (p : Place) → r.place ≡ p
      → step_at p r ≡ some s
      → s.accepted ≡ s.called ++ pending s.place s.run s.parameter
  unfolding step_at
  execute_history not_started e eq = cc
  execute_history _ e eq = ground (
    arith,
    h.coherent,
    h.history,
    append-nil r.called,
    append-nil (r.called ++ (r.run, r.parameter) ∷ []),
  )

  execute-Inv : {s : Rrt} → Pooled r → executor_step r ≡ some s → Inv s
  unfolding executor_step
  execute-Inv g eq = record {
    coherent = execute_coherent r.place refl g eq;
    history = execute_history r.place refl eq;
  }

pub Step-Inv : {Wakes : Rrt → Type 0} {r s : Rrt} → Step Pooled Wakes r s → Inv r → Inv s
Step-Inv (start r z) h = start-Inv r z h
Step-Inv (rerun r f p) h = rerun-Inv r f p h
Step-Inv (shutdown r c) h = shutdown-Inv r c h
Step-Inv (notify r n c) h = notify-Inv r n c h
Step-Inv (wake r b w) h = wake-Inv r b h
Step-Inv (execute {r = r} g eq) h = execute-Inv r h g eq

pub Reach-Inv : {Wakes : Rrt → Type 0} {r : Rrt} → Reach Pooled Wakes r → Inv r
Reach-Inv here = init-Inv
Reach-Inv (next r s) = Step-Inv s (Reach-Inv r)

-- The executor has not called NULL and is not about to.
abbrev calm : Place → RrtStatus → Bool
calm crashed s = false
calm at_fetch rrt_idle = false
calm p s = true

Step-calm :
    {r s : Rrt}
    → Step Pooled WhileNotIdle r s
    → Inv r
    → calm r.place r.status ≡ true
    → calm s.place s.status ≡ true
unfolding rrt_start rrt_try_rerun_if_free request_shutdown notify_job wake_up executor_step step_at
Step-calm (start r z) h c = ground (arith, h.coherent)
Step-calm (rerun r f p) h c = ground (arith, h.coherent)
Step-calm (shutdown r d) h c = ground (arith, h.coherent)
Step-calm (notify r n d) h c = ground (arith, h.coherent)
Step-calm (wake r b w) h c = ground (arith, w)
Step-calm (execute {r = r} g eq) h c = ground (arith, h.coherent, eq)

Reach-calm : {r : Rrt} → Reach Pooled WhileNotIdle r → calm r.place r.status ≡ true
unfolding rrt_init
Reach-calm here = refl
Reach-calm (next r s) = Step-calm s (Reach-Inv r) (Reach-calm r)

-- A wait that returns while the thread is idle makes the executor call NULL.
idle_wake :
    (r : Rrt)
    → Inv r
    → r.place ≡ blocked
    → r.status ≡ rrt_idle
    → executor_step (wake_up r) ≡ some (record r { place = crashed })
unfolding executor_step wake_up
idle_wake r h b i = ground (arith, h.coherent)

-- In every state that a pooled thread reaches, under every interleaving of its executor with
-- requests to run, to shut down and notifications, where its wait on the condition may return at any
-- time: if the executor sleeps while the status is not idle, a notification is on its way; the accepted
-- jobs are the functions called so far, in that order and each once, and then the pending one if there is
-- one; and the executor has not called a NULL function where no wait returned without a notification
-- while the thread was idle. That condition is needed: where the executor sleeps while the thread is idle,
-- a call of a NULL function is reached.
pub thread_safe :
    {r : Rrt}
    → Reach Pooled Anytime r
    → (Reach Pooled WhileNotIdle r → r.place ≢ crashed)
      × (r.place ≡ blocked → r.status ≢ rrt_idle → 0 < r.signals)
      × (r.accepted ≡ r.called ++ pending r.place r.run r.parameter)
      × (r.place ≡ blocked
          → r.status ≡ rrt_idle
          → Reach Pooled Anytime (record r { place = crashed }))
unfolding wake_up
thread_safe {r} h =
    let inv = Reach-Inv h in
    (
      λ k. not_crashed r.place (Reach-calm k),
      awake r.place r.status r.run r.signals inv.coherent,
      inv.history,
      λ b i. next (next h (wake r b tt)) (execute (held b) (idle_wake r inv b i)),
    )
  where
    held : r.place ≡ blocked → Pooled (wake_up r)
    held b e = ground arith

    not_crashed : (p : Place) → calm p r.status ≡ true → p ≢ crashed
    not_crashed p c = ground arith

    awake :
        (p : Place) (s : RrtStatus) (run : Run) (n : ℕ)
        → consistent p s run n ≡ true
        → p ≡ blocked
        → s ≢ rrt_idle
        → 0 < n
    awake p s run n c = ground arith
