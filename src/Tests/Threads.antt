-- ===== src/Tests/Threads.antt =====
-- A re-runnable thread and a pool of one thread.
use logxcontroll_v.Base.{
  Ptr, ◌≡◌, ◌≢◌, ◌<◌, refl, [], ◌∷◌, ◌++◌, null, some, true, false, pos, negsuc, arith,
}
use logxcontroll_v.Queue.{Links}
use logxcontroll_v.Rerun.{
  Rrt, rrt_idle, rrt_busy, rrt_shutdown_requested, job, blocked, crashed, at_wait, rrt_init,
  rrt_start, rrt_try_rerun_if_free, rrt_graceful_shutdown, request_shutdown, rrt_destroy_thread,
  rrt_is_free, rrt_get_state, executor_step,
}
use logxcontroll_v.Rerun.Steps.{
  start, rerun, shutdown, execute, Reach, here, next, Pooled, WhileNotIdle, Anytime, Never,
}
use logxcontroll_v.Rerun.Invariant.{pending, thread_safe}
use logxcontroll_v.Rerun.Race.{late_notify_crashes}
use logxcontroll_v.Rerun.Steps.{Free}
use logxcontroll_v.Pool.{
  WorkerPool, wp_available, wp_shutting_down, wp_exited, wp_submit_task, on_release, wp_init,
  wp_shutdown, wp_wait_exit, all_exited, wp_destroy,
}
use logxcontroll_v.Pool.Shape.{Shape}
use logxcontroll_v.Pool.Submit.{Submitted, submit-Shape}
use logxcontroll_v.Pool.Stop.{AllAsked, shutdown-AllAsked}
use logxcontroll_v.Pool.Wait.{all_exited-every_exited}
use logxcontroll_v.Pool.Release.{release-Shape}

abbrev started : Rrt
started = record rrt_init { status = rrt_idle; place = at_wait }

abbrev accepted : Rrt
accepted = record started {
  status = rrt_busy;
  run = job 9;
  parameter = 4;
  signals = 1;
  accepted = (job 9, 4) ∷ [];
}

started_reached : Reach Pooled Anytime started
unfolding rrt_start rrt_init
started_reached = next here (start rrt_init (pos 0))

accepted_reached : Reach Pooled Anytime accepted
unfolding rrt_try_rerun_if_free rrt_init
accepted_reached = next started_reached (rerun started 9 4)

-- The shutdown is requested while the job is not called yet.
abbrev stopped : Rrt
stopped = record accepted { status = rrt_shutdown_requested }

stopped_reached : Reach Pooled Anytime stopped
unfolding request_shutdown
stopped_reached = next accepted_reached (shutdown accepted (cc))

-- Without a job the executor falls asleep.
abbrev idle_asleep : Rrt
idle_asleep = record started { place = blocked }

asleep_reached : Reach Pooled Anytime idle_asleep
unfolding executor_step
asleep_reached =
    next (next started_reached (execute (λ e. absurd (cc)) refl)) (execute (λ e. absurd (cc)) refl)

idle_asleep_crashes : Reach Pooled Anytime (record idle_asleep { place = crashed })
idle_asleep_crashes = (thread_safe asleep_reached).3 refl refl

thread_safe_example :
    (Reach Pooled WhileNotIdle stopped → stopped.place ≢ crashed)
    × (stopped.place ≡ blocked → stopped.status ≢ rrt_idle → 0 < stopped.signals)
    × (stopped.accepted ≡ stopped.called ++ pending stopped.place stopped.run stopped.parameter)
    × (stopped.place ≡ blocked
        → stopped.status ≡ rrt_idle
        → Reach Pooled Anytime (record stopped { place = crashed }))
thread_safe_example = thread_safe stopped_reached

late_notify_crashes_example : (r : Rrt) × Reach Free Never r × (r.place ≡ crashed)
late_notify_crashes_example = late_notify_crashes 9 4

getters :
    (rrt_is_free started ≡ true)
    × (rrt_get_state stopped ≡ rrt_shutdown_requested)
    × (rrt_destroy_thread stopped ≡ 1)
unfolding rrt_is_free rrt_get_state rrt_destroy_thread
getters = (refl, refl, refl)

-- A mutex that is never free: the request gives up.
shutdown_gives_up : rrt_graceful_shutdown (λ _. false) started ≡ (negsuc 1028, started)
unfolding rrt_graceful_shutdown
shutdown_gives_up = refl

-- A pool with the idle thread 3.
abbrev nowhere : Links
nowhere = record { prev = λ _. null; next = λ _. null }

abbrev pool : WorkerPool
pool = record {
  status = wp_available;
  links = nowhere;
  free = record { head = 3; tail = 3 };
  busy = record { head = null; tail = null };
  thread = λ _. started;
  executor = λ _. 0;
  param = λ _. null;
}

pool-Shape : Shape pool (3 ∷ []) []
pool-Shape = record {
  free_queue = ((refl, (cc), refl, (refl, refl)), (tt, tt));
  busy_queue = ((refl, refl), tt);
  apart = (tt, tt);
  idle = (refl, tt);
}

submit-Shape_example : Submitted (wp_submit_task pool 9 4 8 (pos 0)) (3 ∷ []) [] 9 4 8
submit-Shape_example = submit-Shape pool 9 4 8 (3 ∷ []) [] refl pool-Shape (cc) tt

-- The thread 3 after its task, still in the busy queue.
abbrev done : WorkerPool
done = record pool {
  free = record { head = null; tail = null };
  busy = record { head = 3; tail = 3 };
}

done-Shape : Shape done [] (3 ∷ [])
done-Shape = record {
  free_queue = ((refl, refl), tt);
  busy_queue = ((refl, (cc), refl, (refl, refl)), (tt, tt));
  apart = tt;
  idle = tt;
}

release-Shape_example :
    (w' : WorkerPool) × (on_release done 3 ≡ some w')
    × Shape w' (3 ∷ []) []
    × (w'.thread ≡ done.thread)
release-Shape_example = release-Shape done 3 [] [] [] done-Shape refl

init_empties : wp_init done ≡ record done { busy = record { head = null; tail = null } }
unfolding wp_init
init_empties = refl

shutting_down : WorkerPool
shutting_down = record pool { status = wp_shutting_down; thread = λ _. stopped }

wait_and_destroy :
    (wp_wait_exit shutting_down ≡ (pos 0, record shutting_down { status = wp_exited }))
    × (all_exited 1 shutting_down ≡ some false)
    × (wp_destroy shutting_down ≡ negsuc 4)
unfolding wp_wait_exit all_exited wp_destroy shutting_down
wait_and_destroy = (refl, refl, refl)

shutdown_twice : wp_shutdown 2 (λ _. true) shutting_down ≡ some (negsuc 12, shutting_down)
unfolding wp_shutdown shutting_down
shutdown_twice = refl

shutdown-AllAsked_example :
    (t' : Ptr → Rrt) × (wp_shutdown 1 (λ _. true) pool
      ≡ some (pos 0, record pool { status = wp_shutting_down; thread = t' }))
    × AllAsked (λ _. true) pool.thread t' (3 ∷ [])
    × AllAsked (λ _. true) pool.thread t' []
shutdown-AllAsked_example =
    shutdown-AllAsked 1 (λ _. true) pool (3 ∷ []) [] refl pool-Shape (omega arith) (omega arith)

-- The only thread of the pool is free and has not exited.
all_exited-every_exited_example : all_exited 1 pool ≡ some false
all_exited-every_exited_example =
    all_exited-every_exited 1 pool (3 ∷ []) [] pool-Shape (omega arith) (omega arith)
