-- ===== src/Rerun.antt =====
-- The re-runnable thread of core/utils/rerunnable_thread.c: the shared record, the requests of
-- other threads, and the loop of the executor thread cut at the points where it takes or gives back
-- a lock. `accepted` and `called` are histories: the jobs that were accepted, and the functions
-- that the executor called with their parameters.
pub mod Steps
pub mod Invariant
pub mod Race
pub mod Shutdown
use logxcontroll_v.Base.{
  ℕ, zero, suc, ◌+◌, ◌-◌, Option, none, some, Bool, true, false, List, [], ◌∷◌, ◌++◌, if◌then◌else◌,
  ◌==◌, ltb, ◌&&◌, ℤ, pos, negsuc, Ptr, null,
}

-- enum rerunnable_thread_state
pub data RrtStatus : Type 0 where
  rrt_initalized rrt_idle rrt_busy rrt_shutdown_requested rrt_exited : RrtStatus

-- What `run` points to: NULL, the poison of a shutdown request, or a function of the program.
pub data Run : Type 0 where
  no_run : Run
  pointer_on_shutdown_request : Run
  job : ℕ → Run

-- Where the executor stands: in front of the check in `wait_for_job`, behind it with the mutex of
-- the condition still held, blocked on the condition, in front of reading the job, in the called
-- function, in front of the check for a shutdown, in front of the callback, in front of the last
-- update of the status, behind the end, or in a call of a NULL function.
pub data Place : Type 0 where
  not_started at_wait checked blocked at_fetch : Place
  in_call : Place
  at_finish at_callback at_exit finished crashed : Place

pub record Rrt : Type 0 where
  pub status : RrtStatus
  pub run : Run
  pub parameter : Ptr
  pub place : Place
  -- notifications of the condition that a request still has to send
  pub signals : ℕ
  pub accepted : List (Run × Ptr)
  pub called : List (Run × Ptr)

unfoldable pub rrt_init : Rrt
rrt_init = record {
  status = rrt_initalized;
  run = no_run;
  parameter = null;
  place = not_started;
  signals = 0;
  accepted = [];
  called = [];
}

abbrev is_idle : RrtStatus → Bool
is_idle rrt_idle = true
is_idle _ = false

abbrev is_shutdown_requested : RrtStatus → Bool
is_shutdown_requested rrt_shutdown_requested = true
is_shutdown_requested _ = false

abbrev is_poison : Run → Bool
is_poison pointer_on_shutdown_request = true
is_poison _ = false

-- `created` is what `lxc_start_new_thread` returns; the executor starts where that is 0.
start_from : RrtStatus → Rrt → ℤ → ℤ × Rrt
start_from rrt_initalized r (pos zero) = (pos 0, record r { status = rrt_idle; place = at_wait })
start_from rrt_initalized r created = (created, record r { status = rrt_idle })
start_from _ r created = (negsuc 0, r)

unfoldable pub rrt_start : Rrt → ℤ → ℤ × Rrt
unfolding start_from
rrt_start r created = start_from r.status r created

-- The part under the lock; the notification is still to be sent.
unfoldable pub rrt_try_rerun_if_free : Rrt → ℕ → Ptr → Bool × Rrt
rrt_try_rerun_if_free r function param =
    if is_idle r.status
    then (
      true,
      record r {
        status = rrt_busy;
        run = job function;
        parameter = param;
        signals = r.signals + 1;
        accepted = r.accepted ++ (job function, param) ∷ [];
      },
    )
    else (false, r)

unfoldable pub rrt_is_free : Rrt → Bool
rrt_is_free r = is_idle r.status

unfoldable pub rrt_get_state : Rrt → RrtStatus
rrt_get_state r = r.status

-- enum lxc_errno, as far as the threads and the pool use it
abbrev pub success : ℤ
success = pos 0

abbrev pub lxc_error_bad_call : ℤ
lxc_error_bad_call = negsuc 4

abbrev pub lxc_error_illegal_request : ℤ
lxc_error_illegal_request = negsuc 12

abbrev pub lxc_error_resource_busy : ℤ
lxc_error_resource_busy = negsuc 1026

abbrev pub lxc_error_resource_under_shutdown : ℤ
lxc_error_resource_under_shutdown = negsuc 1027

abbrev pub lxc_error_too_high_concurrency : ℤ
lxc_error_too_high_concurrency = negsuc 1028

-- One round of `rrt_graceful_shutdown`, the condition's mutex taken.
unfoldable pub request_shutdown : RrtStatus → Rrt → ℤ × Rrt
request_shutdown rrt_idle r = (
  success,
  record r {
    status = rrt_shutdown_requested;
    run = pointer_on_shutdown_request;
    signals = r.signals + 1;
  },
)
request_shutdown rrt_busy r = (success, record r { status = rrt_shutdown_requested })
request_shutdown _ r = (lxc_error_illegal_request, r)

-- `while(++i < 150)`: the outcome of each attempt to take the mutex is given by `taken`, and the
-- rounds that are left are counted.
unfoldable pub shutdown_rounds : ℕ → (ℕ → Bool) → Rrt → ℤ × Rrt
unfolding request_shutdown
shutdown_rounds zero taken r = (lxc_error_too_high_concurrency, r)
shutdown_rounds (suc rounds) taken r =
    let rest = shutdown_rounds rounds taken r in
    if taken rounds then request_shutdown r.status r else rest

unfoldable pub rrt_graceful_shutdown : (ℕ → Bool) → Rrt → ℤ × Rrt
unfolding shutdown_rounds
rrt_graceful_shutdown taken r = shutdown_rounds 149 taken r

-- `rrt_destroy_thread` refuses with 1 unless the thread has exited or was never started.
destroy_status : RrtStatus → ℕ
destroy_status rrt_exited = 0
destroy_status rrt_initalized = 0
destroy_status _ = 1

unfoldable pub rrt_destroy_thread : Rrt → ℕ
unfolding destroy_status
rrt_destroy_thread r = destroy_status r.status

-- The wait on the condition returns, with the mutex, which is then given back.
woken : Place → Place
woken blocked = at_fetch
woken p = p

-- It returns without a notification.
unfoldable pub wake_up : Rrt → Rrt
unfolding woken
wake_up r = record r { place = woken r.place }

-- `notify_job`: the condition is broadcast, its mutex taken.
unfoldable pub notify_job : Rrt → Rrt
unfolding woken
notify_job r = record r { place = woken r.place; signals = r.signals - 1 }

-- Reading the job, and the call that follows.
unfoldable pub fetch : Run → Rrt → Rrt
fetch no_run r = record r { place = crashed }
fetch run r = record r { place = in_call; called = r.called ++ (run, r.parameter) ∷ [] }

-- One step of `executor_function`; `none` where it is blocked or has ended.
unfoldable pub step_at : Place → Rrt → Option Rrt
unfolding fetch
step_at at_wait r =
    some (if is_idle r.status then record r { place = checked } else record r { place = at_fetch })
step_at checked r = some (record r { place = blocked })
step_at at_fetch r = some (
    if is_shutdown_requested r.status && is_poison r.run
    then record r { place = at_exit }
    else fetch r.run r)
step_at in_call r = some (record r { run = no_run; parameter = null; place = at_finish })
step_at at_finish r = some (
    if is_shutdown_requested r.status
    then record r { place = at_exit }
    else record r { status = rrt_idle; place = at_callback })
step_at at_callback r = some (record r { place = at_wait })
step_at at_exit r = some (record r { status = rrt_exited; place = finished })
step_at _ r = none

unfoldable pub executor_step : Rrt → Option Rrt
unfolding step_at
executor_step r = step_at r.place r
