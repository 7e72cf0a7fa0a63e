-- ===== src/Pool.antt =====
-- The worker pool of core/utils/worker_pool.c: two queues of threads, free and busy, over one
-- memory. The `elem` of a `struct pool_thread` is its first field, so a pointer to one is a pointer
-- to its queue element. Each function is the part between taking and giving back the pool's lock.
pub mod Shape
pub mod Submit
pub mod Release
pub mod Stop
pub mod Wait
use logxcontroll_v.Base.{
  ℕ, zero, suc, ◌+◌, Option, none, some, Bool, true, false, ◌==◌, if◌then◌else◌, ◌&&◌, ℤ, pos,
  negsuc, Ptr, null, ◌>>=◌,
}
use logxcontroll_v.Queue.{
  Links, Ends, queue_add_element, queue_pop_tail_element, queue_pop_intermediate_element,
}
use logxcontroll_v.Rerun.{
  Rrt, RrtStatus, rrt_exited, rrt_init, rrt_start, rrt_try_rerun_if_free, rrt_graceful_shutdown,
  success, lxc_error_bad_call, lxc_error_illegal_request, lxc_error_resource_busy,
  lxc_error_resource_under_shutdown,
}

pub data WpStatus : Type 0 where
  wp_available wp_shutting_down wp_exited : WpStatus

-- The fields of the pool's threads are maps of memory.
pub record WorkerPool : Type 0 where
  pub status : WpStatus
  pub links : Links
  pub free : Ends
  pub busy : Ends
  pub thread : Ptr → Rrt
  pub executor : Ptr → ℕ
  pub param : Ptr → Ptr

abbrev pub update_thread : (Ptr → Rrt) → Ptr → Rrt → Ptr → Rrt
update_thread f p r q = if p == q then r else f q

abbrev pub update_field : (Ptr → ℕ) → Ptr → ℕ → Ptr → ℕ
update_field f p v q = if p == q then v else f q

-- `EBUSY` of errno.h, and the identity of the static `worker_pool_exec_function`.
abbrev pub ebusy : ℤ
ebusy = pos 16

abbrev pub worker_pool_exec_function : ℕ
worker_pool_exec_function = 0

unfoldable pub wp_init : WorkerPool → WorkerPool
wp_init w = record w {
  status = wp_available;
  free = record { head = null; tail = null };
  busy = record { head = null; tail = null };
}

-- `new_pool_thread`: `fresh` is what `malloc` gives, `created` what starting the thread returns.
-- NULL where the thread cannot be started.
pub new_pool_thread : WorkerPool → Ptr → ℤ → Ptr × WorkerPool
new_pool_thread w fresh created =
    let (stat, r) = rrt_start rrt_init created in
    let w' : WorkerPool = record w { thread = update_thread w.thread fresh r } in
    elim stat [ pos n ↦ (if n == 0 then fresh else null, w') | negsuc n ↦ (null, w') ]

-- A free thread from the tail, or a new one.
pub take_thread : WorkerPool → Ptr → ℤ → Option (Ptr × WorkerPool)
unfolding new_pool_thread
take_thread w fresh created = queue_pop_tail_element w.links w.free >>= λ (worker, links, free).
    if worker == null
    then some (new_pool_thread (record w { links = links; free = free }) fresh created)
    else some (worker, record w { links = links; free = free })

-- The thread goes to the busy queue and is given the task.
pub assign : WorkerPool → Ptr → ℕ → Ptr → Option (ℤ × WorkerPool)
assign w worker func param = queue_add_element w.links w.busy worker >>= λ (links, busy).
    let (ret, r) = rrt_try_rerun_if_free (w.thread worker) worker_pool_exec_function worker in
    some (
      (if ret then pos 0 else lxc_error_resource_busy),
      record w {
        links = links;
        busy = busy;
        thread = update_thread w.thread worker r;
        executor = update_field w.executor worker func;
        param = update_field w.param worker param;
      },
    )

-- The part of `wp_submit_task` under the status `wp_available`.
pub submit_available : WorkerPool → ℕ → Ptr → Ptr → ℤ → Option (ℤ × WorkerPool)
unfolding take_thread assign
submit_available w func param fresh created = take_thread w fresh created >>= λ (worker, w').
    if worker == null then some (ebusy, w') else assign w' worker func param

submit_by : WpStatus → WorkerPool → ℕ → Ptr → Ptr → ℤ → Option (ℤ × WorkerPool)
unfolding submit_available
submit_by wp_available w func param fresh created = submit_available w func param fresh created
submit_by _ w func param fresh created = some (lxc_error_resource_under_shutdown, w)

unfoldable pub wp_submit_task : WorkerPool → ℕ → Ptr → Ptr → ℤ → Option (ℤ × WorkerPool)
unfolding submit_by
wp_submit_task w func param fresh created = submit_by w.status w func param fresh created

-- `on_release` at `rrt_after_become_idle`: from the busy queue to the free one.
unfoldable pub on_release : WorkerPool → Ptr → Option WorkerPool
on_release w task = queue_pop_intermediate_element w.links w.busy task >>= λ (links, busy).
    queue_add_element links w.free task >>= λ (links', free).
    some (record w { links = links'; busy = busy; free = free })

-- `while(NULL != el) { ...; el = el->elem.next; }`; `none` also where the fuel runs out.
unfoldable pub shutdown_all : ℕ → (ℕ → Bool) → Links → (Ptr → Rrt) → Ptr → Option (Ptr → Rrt)
shutdown_all zero taken m thread el = if el == null then some thread else none
shutdown_all (suc fuel) taken m thread el =
    let rest =
      shutdown_all fuel taken m
        (update_thread thread el (rrt_graceful_shutdown taken (thread el)).1) (m.next el) in
    if el == null then some thread else rest

shutdown_by : WpStatus → ℕ → (ℕ → Bool) → WorkerPool → Option (ℤ × WorkerPool)
unfolding shutdown_all
shutdown_by wp_available fuel taken w =
    shutdown_all fuel taken w.links w.thread w.free.head >>= λ t.
    shutdown_all fuel taken w.links t w.busy.head >>= λ t'.
    some (pos 0, record w { status = wp_shutting_down; thread = t' })
shutdown_by _ fuel taken w = some (lxc_error_illegal_request, w)

unfoldable pub wp_shutdown : ℕ → (ℕ → Bool) → WorkerPool → Option (ℤ × WorkerPool)
unfolding shutdown_by
wp_shutdown fuel taken w = shutdown_by w.status fuel taken w

abbrev pub has_exited : RrtStatus → Bool
has_exited rrt_exited = true
has_exited _ = false

unfoldable pub is_all_exited : ℕ → Links → (Ptr → Rrt) → Ptr → Option Bool
is_all_exited zero m thread el = if el == null then some true else none
is_all_exited (suc fuel) m thread el =
    let rest = is_all_exited fuel m thread (m.next el) in
    let go_on = if has_exited (thread el).status then rest else some false in
    if el == null then some true else go_on

wait_by : WpStatus → WorkerPool → ℤ × WorkerPool
wait_by wp_shutting_down w = (pos 0, record w { status = wp_exited })
wait_by _ w = (lxc_error_resource_busy, w)

-- The head of `wp_wait_exit`; the loop behind it polls `all_exited` with the lock given back between
-- two rounds, and returns 0 when that holds.
unfoldable pub wp_wait_exit : WorkerPool → ℤ × WorkerPool
unfolding wait_by
wp_wait_exit w = wait_by w.status w

-- The test of one round of that loop: the second queue is read only where the first has exited.
unfoldable pub all_exited : ℕ → WorkerPool → Option Bool
unfolding is_all_exited
all_exited fuel w = is_all_exited fuel w.links w.thread w.busy.head >>= λ b.
    let rest = is_all_exited fuel w.links w.thread w.free.head in if b then rest else some false

destroy_by : WpStatus → ℤ
destroy_by wp_exited = pos 0
destroy_by _ = lxc_error_bad_call

-- The answer of `wp_destroy`, which frees the threads of both queues where it is 0.
unfoldable pub wp_destroy : WorkerPool → ℤ
unfolding destroy_by
wp_destroy w = destroy_by w.status
