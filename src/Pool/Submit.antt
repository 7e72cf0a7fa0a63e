-- ===== src/Pool/Submit.antt =====
-- Submitting a task and releasing a thread keep the pool well formed.
use logxcontroll_v.Base.{
  ℕ, ◌≡◌, ◌≢◌, refl, sym, subst, Option, some, List, [], ◌∷◌, ◌++◌, ◌⊎◌, inl, inr, Ptr, null,
  ne→eqb, eqb_refl, ℤ, pos,
}
use logxcontroll_v.Queue.{Links, Ends, queue_pop_tail_element}
use logxcontroll_v.Queue.Seg.{NotIn, IsQueue, Unchanged, Seg-split, Distinct-middle}
use logxcontroll_v.Queue.Add.{add-IsQueue}
use logxcontroll_v.Queue.Take.{pop_tail-IsQueue}
use logxcontroll_v.Rerun.{Rrt, rrt_idle, rrt_busy, rrt_try_rerun_if_free, rrt_start, rrt_init, job}
use logxcontroll_v.Pool.{
  WorkerPool, wp_available, update_thread, update_field, worker_pool_exec_function, new_pool_thread,
  take_thread, assign, submit_available, submit_by, wp_submit_task,
}
use logxcontroll_v.Pool.Shape.{
  Shape, IsQueue-frame, AllIdle-other, AllIdle-front, Apart-left, Apart-append_right, Apart-single,
  Apart-sym,
}

-- The pool after a task went to the thread `x`.
pub record Assigned (w' : WorkerPool) (fs bs : List Ptr) (x : Ptr) (func : ℕ) (param : Ptr)
    : Type 0 where
  pub shape : Shape w' fs (bs ++ x ∷ [])
  pub running : (w'.thread x).status ≡ rrt_busy
  pub entry : (w'.thread x).run ≡ job worker_pool_exec_function
  pub itself : (w'.thread x).parameter ≡ x
  pub task : w'.executor x ≡ func
  pub argument : w'.param x ≡ param

assign_lem :
    (w : WorkerPool) (x : Ptr) (func : ℕ) (param : Ptr) (fs bs : List Ptr)
    → x ≢ null
    → NotIn x fs
    → NotIn x bs
    → (w.thread x).status ≡ rrt_idle
    → Shape w fs bs
    → (w' : WorkerPool) × (assign w x func param ≡ some (pos 0, w'))
      × Assigned w' fs bs x func param
unfolding assign rrt_try_rerun_if_free
assign_lem w x func param fs bs nx nf nb idle s =
    let (m', q', eq, good, same) = add-IsQueue w.links w.busy x bs nx nb s.busy_queue in
    let r : Rrt = (rrt_try_rerun_if_free (w.thread x) worker_pool_exec_function x).1 in
    (
      record w {
        links = m';
        busy = q';
        thread = update_thread w.thread x r;
        executor = update_field w.executor x func;
        param = update_field w.param x param;
      },
      rw eq (rw idle refl),
      record {
        shape = record {
          free_queue =
              IsQueue-frame w.links m' w.free fs (bs ++ x ∷ []) same
                (Apart-append_right fs bs (x ∷ []) s.apart (Apart-single fs x nf)) s.free_queue;
          busy_queue = good;
          apart = Apart-append_right fs bs (x ∷ []) s.apart (Apart-single fs x nf);
          idle = AllIdle-other w.thread x r fs nf s.idle;
        };
        running = rw (eqb_refl x) (rw idle refl);
        entry = rw (eqb_refl x) (rw idle refl);
        itself = rw (eqb_refl x) (rw idle refl);
        task = rw (eqb_refl x) refl;
        argument = rw (eqb_refl x) refl;
      },
    )

-- What `wp_submit_task` leaves behind where it returns 0.
abbrev pub Submitted : Option (ℤ × WorkerPool) → List Ptr → List Ptr → ℕ → Ptr → Ptr → Type 0
Submitted out fs bs func param fresh =
    (x : Ptr) × (fs' : List Ptr) × (w' : WorkerPool) × (out ≡ some (pos 0, w'))
    × ((fs ≡ fs' ++ x ∷ []) ⊎ ((fs ≡ []) × (fs' ≡ []) × (x ≡ fresh)))
    × Assigned w' fs' bs x func param

submit_free :
    (w : WorkerPool) (func : ℕ) (param fresh : Ptr) (created : ℤ) (fs' bs : List Ptr) (x : Ptr)
    (m' : Links) (q' : Ends)
    → x ≢ null
    → NotIn x fs'
    → queue_pop_tail_element w.links w.free ≡ some (x, m', q')
    → IsQueue m' q' fs'
    → Unchanged w.links m' fs'
    → Shape w (fs' ++ x ∷ []) bs
    → Submitted (submit_available w func param fresh created) (fs' ++ x ∷ []) bs func param fresh
unfolding submit_available take_thread
submit_free w func param fresh created fs' bs x m' q' nx nf eq good same s =
    let (apart, apart_x) = Apart-left fs' (x ∷ []) bs s.apart in
    let (idle, idle_x) = AllIdle-front w.thread fs' (x ∷ []) s.idle in
    let w₁ : WorkerPool = record w { links = m'; free = q' } in
    let (w', done, good') = assign_lem w₁ x func param fs' bs nx nf apart_x.0 idle_x.0 (record {
      free_queue = good;
      busy_queue =
          IsQueue-frame w.links m' w.busy bs fs' same (Apart-sym fs' bs apart) s.busy_queue;
      apart = apart;
      idle = idle;
    }) in
    (x, fs', w', rw eq (rw (ne→eqb x null nx) (rw (ne→eqb x null nx) done)), inl refl, good')

submit_new :
    (w : WorkerPool) (func : ℕ) (param fresh : Ptr) (bs : List Ptr)
    → fresh ≢ null
    → NotIn fresh bs
    → queue_pop_tail_element w.links w.free ≡ some (null, w.links, w.free)
    → Shape w [] bs
    → Submitted (submit_available w func param fresh (pos 0)) [] bs func param fresh
unfolding submit_available take_thread new_pool_thread rrt_start rrt_init
submit_new w func param fresh bs nx nb eq s =
    let r : Rrt = (rrt_start rrt_init (pos 0)).1 in
    let w₁ : WorkerPool = record w { thread = update_thread w.thread fresh r } in
    let (w', done, good') =
      assign_lem w₁ fresh func param [] bs nx tt nb (rw (eqb_refl fresh) refl)
        (record { free_queue = s.free_queue; busy_queue = s.busy_queue; apart = tt; idle = tt }) in
    (fresh, [], w', rw eq (rw (ne→eqb fresh null nx) done), inr (refl, refl, refl), good')

-- Submitting a task to a well-formed pool that is available, where `malloc` gives a pointer that is
-- not NULL and of no thread of the pool and a new thread can be started, returns 0. The task went
-- to the last free thread, or to the new one where none is free; that thread is at the end of the
-- busy queue, busy with the pool's function on itself and with the given task, and the pool is well
-- formed again.
pub submit-Shape :
    (w : WorkerPool) (func : ℕ) (param fresh : Ptr) (fs bs : List Ptr)
    → w.status ≡ wp_available
    → Shape w fs bs
    → fresh ≢ null
    → NotIn fresh bs
    → Submitted (wp_submit_task w func param fresh (pos 0)) fs bs func param fresh
unfolding wp_submit_task
submit-Shape w func param fresh fs bs avail s nf nb =
    subst (λ st. Submitted (submit_by st w func param fresh (pos 0)) fs bs func param fresh)
      (sym avail)
      (elim (pop_tail-IsQueue w.links w.free fs s.free_queue) [
        | inl (e, eq) ↦
            subst
              (λ l. Submitted (submit_available w func param fresh (pos 0)) l bs func param fresh)
              (sym e) (submit_new w func param fresh bs nf nb eq (subst (λ l. Shape w l bs) e s))
        | inr (fs', x, m', q', e, eq, good, same) ↦
            let s' : Shape w (fs' ++ x ∷ []) bs = subst (λ l. Shape w l bs) e s in
            let (k, r, front, back) =
              Seg-split w.links null w.free.head fs' (x ∷ []) w.free.tail null s'.free_queue.0 in
            subst
              (λ l. Submitted (submit_available w func param fresh (pos 0)) l bs func param fresh)
              (sym e)
              (submit_free w func param fresh (pos 0) fs' bs x m' q' back.1
                (Distinct-middle x fs' [] s'.free_queue.1).0 eq good same s')
      ])
