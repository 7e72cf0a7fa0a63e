-- ===== src/Pool/Wait.antt =====
-- One round of the loop of wp_wait_exit reads both queues to their ends.
use logxcontroll_v.Base.{
  ℕ, zero, suc, ◌≡◌, ◌≤◌, refl, inl, inr, some, Bool, true, List, [], ◌∷◌, ◌&&◌, Ptr, null, length,
  arith, ne→eqb, Bool-cases,
}
use logxcontroll_v.Queue.{Links}
use logxcontroll_v.Queue.Seg.{Seg}
use logxcontroll_v.Rerun.{Rrt}
use logxcontroll_v.Pool.{WorkerPool, has_exited, is_all_exited, all_exited}
use logxcontroll_v.Pool.Shape.{Shape}

abbrev pub every_exited : (Ptr → Rrt) → List Ptr → Bool
every_exited thread [] = true
every_exited thread (x ∷ xs) = has_exited (thread x).status && every_exited thread xs

queue_read :
    (m : Links) (thread : Ptr → Rrt) (xs : List Ptr) (n : ℕ) (b p l : Ptr)
    → Seg m b p xs l null
    → length xs ≤ n
    → is_all_exited n m thread p ≡ some (every_exited thread xs)
unfolding is_all_exited
queue_read m thread [] zero b p l s h = rw (s.0) refl
queue_read m thread [] (suc n) b p l s h = rw (s.0) refl
queue_read m thread (x ∷ xs) zero b p l s h = absurd (omega (arith, h))
queue_read m thread (x ∷ xs) (suc n) b p l s h =
    rw (s.0, ne→eqb x null s.1, queue_read m thread xs n x (m.next x) l s.3 (omega (arith, h)))
      (elim (Bool-cases (has_exited (thread x).status)) [ inl e ↦ rw e refl | inr e ↦ rw e refl ])

-- One round of the loop that waits for the exit of a well-formed pool ends, with fuel for the threads of
-- either queue, and answers true exactly where every thread of both queues has exited.
pub all_exited-every_exited :
    (n : ℕ) (w : WorkerPool) (fs bs : List Ptr)
    → Shape w fs bs
    → length fs ≤ n
    → length bs ≤ n
    → all_exited n w ≡ some (every_exited w.thread bs && every_exited w.thread fs)
unfolding all_exited
all_exited-every_exited n w fs bs sh lf lb =
    rw
      (
        queue_read w.links w.thread bs n null w.busy.head w.busy.tail (sh.busy_queue.0) lb,
        queue_read w.links w.thread fs n null w.free.head w.free.tail (sh.free_queue.0) lf,
      )
      (elim (Bool-cases (every_exited w.thread bs)) [ inl e ↦ rw e refl | inr e ↦ rw e refl ])
