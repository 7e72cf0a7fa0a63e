-- ===== src/Pool/Release.antt =====
-- The callback that gives a thread back to the free queue.
use logxcontroll_v.Base.{◌≡◌, List, [], ◌∷◌, ◌++◌, some, Ptr, null, refl}
use logxcontroll_v.Queue.{Links, Ends, queue_add_element, queue_pop_intermediate_element}
use logxcontroll_v.Queue.Seg.{IsQueue, Seg-split, Distinct-middle}
use logxcontroll_v.Queue.Add.{add-IsQueue}
use logxcontroll_v.Queue.Remove.{remove-IsQueue}
use logxcontroll_v.Rerun.{rrt_idle}
use logxcontroll_v.Pool.{WorkerPool, on_release}
use logxcontroll_v.Pool.Shape.{
  Apart, Shape, IsQueue-frame, AllIdle-append, Apart-append_left, Apart-append_right, Apart-right,
  Apart-single, NotIn-of_Apart, Apart-sym,
}

released :
    (w : WorkerPool) (x : Ptr) (m₁ m₂ : Links) (q₁ q₂ : Ends)
    → queue_pop_intermediate_element w.links w.busy x ≡ some (m₁, q₁)
    → queue_add_element m₁ w.free x ≡ some (m₂, q₂)
    → on_release w x ≡ some (record w { links = m₂; busy = q₁; free = q₂ })
unfolding on_release
released w x m₁ m₂ q₁ q₂ e₁ e₂ = rw e₁ (rw e₂ refl)

-- In a well-formed pool, the callback of a busy thread that has become idle moves it from its place
-- in the busy queue to the end of the free one; the other threads keep their order, and the pool is
-- well formed again.
pub release-Shape :
    (w : WorkerPool) (x : Ptr) (fs before after : List Ptr)
    → Shape w fs (before ++ x ∷ after)
    → (w.thread x).status ≡ rrt_idle
    → (w' : WorkerPool) × (on_release w x ≡ some w')
      × Shape w' (fs ++ x ∷ []) (before ++ after)
      × (w'.thread ≡ w.thread)
release-Shape w x fs before after s idle =
    let (m₁, q₁, eq₁, good₁, same₁) = remove-IsQueue w.links w.busy x before after s.busy_queue in
    let (x_before, x_after, distinct) = Distinct-middle x before after s.busy_queue.1 in
    let (fs_before, fs_rest) = Apart-right fs before (x ∷ after) s.apart in
    let (fs_x, fs_after) = Apart-right fs (x ∷ []) after fs_rest in
    let others : Apart fs (before ++ after) =
      Apart-append_right fs before after fs_before fs_after in
    let (k, r, front, back) =
      Seg-split w.links null w.busy.head before (x ∷ after) w.busy.tail null s.busy_queue.0 in
    let free₁ : IsQueue m₁ w.free fs =
      IsQueue-frame w.links m₁ w.free fs (before ++ after) same₁ others s.free_queue in
    let (m₂, q₂, eq₂, good₂, same₂) =
      add-IsQueue m₁ w.free x fs back.1 (NotIn-of_Apart fs x fs_x) free₁ in
    let away : Apart (before ++ after) (x ∷ []) =
      Apart-append_left before after (x ∷ []) (Apart-single before x x_before)
        (Apart-single after x x_after) in
    let busy_free : Apart (before ++ after) (fs ++ x ∷ []) =
      Apart-append_right (before ++ after) fs (x ∷ []) (Apart-sym fs (before ++ after) others)
        away in
    (
      record w { links = m₂; busy = q₁; free = q₂ },
      released w x m₁ m₂ q₁ q₂ eq₁ eq₂,
      record {
        free_queue = good₂;
        busy_queue = IsQueue-frame m₁ m₂ q₁ (before ++ after) (fs ++ x ∷ []) same₂ busy_free good₁;
        apart = Apart-sym (before ++ after) (fs ++ x ∷ []) busy_free;
        idle = AllIdle-append w.thread fs (x ∷ []) s.idle (idle, tt);
      },
      refl,
    )
