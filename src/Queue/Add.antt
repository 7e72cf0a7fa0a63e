-- ===== src/Queue/Add.antt =====
-- `queue_add_element` adds at the tail.
use logxcontroll_v.Base.{◌≡◌, ◌≢◌, refl, sym, ◌∙◌, List, [], ◌∷◌, ◌++◌, some, Ptr, null, ne→eqb}
use logxcontroll_v.Queue.{Links, Ends, update, set_prev, set_next, queue_add_element}
use logxcontroll_v.Queue.Seg.{
  NotIn, Distinct, Seg, IsQueue, Unchanged, update_self, update_other, Seg-set_next, Seg-set_prev,
  Seg-relink_last, Seg-join, NotIn-append, NotIn-front, NotIn-back, Seg-last_ne,
}

Distinct-snoc : (xs : List Ptr) (e : Ptr) → NotIn e xs → Distinct xs → Distinct (xs ++ e ∷ [])
Distinct-snoc [] e n d = (tt, tt)
Distinct-snoc (x ∷ xs) e n d =
    (NotIn-append x xs (e ∷ []) d.0 ((λ q. n.0 (sym q)), tt), Distinct-snoc xs e n.1 d.1)

pub Seg-last_nonnull :
    (m : Links) (b p x : Ptr) (xs : List Ptr) (l q : Ptr) → Seg m b p (x ∷ xs) l q → l ≢ null
Seg-last_nonnull m b p x [] l q s = λ h. s.1 (sym s.3.1 ∙ h)
Seg-last_nonnull m b p x (y ∷ xs) l q s = Seg-last_nonnull m x (m.next x) y xs l q s.3

-- Adding an element that is not NULL and not in the queue succeeds: the queue then holds its old
-- elements in their order and then the new one, and no link of a pointer outside of it and of the
-- new element changes.
pub add-IsQueue :
    (m : Links) (q : Ends) (e : Ptr) (xs : List Ptr)
    → e ≢ null
    → NotIn e xs
    → IsQueue m q xs
    → (m' : Links) × (q' : Ends) × (queue_add_element m q e ≡ some (m', q'))
      × IsQueue m' q' (xs ++ e ∷ [])
      × Unchanged m m' (xs ++ e ∷ [])
unfolding queue_add_element
add-IsQueue m q e [] ne n h = (
  set_next (set_prev (set_prev m e null) e q.tail) e null,
  record { head = e; tail = e },
  rw (ne→eqb e null ne) (rw (h.0.0) (rw (h.0.1) refl)),
  (
    (
      refl,
      ne,
      update_self (update m.prev e null) e q.tail ∙ h.0.1,
      (update_self m.next e null, refl),
    ),
    (tt, tt),
  ),
  λ p d. (
    update_other (update m.prev e null) e q.tail p (λ k. d.0 (sym k))
        ∙ update_other m.prev e null p (λ k. d.0 (sym k)),
    update_other m.next e null p (λ k. d.0 (sym k)),
  ),
)
add-IsQueue m q e (x ∷ xs) ne n h = (
  set_next (set_next (set_prev m e q.tail) e null) q.tail e,
  record { head = q.head; tail = e },
  rw (ne→eqb e null ne) (
      rw (ne→eqb q.head null (λ k. h.0.1 (sym h.0.0 ∙ k)))
        (rw (ne→eqb q.tail null (Seg-last_nonnull m null q.head x xs q.tail null h.0)) refl)),
  (seg, Distinct-snoc (x ∷ xs) e n h.1),
  frame,
)
  where
    m₂ : Links
    m₂ = set_next (set_prev m e q.tail) e null

    away : q.tail ≢ e
    away k = Seg-last_ne m null q.head x xs q.tail null e n h.0 (sym k)

    seg : Seg (set_next m₂ q.tail e) null q.head ((x ∷ xs) ++ e ∷ []) e null
    seg =
        Seg-join (set_next m₂ q.tail e) null q.head (x ∷ xs) (e ∷ []) q.tail e e null
          (Seg-relink_last m₂ null q.head x xs q.tail null e h.1 (
            Seg-set_next (set_prev m e q.tail) null q.head (x ∷ xs) q.tail null e null n
              (Seg-set_prev m null q.head (x ∷ xs) q.tail null e q.tail n h.0)))
          (
            refl,
            ne,
            update_self m.prev e q.tail,
            (update_other (update m.next e null) q.tail e e away ∙ update_self m.next e null, refl),
          )

    frame : Unchanged m (set_next m₂ q.tail e) (x ∷ xs ++ e ∷ [])
    frame p d =
        let apart : e ≢ p = λ k. (NotIn-back p (x ∷ xs) (e ∷ []) d).0 (sym k) in
        (
          update_other m.prev e q.tail p apart,
          update_other (update m.next e null) q.tail e p (λ k.
                Seg-last_ne m null q.head x xs q.tail null p (NotIn-front p (x ∷ xs) (e ∷ []) d) h.0
                  (sym k))
              ∙ update_other m.next e null p apart,
        )
