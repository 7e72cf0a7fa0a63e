-- ===== src/Queue/Remove.antt =====
-- Removing an element anywhere in the queue, and at its two ends.
use logxcontroll_v.Base.{
  ◌≡◌, ◌≢◌, refl, sym, ◌∙◌, subst, List, [], ◌∷◌, ◌++◌, Option, some, arith, Ptr, null,
}
use logxcontroll_v.Queue.{Links, Ends, set_prev, set_next, queue_pop_intermediate_element}
use mathlib.Core.List.{append-nil}
use logxcontroll_v.Queue.Add.{Seg-last_nonnull}
use logxcontroll_v.Queue.Seg.{
  NotIn, Distinct, Seg, IsQueue, Unchanged, update_other, Seg-set_next, Seg-set_prev,
  Seg-relink_last, Seg-relink_first, Seg-split, Seg-join, NotIn-front, NotIn-back, Seg-last_ne,
  Distinct-middle, Distinct-last, Distinct-front, Distinct-back,
}

-- What the code computes, by whether there is an element before and one behind.
module _ (m : Links) (q : Ends) (x : Ptr) (nx : x ≢ null) where
  pop_only :
      m.prev x ≡ null
      → m.next x ≡ null
      → queue_pop_intermediate_element m q x ≡ some (m, record { head = null; tail = null })
  unfolding queue_pop_intermediate_element
  pop_only p n = ground arith

  pop_front :
      m.prev x ≡ null
      → m.next x ≢ null
      → m.next x ≢ x
      → queue_pop_intermediate_element m q x
        ≡ some (set_prev (set_prev m (m.next x) null) (m.next x) null, record q { head = m.next x })
  unfolding queue_pop_intermediate_element
  pop_front p n d = ground arith

  pop_back :
      (k : Ptr)
      → m.prev x ≡ k
      → k ≢ null
      → m.next x ≡ null
      → k ≢ x
      → queue_pop_intermediate_element m q x
        ≡ some (set_next (set_next m k null) k null, record q { tail = k })
  unfolding queue_pop_intermediate_element
  pop_back k e p n d = ground arith

  pop_inner :
      (k : Ptr)
      → m.prev x ≡ k
      → k ≢ null
      → m.next x ≢ null
      → k ≢ x
      → queue_pop_intermediate_element m q x
        ≡ some (set_prev (set_next m k (m.next x)) (m.next x) k, q)
  unfolding queue_pop_intermediate_element
  pop_inner k e p n d = ground arith

-- What a removal leaves behind, where `xs` are the other elements.
abbrev pub Removed : Links → List Ptr → Option (Links × Ends) → Type 0
Removed m xs out =
    (m' : Links) × (q' : Ends) × (out ≡ some (m', q')) × IsQueue m' q' xs × Unchanged m m' xs

module _ (m : Links) (q : Ends) (x : Ptr) where
  remove_only : IsQueue m q (x ∷ []) → Removed m [] (queue_pop_intermediate_element m q x)
  remove_only h = (
    m,
    record { head = null; tail = null },
    pop_only m q x h.0.1 h.0.2 h.0.3.0,
    ((refl, refl), tt),
    λ p n. (refl, refl),
  )

  remove_front :
      (z : Ptr) (zs : List Ptr)
      → IsQueue m q (x ∷ z ∷ zs)
      → Removed m (z ∷ zs) (queue_pop_intermediate_element m q x)
  remove_front z zs h =
      let s : Seg m x (m.next x) (z ∷ zs) q.tail null = h.0.3 in
      let other : m.next x ≢ x = λ e. h.1.0.0 (sym e ∙ s.0) in
      let once : Links = set_prev m (m.next x) null in
      (
        set_prev once (m.next x) null,
        record q { head = m.next x },
        pop_front m q x h.0.1 h.0.2 (λ e. s.1 (sym s.0 ∙ e)) other,
        (
          Seg-relink_first once null (m.next x) z zs q.tail null null h.1.1
              (Seg-relink_first m x (m.next x) z zs q.tail null null h.1.1 s),
          h.1.1,
        ),
        λ p n.
            let apart : m.next x ≢ p = λ e. n.0 (sym e ∙ s.0) in
            (
              update_other once.prev (m.next x) null p apart
                  ∙ update_other m.prev (m.next x) null p apart,
              refl,
            ),
      )

  remove_back :
      (y : Ptr) (ys : List Ptr)
      → IsQueue m q (y ∷ ys ++ x ∷ [])
      → Removed m (y ∷ ys) (queue_pop_intermediate_element m q x)
  remove_back y ys h =
      let (k, r, front, back) = Seg-split m null q.head (y ∷ ys) (x ∷ []) q.tail null h.0 in
      let d : Distinct (y ∷ ys) = Distinct-front (y ∷ ys) (x ∷ []) h.1 in
      let out : NotIn x (y ∷ ys) = (Distinct-middle x (y ∷ ys) [] h.1).0 in
      let k_x : k ≢ x = λ e. Seg-last_ne m null q.head y ys k r x out front (sym e) in
      let once : Links = set_next m k null in
      (
        set_next once k null,
        record q { tail = k },
        pop_back m q x back.1 k back.2 (Seg-last_nonnull m null q.head y ys k r front) back.3.0 k_x,
        (
          Seg-relink_last once null q.head y ys k null null d
              (Seg-relink_last m null q.head y ys k r null d front),
          d,
        ),
        λ p n.
            let apart : k ≢ p = λ e. Seg-last_ne m null q.head y ys k r p n front (sym e) in
            (refl, update_other once.next k null p apart ∙ update_other m.next k null p apart),
      )

  remove_inner :
      (y z : Ptr) (ys zs : List Ptr)
      → IsQueue m q (y ∷ ys ++ x ∷ z ∷ zs)
      → Removed m (y ∷ ys ++ z ∷ zs) (queue_pop_intermediate_element m q x)
  remove_inner y z ys zs h =
      let (k, r, front, back) = Seg-split m null q.head (y ∷ ys) (x ∷ z ∷ zs) q.tail null h.0 in
      let (out_front, out_back, d) = Distinct-middle x (y ∷ ys) (z ∷ zs) h.1 in
      let n : Ptr = m.next x in
      let k_back : NotIn k (z ∷ zs) = Distinct-last m null q.head y ys (z ∷ zs) k r d front in
      let z_front : NotIn z (y ∷ ys) = (Distinct-middle z (y ∷ ys) zs d).0 in
      let n_front : NotIn n (y ∷ ys) = subst (λ c. NotIn c (y ∷ ys)) (sym back.3.0) z_front in
      let k_x : k ≢ x = λ e. Seg-last_ne m null q.head y ys k r x out_front front (sym e) in
      let m₁ : Links = set_next m k n in
      (
        set_prev m₁ n k,
        q,
        pop_inner m q x back.1 k back.2 (Seg-last_nonnull m null q.head y ys k r front)
            (λ e. back.3.1 (sym back.3.0 ∙ e)) k_x,
        (
          Seg-join (set_prev m₁ n k) null q.head (y ∷ ys) (z ∷ zs) k n q.tail null
              (Seg-set_prev m₁ null q.head (y ∷ ys) k n n k n_front (
                Seg-relink_last m null q.head y ys k r n (Distinct-front (y ∷ ys) (z ∷ zs) d)
                  front))
              (Seg-relink_first m₁ x n z zs q.tail null k (Distinct-back (y ∷ ys) (z ∷ zs) d)
                (Seg-set_next m x n (z ∷ zs) q.tail null k n k_back back.3)),
          d,
        ),
        λ p out. (
          update_other m.prev n k p
              (λ e. (NotIn-back p (y ∷ ys) (z ∷ zs) out).0 (sym e ∙ back.3.0)),
          update_other m.next k n p (λ e.
              Seg-last_ne m null q.head y ys k r p (NotIn-front p (y ∷ ys) (z ∷ zs) out) front
                (sym e)),
        ),
      )

-- Removing an element of the queue, wherever it stands, succeeds: the queue then holds the elements
-- in front of it and those behind it, in their order, and no link of a pointer outside of these
-- changes, not even that of the removed element.
pub remove-IsQueue :
    (m : Links) (q : Ends) (x : Ptr) (ys zs : List Ptr)
    → IsQueue m q (ys ++ x ∷ zs)
    → Removed m (ys ++ zs) (queue_pop_intermediate_element m q x)
remove-IsQueue m q x [] [] h = remove_only m q x h
remove-IsQueue m q x [] (z ∷ zs) h = remove_front m q x z zs h
remove-IsQueue m q x (y ∷ ys) [] h =
    subst (λ l. Removed m l (queue_pop_intermediate_element m q x)) (sym (append-nil (y ∷ ys)))
      (remove_back m q x y ys h)
remove-IsQueue m q x (y ∷ ys) (z ∷ zs) h = remove_inner m q x y z ys zs h
