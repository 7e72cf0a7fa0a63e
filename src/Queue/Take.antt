-- ===== src/Queue/Take.antt =====
-- Taking an element from the head or from the tail of the queue.
use logxcontroll_v.Base.{
  ◌≡◌, ◌≢◌, refl, sym, ap, subst, List, [], ◌∷◌, ◌++◌, Option, some, ◌⊎◌, inl, inr, Ptr, null,
  ne→eqb,
}
use logxcontroll_v.Queue.{
  Links, Ends, pop_end, queue_pop_intermediate_element, queue_pop_tail_element,
  queue_pop_head_element,
}
use logxcontroll_v.Queue.Seg.{IsQueue, Unchanged, Seg-split}
use logxcontroll_v.Queue.Remove.{Removed, remove-IsQueue}
use mathlib.Core.List.{append-nil}

-- What taking from the head leaves behind.
abbrev pub HeadTaken : Links → Ends → List Ptr → Option (Ptr × Links × Ends) → Type 0
HeadTaken m q [] out = out ≡ some (null, m, q)
HeadTaken m q (x ∷ xs) out =
    (m' : Links) × (q' : Ends) × (out ≡ some (x, m', q')) × IsQueue m' q' xs × Unchanged m m' xs

-- What taking from the tail leaves behind.
abbrev pub TailTaken : Links → Ends → List Ptr → Option (Ptr × Links × Ends) → Type 0
TailTaken m q xs out =
    ((xs ≡ []) × (out ≡ some (null, m, q)))
    ⊎ ((ys : List Ptr) × (x : Ptr) × (m' : Links) × (q' : Ends) × (xs ≡ ys ++ x ∷ [])
        × (out ≡ some (x, m', q'))
        × IsQueue m' q' ys
        × Unchanged m m' ys)

-- The two functions at an end that is not NULL.
module _ (m m' : Links) (q q' : Ends) (x : Ptr) (nx : x ≢ null) where
  at_head :
      q.head ≡ x
      → queue_pop_intermediate_element m q x ≡ some (m', q')
      → queue_pop_head_element m q ≡ some (x, m', q')
  unfolding queue_pop_head_element
  at_head h eq =
      subst (λ c. pop_end m q c ≡ some (x, m', q')) (sym h) (rw (ne→eqb x null nx) (rw eq refl))

  at_tail :
      q.tail ≡ x
      → queue_pop_intermediate_element m q x ≡ some (m', q')
      → queue_pop_tail_element m q ≡ some (x, m', q')
  unfolding queue_pop_tail_element
  at_tail h eq =
      subst (λ c. pop_end m q c ≡ some (x, m', q')) (sym h) (rw (ne→eqb x null nx) (rw eq refl))

-- Taking from the head gives the first element, and the queue holds the others, with no link of a
-- pointer outside of these changed; an empty queue gives NULL and stays as it is.
pub pop_head-IsQueue :
    (m : Links) (q : Ends) (xs : List Ptr)
    → IsQueue m q xs
    → HeadTaken m q xs (queue_pop_head_element m q)
unfolding queue_pop_head_element
pop_head-IsQueue m q [] h = rw (h.0.0) refl
pop_head-IsQueue m q (x ∷ xs) h =
    let (m', q', eq, good, same) = remove-IsQueue m q x [] xs h in
    (m', q', at_head m m' q q' x h.0.1 h.0.0 eq, good, same)

snoc_view : (x : Ptr) (xs : List Ptr) → (ys : List Ptr) × (l : Ptr) × (x ∷ xs ≡ ys ++ l ∷ [])
snoc_view x [] = ([], x, refl)
snoc_view x (y ∷ xs) = let (ys, l, e) = snoc_view y xs in (x ∷ ys, l, ap (λ r. x ∷ r) e)

take_last :
    (m : Links) (q : Ends) (x : Ptr) (ys : List Ptr)
    → IsQueue m q (ys ++ x ∷ [])
    → (m' : Links) × (q' : Ends) × (queue_pop_tail_element m q ≡ some (x, m', q'))
      × IsQueue m' q' ys
      × Unchanged m m' ys
unfolding queue_pop_tail_element
take_last m q x ys h =
    let (k, r, front, back) = Seg-split m null q.head ys (x ∷ []) q.tail null h.0 in
    let (m', q', eq, good, same) =
      subst (λ l. Removed m l (queue_pop_intermediate_element m q x)) (append-nil ys)
        (remove-IsQueue m q x ys [] h) in
    (m', q', at_tail m m' q q' x back.1 back.3.1 eq, good, same)

-- Taking from the tail gives the last element, and the queue holds the ones in front of it, with no
-- link of a pointer outside of these changed; an empty queue gives NULL and stays as it is.
pub pop_tail-IsQueue :
    (m : Links) (q : Ends) (xs : List Ptr)
    → IsQueue m q xs
    → TailTaken m q xs (queue_pop_tail_element m q)
unfolding queue_pop_tail_element
pop_tail-IsQueue m q [] h = inl (refl, rw (h.0.1) refl)
pop_tail-IsQueue m q (x ∷ xs) h =
    let (ys, l, e) = snoc_view x xs in
    let (m', q', eq, good, same) = take_last m q l ys (subst (λ c. IsQueue m q c) e h) in
    inr (ys, l, m', q', e, eq, good, same)
