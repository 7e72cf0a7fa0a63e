-- ===== src/Queue.antt =====
-- The doubly linked queue of core/utils/utils.c. The `prev` and `next` fields of all elements are
-- two maps of memory, so that several queues, each with its own head and tail, share them.
pub mod Seg
pub mod Add
pub mod Remove
pub mod Take
use logxcontroll_v.Base.{
  Option, none, some, Bool, true, false, ◌==◌, if◌then◌else◌, Ptr, null, not, ◌>>=◌,
}

pub record Links : Type 0 where
  pub prev : Ptr → Ptr
  pub next : Ptr → Ptr

-- What `head` and `tail` point to.
pub record Ends : Type 0 where
  pub head : Ptr
  pub tail : Ptr

abbrev pub update : (Ptr → Ptr) → Ptr → Ptr → Ptr → Ptr
update f p v q = if p == q then v else f q

-- `p->prev = v` and `p->next = v`.
abbrev pub set_prev : Links → Ptr → Ptr → Links
set_prev m p v = record m { prev = update m.prev p v }

abbrev pub set_next : Links → Ptr → Ptr → Links
set_next m p v = record m { next = update m.next p v }

-- `none` is the fault of an access through NULL.
pub queue_add_element : Links → Ends → Ptr → Option (Links × Ends)
queue_add_element m e elem =
    if elem == null
    then none
    else let m₁ : Links = if e.head == null then set_prev m elem null else m in
      let h : Ptr = if e.head == null then elem else e.head in
      let m₂ : Links = set_next (set_prev m₁ elem e.tail) elem null in
      let m₃ : Links = if e.tail == null then m₂ else set_next m₂ e.tail elem in
      some (m₃, record { head = h; tail = elem })

-- The first branch: the element before takes the next one, or the head does.
unfoldable pub unlink_front : Links → Ends → Ptr → Links × Ends
unlink_front m e x =
    if m.prev x == null
    then (
      (if m.next x == null then m else set_prev m (m.next x) null),
      record e { head = m.next x },
    )
    else (set_next m (m.prev x) (m.next x), e)

-- The second branch: the element behind takes the one before, or the tail does.
unfoldable pub unlink_back : Links → Ends → Ptr → Links × Ends
unlink_back m e x =
    if m.next x == null
    then (
      (if m.prev x == null then m else set_next m (m.prev x) null),
      record e { tail = m.prev x },
    )
    else (set_prev m (m.next x) (m.prev x), e)

pub queue_pop_intermediate_element : Links → Ends → Ptr → Option (Links × Ends)
unfolding unlink_front unlink_back
queue_pop_intermediate_element m e x =
    if x == null then none else let (m₁, e₁) = unlink_front m e x in some (unlink_back m₁ e₁ x)

-- The common body of the two functions below, for the element `op` at the end.
unfoldable pub pop_end : Links → Ends → Ptr → Option (Ptr × Links × Ends)
pop_end m e op =
    if op == null
    then some (null, m, e)
    else (queue_pop_intermediate_element m e op >>= λ (m', e'). some (op, m', e'))

pub queue_pop_tail_element : Links → Ends → Option (Ptr × Links × Ends)
unfolding pop_end
queue_pop_tail_element m e = pop_end m e e.tail

pub queue_pop_head_element : Links → Ends → Option (Ptr × Links × Ends)
unfolding pop_end
queue_pop_head_element m e = pop_end m e e.head
