-- ===== src/Pool/Shape.antt =====
-- The well-formed pool: two queues that share no thread, with every free thread idle.
use logxcontroll_v.Base.{◌≡◌, sym, ◌∙◌, subst, List, [], ◌∷◌, ◌++◌, Ptr, null, ne→eqb}
use logxcontroll_v.Queue.{Links, Ends}
use logxcontroll_v.Queue.Seg.{NotIn, Seg, IsQueue, Unchanged, NotIn-append, NotIn-front, NotIn-back}
use logxcontroll_v.Rerun.{Rrt, rrt_idle}
use logxcontroll_v.Pool.{WorkerPool, update_thread}

abbrev pub Apart : List Ptr → List Ptr → Type 0
Apart [] ys = Unit {0}
Apart (x ∷ xs) ys = NotIn x ys × Apart xs ys

abbrev pub AllIdle : (Ptr → Rrt) → List Ptr → Type 0
AllIdle thread [] = Unit {0}
AllIdle thread (x ∷ xs) = ((thread x).status ≡ rrt_idle) × AllIdle thread xs

pub record Shape (w : WorkerPool) (fs bs : List Ptr) : Type 0 where
  pub free_queue : IsQueue w.links w.free fs
  pub busy_queue : IsQueue w.links w.busy bs
  pub apart : Apart fs bs
  pub idle : AllIdle w.thread fs

-- A segment survives changes to links of pointers outside of it.
Seg-frame :
    (m m' : Links) (b p : Ptr) (ys xs : List Ptr) (l q : Ptr)
    → Unchanged m m' xs
    → Apart ys xs
    → Seg m b p ys l q
    → Seg m' b p ys l q
Seg-frame m m' b p [] xs l q u a s = s
Seg-frame m m' b p (y ∷ ys) xs l q u a s =
    let (prev, next) = u y a.0 in
    (
      s.0,
      s.1,
      prev ∙ s.2,
      subst (λ n. Seg m' y n ys l q) (sym next) (Seg-frame m m' y (m.next y) ys xs l q u a.1 s.3),
    )

pub IsQueue-frame :
    (m m' : Links) (q : Ends) (ys xs : List Ptr)
    → Unchanged m m' xs
    → Apart ys xs
    → IsQueue m q ys
    → IsQueue m' q ys
IsQueue-frame m m' q ys xs u a h = (Seg-frame m m' null q.head ys xs q.tail null u a h.0, h.1)

pub AllIdle-other :
    (t : Ptr → Rrt) (x : Ptr) (r : Rrt) (fs : List Ptr)
    → NotIn x fs
    → AllIdle t fs
    → AllIdle (update_thread t x r) fs
AllIdle-other t x r [] n h = tt
AllIdle-other t x r (y ∷ fs) n h = (rw (ne→eqb x y n.0) h.0, AllIdle-other t x r fs n.1 h.1)

pub AllIdle-front :
    (t : Ptr → Rrt) (xs ys : List Ptr) → AllIdle t (xs ++ ys) → AllIdle t xs × AllIdle t ys
AllIdle-front t [] ys h = (tt, h)
AllIdle-front t (x ∷ xs) ys h = let (a, b) = AllIdle-front t xs ys h.1 in ((h.0, a), b)

pub AllIdle-append :
    (t : Ptr → Rrt) (xs ys : List Ptr) → AllIdle t xs → AllIdle t ys → AllIdle t (xs ++ ys)
AllIdle-append t [] ys a b = b
AllIdle-append t (x ∷ xs) ys a b = (a.0, AllIdle-append t xs ys a.1 b)

pub Apart-left : (xs ys zs : List Ptr) → Apart (xs ++ ys) zs → Apart xs zs × Apart ys zs
Apart-left [] ys zs a = (tt, a)
Apart-left (x ∷ xs) ys zs a = let (b, c) = Apart-left xs ys zs a.1 in ((a.0, b), c)

pub Apart-append_left : (xs ys zs : List Ptr) → Apart xs zs → Apart ys zs → Apart (xs ++ ys) zs
Apart-append_left [] ys zs a b = b
Apart-append_left (x ∷ xs) ys zs a b = (a.0, Apart-append_left xs ys zs a.1 b)

pub Apart-append_right : (xs ys zs : List Ptr) → Apart xs ys → Apart xs zs → Apart xs (ys ++ zs)
Apart-append_right [] ys zs a b = tt
Apart-append_right (x ∷ xs) ys zs a b =
    (NotIn-append x ys zs a.0 b.0, Apart-append_right xs ys zs a.1 b.1)

pub Apart-right : (xs ys zs : List Ptr) → Apart xs (ys ++ zs) → Apart xs ys × Apart xs zs
Apart-right [] ys zs a = (tt, tt)
Apart-right (x ∷ xs) ys zs a =
    let (b, c) = Apart-right xs ys zs a.1 in
    ((NotIn-front x ys zs a.0, b), (NotIn-back x ys zs a.0, c))

-- Apartness from one pointer, both ways round.
pub Apart-single : (xs : List Ptr) (x : Ptr) → NotIn x xs → Apart xs (x ∷ [])
Apart-single [] x n = tt
Apart-single (y ∷ xs) x n = (((λ e. n.0 (sym e)), tt), Apart-single xs x n.1)

pub NotIn-of_Apart : (xs : List Ptr) (x : Ptr) → Apart xs (x ∷ []) → NotIn x xs
NotIn-of_Apart [] x a = tt
NotIn-of_Apart (y ∷ xs) x a = ((λ e. a.0.0 (sym e)), NotIn-of_Apart xs x a.1)

pub Apart-sym : (xs ys : List Ptr) → Apart xs ys → Apart ys xs
Apart-sym xs [] a = tt
Apart-sym xs (y ∷ ys) a =
    let (b, c) = Apart-right xs (y ∷ []) ys a in (NotIn-of_Apart xs y b, Apart-sym xs ys c)
