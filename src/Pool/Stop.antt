-- ===== src/Pool/Stop.antt =====
-- wp_shutdown asks every thread of the pool once.
use logxcontroll_v.Base.{
  ℕ, zero, suc, ◌≡◌, ◌≤◌, refl, sym, ◌∙◌, ap, some, Bool, List, [], ◌∷◌, pos, Ptr, null, length,
  arith, ne→eqb, eqb_refl,
}
use logxcontroll_v.Queue.{Links}
use logxcontroll_v.Queue.Seg.{NotIn, Distinct, Seg}
use logxcontroll_v.Rerun.{Rrt, rrt_graceful_shutdown}
use logxcontroll_v.Pool.{
  WorkerPool, wp_available, wp_shutting_down, update_thread, shutdown_all, shutdown_by, wp_shutdown,
}
use logxcontroll_v.Pool.Shape.{Shape, Apart, Apart-sym, Apart-single}

-- Each thread of the list was asked once to shut down.
abbrev pub AllAsked : (ℕ → Bool) → (Ptr → Rrt) → (Ptr → Rrt) → List Ptr → Type 0
AllAsked taken t t' [] = Unit {0}
AllAsked taken t t' (x ∷ xs) =
    (t' x ≡ (rrt_graceful_shutdown taken (t x)).1) × AllAsked taken t t' xs

-- The others are as before.
abbrev pub SameOutside : (Ptr → Rrt) → (Ptr → Rrt) → List Ptr → Type 0
SameOutside t t' xs = (q : Ptr) → NotIn q xs → t' q ≡ t q

AllAsked-before :
    (taken : ℕ → Bool) (s t t' : Ptr → Rrt) (ys xs : List Ptr)
    → SameOutside s t ys
    → Apart xs ys
    → AllAsked taken t t' xs
    → AllAsked taken s t' xs
AllAsked-before taken s t t' ys [] o a h = tt
AllAsked-before taken s t t' ys (x ∷ xs) o a h = (
  h.0 ∙ ap (λ r. (rrt_graceful_shutdown taken r).1) (o x a.0),
  AllAsked-before taken s t t' ys xs o a.1 h.1,
)

AllAsked-after :
    (taken : ℕ → Bool) (s t t' : Ptr → Rrt) (ys xs : List Ptr)
    → SameOutside t t' ys
    → Apart xs ys
    → AllAsked taken s t xs
    → AllAsked taken s t' xs
AllAsked-after taken s t t' ys [] o a h = tt
AllAsked-after taken s t t' ys (x ∷ xs) o a h =
    (o x a.0 ∙ h.0, AllAsked-after taken s t t' ys xs o a.1 h.1)

pub shutdown_all-AllAsked :
    (taken : ℕ → Bool) (m : Links) (xs : List Ptr) (n : ℕ) (t : Ptr → Rrt) (b p l : Ptr)
    → Seg m b p xs l null
    → Distinct xs
    → length xs ≤ n
    → (t' : Ptr → Rrt) × (shutdown_all n taken m t p ≡ some t')
      × AllAsked taken t t' xs
      × SameOutside t t' xs
unfolding shutdown_all
shutdown_all-AllAsked taken m [] zero t b p l s d h = (t, rw (s.0) refl, tt, λ q n. refl)
shutdown_all-AllAsked taken m [] (suc n) t b p l s d h = (t, rw (s.0) refl, tt, λ q n. refl)
shutdown_all-AllAsked taken m (x ∷ xs) zero t b p l s d h = absurd (omega (arith, h))
shutdown_all-AllAsked taken m (x ∷ xs) (suc n) t b p l s d h =
    let t₁ : Ptr → Rrt = update_thread t x (rrt_graceful_shutdown taken (t x)).1 in
    let (t', e, asked, same) =
      shutdown_all-AllAsked taken m xs n t₁ x (m.next x) l s.3 d.1 (omega (arith, h)) in
    (
      t',
      rw (s.0) (rw (ne→eqb x null s.1) e),
      (
        same x d.0 ∙ rw (eqb_refl x) refl,
        AllAsked-before taken t t₁ t' (x ∷ []) xs
            (one_changed t x (rrt_graceful_shutdown taken (t x)).1) (Apart-single xs x d.0) asked,
      ),
      λ q k. same q k.1 ∙ one_changed t x (rrt_graceful_shutdown taken (t x)).1 q (k.0, tt),
    )
  where
    one_changed : (f : Ptr → Rrt) (y : Ptr) (r : Rrt) → SameOutside f (update_thread f y r) (y ∷ [])
    one_changed f y r q k = rw (ne→eqb y q (λ e. k.0 (sym e))) refl

-- Shutting down a well-formed pool that is available, with fuel for the threads of either queue,
-- returns 0 and sets the status; every thread of either queue was asked once to shut down, from the
-- state it had, and everything else of the pool is as before.
pub shutdown-AllAsked :
    (n : ℕ) (taken : ℕ → Bool) (w : WorkerPool) (fs bs : List Ptr)
    → w.status ≡ wp_available
    → Shape w fs bs
    → length fs ≤ n
    → length bs ≤ n
    → (t' : Ptr → Rrt) × (wp_shutdown n taken w
        ≡ some (pos 0, record w { status = wp_shutting_down; thread = t' }))
      × AllAsked taken w.thread t' fs
      × AllAsked taken w.thread t' bs
unfolding wp_shutdown shutdown_by
shutdown-AllAsked n taken w fs bs st sh lf lb =
    let (t₁, e₁, asked₁, same₁) =
      shutdown_all-AllAsked taken w.links fs n w.thread null w.free.head w.free.tail sh.free_queue.0
        sh.free_queue.1 lf in
    let (t₂, e₂, asked₂, same₂) =
      shutdown_all-AllAsked taken w.links bs n t₁ null w.busy.head w.busy.tail sh.busy_queue.0
        sh.busy_queue.1 lb in
    (
      t₂,
      rw st (rw e₁ (rw e₂ refl)),
      AllAsked-after taken w.thread t₁ t₂ bs fs same₂ sh.apart asked₁,
      AllAsked-before taken w.thread t₁ t₂ fs bs same₁ (Apart-sym fs bs sh.apart) asked₂,
    )
