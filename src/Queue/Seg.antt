-- ===== src/Queue/Seg.antt =====
-- Segments of a doubly linked list, and what a write to a field does to them.
use logxcontroll_v.Base.{
  ◌≡◌, ◌≢◌, refl, sym, ◌∙◌, subst, subst₂, List, [], ◌∷◌, ◌++◌, Ptr, null, ne→eqb, eqb_refl,
}
use logxcontroll_v.Queue.{Links, Ends, update, set_prev, set_next}

abbrev pub NotIn : Ptr → List Ptr → Type 0
NotIn p [] = Unit {0}
NotIn p (x ∷ xs) = (p ≢ x) × NotIn p xs

abbrev pub Distinct : List Ptr → Type 0
Distinct [] = Unit {0}
Distinct (x ∷ xs) = NotIn x xs × Distinct xs

-- From `p` the links run through `xs` and on to `q`; in front of `xs` stands `b`, and `l` is the
-- last of them, or `b` where there is none.
abbrev pub Seg : Links → Ptr → Ptr → List Ptr → Ptr → Ptr → Type 0
Seg m b p [] l q = (p ≡ q) × (l ≡ b)
Seg m b p (x ∷ xs) l q = (p ≡ x) × (x ≢ null) × (m.prev x ≡ b) × Seg m x (m.next x) xs l q

-- The queue's elements, from head to tail, once each.
abbrev pub IsQueue : Links → Ends → List Ptr → Type 0
IsQueue m e xs = Seg m null e.head xs e.tail null × Distinct xs

-- The fields of every pointer outside of `xs` are the same.
abbrev pub Unchanged : Links → Links → List Ptr → Type 0
Unchanged m m' xs = (q : Ptr) → NotIn q xs → (m'.prev q ≡ m.prev q) × (m'.next q ≡ m.next q)

pub update_self : (f : Ptr → Ptr) (p v : Ptr) → update f p v p ≡ v
update_self f p v = rw (eqb_refl p) refl

pub update_other : (f : Ptr → Ptr) (p v q : Ptr) → p ≢ q → update f p v q ≡ f q
update_other f p v q h = rw (ne→eqb p q h) refl

pub Seg-set_next :
    (m : Links) (b p : Ptr) (xs : List Ptr) (l q c v : Ptr)
    → NotIn c xs
    → Seg m b p xs l q
    → Seg (set_next m c v) b p xs l q
Seg-set_next m b p [] l q c v n s = s
Seg-set_next m b p (x ∷ xs) l q c v n s = (
  s.0,
  s.1,
  s.2,
  rw (update_other m.next c v x n.0) (Seg-set_next m x (m.next x) xs l q c v n.1 s.3),
)

pub Seg-set_prev :
    (m : Links) (b p : Ptr) (xs : List Ptr) (l q c v : Ptr)
    → NotIn c xs
    → Seg m b p xs l q
    → Seg (set_prev m c v) b p xs l q
Seg-set_prev m b p [] l q c v n s = s
Seg-set_prev m b p (x ∷ xs) l q c v n s =
    (s.0, s.1, update_other m.prev c v x n.0 ∙ s.2, Seg-set_prev m x (m.next x) xs l q c v n.1 s.3)

-- A pointer outside of a segment that is not empty is not its last element.
pub Seg-last_ne :
    (m : Links) (b p x : Ptr) (xs : List Ptr) (l q c : Ptr)
    → NotIn c (x ∷ xs)
    → Seg m b p (x ∷ xs) l q
    → c ≢ l
Seg-last_ne m b p x [] l q c n s = λ e. n.0 (e ∙ s.3.1)
Seg-last_ne m b p x (y ∷ xs) l q c n s = Seg-last_ne m x (m.next x) y xs l q c n.1 s.3

-- The last element of a segment that is not empty takes another successor.
pub Seg-relink_last :
    (m : Links) (b p x : Ptr) (xs : List Ptr) (l q v : Ptr)
    → Distinct (x ∷ xs)
    → Seg m b p (x ∷ xs) l q
    → Seg (set_next m l v) b p (x ∷ xs) l v
Seg-relink_last m b p x [] l q v d s = (s.0, s.1, s.2, (rw (s.3.1) (update_self m.next x v), s.3.1))
Seg-relink_last m b p x (y ∷ xs) l q v d s = (
  s.0,
  s.1,
  s.2,
  rw (update_other m.next l v x (λ e. Seg-last_ne m x (m.next x) y xs l q x d.0 s.3 (sym e)))
      (Seg-relink_last m x (m.next x) y xs l q v d.1 s.3),
)

-- The first element of a segment that is not empty takes another predecessor.
pub Seg-relink_first :
    (m : Links) (b p x : Ptr) (xs : List Ptr) (l q v : Ptr)
    → Distinct (x ∷ xs)
    → Seg m b p (x ∷ xs) l q
    → Seg (set_prev m p v) v p (x ∷ xs) l q
Seg-relink_first m b p x xs l q v d s = (
  s.0,
  s.1,
  subst (λ c. update m.prev c v x ≡ v) (sym s.0) (update_self m.prev x v),
  Seg-set_prev m x (m.next x) xs l q p v (subst (λ c. NotIn c xs) (sym s.0) d.0) s.3,
)

-- A segment over two lists is two segments that meet.
pub Seg-split :
    (m : Links) (b p : Ptr) (xs ys : List Ptr) (l q : Ptr)
    → Seg m b p (xs ++ ys) l q
    → (k : Ptr) × (r : Ptr) × Seg m b p xs k r × Seg m k r ys l q
Seg-split m b p [] ys l q s = (b, p, (refl, refl), s)
Seg-split m b p (x ∷ xs) ys l q s =
    let (k, r, front, back) = Seg-split m x (m.next x) xs ys l q s.3 in
    (k, r, (s.0, s.1, s.2, front), back)

pub Seg-join :
    (m : Links) (b p : Ptr) (xs ys : List Ptr) (k r l q : Ptr)
    → Seg m b p xs k r
    → Seg m k r ys l q
    → Seg m b p (xs ++ ys) l q
Seg-join m b p [] ys k r l q f s = subst₂ (λ c d. Seg m c d ys l q) f.1 (sym f.0) s
Seg-join m b p (x ∷ xs) ys k r l q f s =
    (f.0, f.1, f.2, Seg-join m x (m.next x) xs ys k r l q f.3 s)

pub NotIn-front : (p : Ptr) (xs ys : List Ptr) → NotIn p (xs ++ ys) → NotIn p xs
NotIn-front p [] ys n = tt
NotIn-front p (x ∷ xs) ys n = (n.0, NotIn-front p xs ys n.1)

pub NotIn-back : (p : Ptr) (xs ys : List Ptr) → NotIn p (xs ++ ys) → NotIn p ys
NotIn-back p [] ys n = n
NotIn-back p (x ∷ xs) ys n = NotIn-back p xs ys n.1

pub NotIn-append : (p : Ptr) (xs ys : List Ptr) → NotIn p xs → NotIn p ys → NotIn p (xs ++ ys)
NotIn-append p [] ys a b = b
NotIn-append p (x ∷ xs) ys a b = (a.0, NotIn-append p xs ys a.1 b)

-- In a list of distinct pointers around `x`, `x` stands in neither part.
pub Distinct-middle :
    (x : Ptr) (xs ys : List Ptr)
    → Distinct (xs ++ x ∷ ys)
    → NotIn x xs × NotIn x ys × Distinct (xs ++ ys)
Distinct-middle x [] ys d = (tt, d.0, d.1)
Distinct-middle x (y ∷ xs) ys d =
    let (a, b, c) = Distinct-middle x xs ys d.1 in
    let away : y ≢ x = (NotIn-back y xs (x ∷ ys) d.0).0 in
    (
      ((λ e. away (sym e)), a),
      b,
      (NotIn-append y xs ys (NotIn-front y xs (x ∷ ys) d.0) (NotIn-back y xs (x ∷ ys) d.0).1, c),
    )

-- Elements of the front part do not stand in the back part.
pub Distinct-last :
    (m : Links) (b p x : Ptr) (xs ys : List Ptr) (l q : Ptr)
    → Distinct (x ∷ xs ++ ys)
    → Seg m b p (x ∷ xs) l q
    → NotIn l ys
Distinct-last m b p x [] ys l q d s = subst (λ c. NotIn c ys) (sym s.3.1) d.0
Distinct-last m b p x (y ∷ xs) ys l q d s = Distinct-last m x (m.next x) y xs ys l q d.1 s.3

pub Distinct-first : (x : Ptr) (xs ys : List Ptr) → Distinct (xs ++ x ∷ ys) → NotIn x xs
Distinct-first x xs ys d = (Distinct-middle x xs ys d).0

pub Distinct-front : (xs ys : List Ptr) → Distinct (xs ++ ys) → Distinct xs
Distinct-front [] ys d = tt
Distinct-front (x ∷ xs) ys d = (NotIn-front x xs ys d.0, Distinct-front xs ys d.1)

pub Distinct-back : (xs ys : List Ptr) → Distinct (xs ++ ys) → Distinct ys
Distinct-back [] ys d = d
Distinct-back (x ∷ xs) ys d = Distinct-back xs ys d.1
