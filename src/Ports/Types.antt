-- ===== src/Ports/Types.antt =====
-- The search for a managed type, and the registration of one.
use logxcontroll_v.Base.{
  ℕ, zero, suc, ◌<◌, ◌≤◌, ◌≡◌, ◌≢◌, null, refl, ap, inl, inr, Option, none, some, true, false, List,
  [], ◌∷◌, ◌++◌, ◌==◌, ltb, if◌then◌else◌, Bool-cases, Option-cases, length, get_elem?, set, ℤ, pos,
  negsuc, minus_one, eq_ℤ, Ptr, ◌>>=◌, arith, eqb→eq, eqb_refl, ltb→lt, lt→ltb,
}
use logxcontroll_v.Ports.{
  FullSignalType, PortManager, same_type, find_type, read_port, lxc_port_get_absindex,
}

abbrev pub entry : Ptr → ℤ → FullSignalType
entry signal subtype = record { signal = signal; subtype = subtype }

-- No type has a NULL signal, which would end the array.
abbrev pub Signals : List FullSignalType → Type 0
Signals [] = Unit {0}
Signals (t ∷ ts) = (t.signal ≢ null) × Signals ts

pub Signals-set :
    (ts : List FullSignalType) (k : ℕ) (s : Ptr) (u : ℤ)
    → s ≢ null
    → Signals ts
    → Signals (set ts k (entry s u))
Signals-set [] k s u ne h = h
Signals-set (t ∷ ts) zero s u ne h = (ne, h.1)
Signals-set (t ∷ ts) (suc k) s u ne h = (h.0, Signals-set ts k s u ne h.1)

pub Signals-append :
    (ts : List FullSignalType) (s : Ptr) (u : ℤ)
    → s ≢ null
    → Signals ts
    → Signals (ts ++ entry s u ∷ [])
Signals-append [] s u ne h = (ne, tt)
Signals-append (t ∷ ts) s u ne h = (h.0, Signals-append ts s u ne h.1)

-- The three arrays by type have one length, and each group has room for its ports.
pub record Aligned (m : PortManager) : Type 0 where
  pub signals : Signals m.managed_types
  pub types : length m.managed_types ≡ length m.to_abs_size
  pub groups : length m.to_abs ≡ length m.to_abs_size
  pub room :
      (i n : ℕ) (g : List ℕ)
      → get_elem? m.to_abs_size i ≡ some n
      → get_elem? m.to_abs i ≡ some g
      → n ≤ length g

eq_ℤ_refl : (a : ℤ) → eq_ℤ a a ≡ true
eq_ℤ_refl (pos a) = eqb_refl a
eq_ℤ_refl (negsuc a) = eqb_refl a

eq_ℤ→eq : (a b : ℤ) → eq_ℤ a b ≡ true → a ≡ b
eq_ℤ→eq (pos a) (pos b) h = ap pos (eqb→eq a b h)
eq_ℤ→eq (negsuc a) (negsuc b) h = ap negsuc (eqb→eq a b h)
eq_ℤ→eq (pos a) (negsuc b) h = cc
eq_ℤ→eq (negsuc a) (pos b) h = cc

same_type_refl : (s : Ptr) (u : ℤ) → same_type (entry s u) s u ≡ true
same_type_refl s u = rw (eqb_refl s) (eq_ℤ_refl u)

pub same_type→eq :
    (s s' : Ptr) (u u' : ℤ) → same_type (entry s u) s' u' ≡ true → (s ≡ s') × (u ≡ u')
same_type→eq s s' u u' h = elim (Bool-cases (s == s')) [
  | inl e ↦ (eqb→eq s s' e, eq_ℤ→eq u u' (rw e at h))
  | inr e ↦ absurd (absurd_of_false (rw e at h))
]
  where
    absurd_of_false : false ≡ true → ⊥
    absurd_of_false e = cc

pub find_type-lt :
    (ts : List FullSignalType) (s : Ptr) (u : ℤ) (i : ℕ) → find_type ts s u ≡ some i → i < length ts
unfolding find_type
find_type-lt [] s u i h = absurd (cc)
find_type-lt (t ∷ ts) s u i h = elim (Option-cases (find_type ts s u)) [
  | inl e ↦ ground (arith, e, h)
  | inr (k, e) ↦ ground (arith, e, h, find_type-lt ts s u k e)
]

pub find_type-set_self :
    (ts : List FullSignalType) (s : Ptr) (u : ℤ) (k : ℕ)
    → find_type ts s u ≡ none
    → k < length ts
    → find_type (set ts k (entry s u)) s u ≡ some k
unfolding find_type
find_type-set_self [] s u k h l = elim l [ ]
find_type-set_self (t ∷ ts) s u zero h l = rw (same_type_refl s u) refl
find_type-set_self (t ∷ ts) s u (suc k) h l = ground (arith, find_type-set_self ts s u k)

pub find_type-set_other :
    (ts : List FullSignalType) (s s' : Ptr) (u u' : ℤ) (j k : ℕ)
    → find_type ts s' u' ≡ some j
    → j ≢ k
    → same_type (entry s u) s' u' ≡ false
    → find_type (set ts k (entry s u)) s' u' ≡ some j
unfolding find_type
find_type-set_other [] s s' u u' j k h n d = h
find_type-set_other (t ∷ ts) s s' u u' j zero h n d = ground (arith, h, d)
find_type-set_other (t ∷ ts) s s' u u' j (suc k) h n d = elim (Option-cases (find_type ts s' u')) [
  | inl e ↦ ground (arith, e, h)
  | inr (i, e) ↦ ground (arith, e, h, find_type-set_other ts s s' u u' i k e)
]

pub find_type-append_self :
    (ts : List FullSignalType) (s : Ptr) (u : ℤ)
    → find_type ts s u ≡ none
    → find_type (ts ++ entry s u ∷ []) s u ≡ some (length ts)
unfolding find_type
find_type-append_self [] s u h = rw (same_type_refl s u) refl
find_type-append_self (t ∷ ts) s u h = ground (arith, find_type-append_self ts s u)

pub find_type-append_other :
    (ts : List FullSignalType) (t' : FullSignalType) (s' : Ptr) (u' : ℤ) (j : ℕ)
    → find_type ts s' u' ≡ some j
    → find_type (ts ++ t' ∷ []) s' u' ≡ some j
unfolding find_type
find_type-append_other [] t' s' u' j h = absurd (cc)
find_type-append_other (t ∷ ts) t' s' u' j h = elim (Option-cases (find_type ts s' u')) [
  | inl e ↦ ground (arith, e, h)
  | inr (k, e) ↦ ground (arith, e, h, find_type-append_other ts t' s' u' k e)
]

-- What the registration gives: the index of the type, in a manager that is aligned, with the same
-- names, and in which every port is found as before.
pub record Ensured (m m₁ : PortManager) (s : Ptr) (u : ℤ) (ti : ℕ) : Type 0 where
  pub found : find_type m₁.managed_types s u ≡ some ti
  pub aligned : Aligned m₁
  pub names : m₁.port_names ≡ m.port_names
  pub kept :
      (s' : Ptr) (u' : ℤ) (i a : ℕ)
      → lxc_port_get_absindex m s' u' i ≡ some (pos a)
      → lxc_port_get_absindex m₁ s' u' i ≡ some (pos a)

-- A port that is found stands in a group of its type, within the group's size.
pub record Located (m : PortManager) (s : Ptr) (u : ℤ) (i a : ℕ) : Type 0 where
  pub group : ℕ
  pub len : ℕ
  pub entries : List ℕ
  pub type_found : find_type m.managed_types s u ≡ some group
  pub size : get_elem? m.to_abs_size group ≡ some len
  pub below : i < len
  pub cells : get_elem? m.to_abs group ≡ some entries
  pub stored : get_elem? entries i ≡ some a

pub Located→absindex :
    (m : PortManager) (s : Ptr) (u : ℤ) (i a : ℕ)
    → Located m s u i a
    → lxc_port_get_absindex m s u i ≡ some (pos a)
unfolding lxc_port_get_absindex
Located→absindex m s u i a l =
    rw (l.type_found)
      (rw (l.size) (rw (lt→ltb i l.len l.below) (rw (l.cells) (rw (l.stored) refl))))

pub absindex→Located :
    (m : PortManager) (s : Ptr) (u : ℤ) (i a : ℕ)
    → lxc_port_get_absindex m s u i ≡ some (pos a)
    → Located m s u i a
unfolding lxc_port_get_absindex
absindex→Located m s u i a h = by_type (find_type m.managed_types s u) refl h
  where
    by_entry :
        (j n : ℕ) (g : List ℕ) (o : Option ℕ)
        → find_type m.managed_types s u ≡ some j
        → get_elem? m.to_abs_size j ≡ some n
        → i < n
        → get_elem? m.to_abs j ≡ some g
        → get_elem? g i ≡ o
        → (o >>= λ b. some (pos b)) ≡ some (pos a)
        → Located m s u i a
    by_entry j n g none f e l c d k = absurd (cc)
    by_entry j n g (some b) f e l c d k = record {
      group = j;
      len = n;
      entries = g;
      type_found = f;
      size = e;
      below = l;
      cells = c;
      stored = cc;
    }

    by_group :
        (j n : ℕ) (o : Option (List ℕ))
        → find_type m.managed_types s u ≡ some j
        → get_elem? m.to_abs_size j ≡ some n
        → i < n
        → get_elem? m.to_abs j ≡ o
        → (o >>= λ g. get_elem? g i >>= λ b. some (pos b)) ≡ some (pos a)
        → Located m s u i a
    by_group j n none f e l c k = absurd (cc)
    by_group j n (some g) f e l c k = by_entry j n g (get_elem? g i) f e l c refl k

    by_size :
        (j : ℕ) (o : Option ℕ)
        → find_type m.managed_types s u ≡ some j
        → get_elem? m.to_abs_size j ≡ o
        → (o >>= λ len.
            if ltb i len
            then (get_elem? m.to_abs j >>= λ g. get_elem? g i >>= λ b. some (pos b))
            else some minus_one)
          ≡ some (pos a)
        → Located m s u i a
    by_size j none f e k = absurd (cc)
    by_size j (some n) f e k = elim (Bool-cases (ltb i n)) [
      | inl b ↦ by_group j n (get_elem? m.to_abs j) f e (ltb→lt i n b) refl (rw b at k)
      | inr b ↦ absurd (negative (rw b at k))
    ]
      where
        negative : some minus_one ≡ some (pos a) → ⊥
        negative x = cc

    by_type :
        (o : Option ℕ)
        → find_type m.managed_types s u ≡ o
        → read_port m i o ≡ some (pos a)
        → Located m s u i a
    by_type none f k = absurd (cc)
    by_type (some j) f k = by_size j (get_elem? m.to_abs_size j) f refl k
