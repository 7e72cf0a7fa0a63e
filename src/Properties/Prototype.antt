-- ===== src/Properties/Prototype.antt =====
-- lxc_init_from_prototype of core/builtins/gate_generic.c for a larger object, and for one of the same size.
use logxcontroll_v.Base.{
  ℕ, zero, suc, ◌-◌, ◌≤◌, ◌<◌, ◌≡◌, refl, ap, none, some, true, false, List, [], ◌∷◌, arith, length,
  ltb, write,
}
use logxcontroll_v.Properties.{copy_bytes, zero_bytes, lxc_init_from_prototype}

write-none : (xs : List ℕ) (i v : ℕ) → length xs ≤ i → write xs i v ≡ none
write-none [] i v h = refl
write-none (x ∷ xs) zero v h = absurd (omega arith)
write-none (x ∷ xs) (suc i) v h = rw (write-none xs i v (omega arith)) refl

copied :
    (dst src : List ℕ)
    → length src ≤ length dst
    → (d : List ℕ) × (copy_bytes dst src ≡ some d) × (length d ≡ length dst)
unfolding copy_bytes
copied dst [] h = (dst, refl, refl)
copied [] (b ∷ src) h = absurd (omega arith)
copied (a ∷ dst) (b ∷ src) h =
    let (d, e, l) = copied dst src (omega arith) in (b ∷ d, rw e refl, ap suc l)

copied_all : (dst src : List ℕ) → length src ≡ length dst → copy_bytes dst src ≡ some src
unfolding copy_bytes
copied_all [] [] h = refl
copied_all (a ∷ dst) [] h = absurd (omega arith)
copied_all [] (b ∷ src) h = absurd (omega arith)
copied_all (a ∷ dst) (b ∷ src) h = rw (copied_all dst src (omega arith)) refl

-- For an object with more bytes than the prototype, of any contents, the initialization writes
-- behind the object.
larger_prototype-none :
    (dst src : List ℕ)
    → length src < length dst
    → lxc_init_from_prototype dst (length dst) src ≡ none
unfolding lxc_init_from_prototype zero_bytes
larger_prototype-none dst src h =
    let (d, e, l) = copied dst src (omega arith) in
    rw e (rw (longer) (from (length dst - length src) d l refl))
  where
    longer : ltb (length src) (length dst) ≡ true
    longer = ground arith

    from :
        (n : ℕ) (d : List ℕ)
        → length d ≡ length dst
        → n ≡ length dst - length src
        → zero_bytes d (length dst) n ≡ none
    from zero d l e = absurd (omega arith)
    from (suc n) d l e = rw (write-none d (length dst) 0 (omega arith)) refl

-- For an object of the size of the prototype, the initialization gives the bytes of the prototype.
pub same_prototype-some :
    (dst src : List ℕ)
    → length src ≡ length dst
    → lxc_init_from_prototype dst (length dst) src ≡ some src
unfolding lxc_init_from_prototype
same_prototype-some dst src h = rw (copied_all dst src h) (rw (equal) refl)
  where
    equal : ltb (length src) (length dst) ≡ false
    equal = ground arith
