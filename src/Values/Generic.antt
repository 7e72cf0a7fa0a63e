-- ===== src/Values/Generic.antt =====
-- The generic values of core/builtins/gate_generic.c, and core/utils/lxc_utils.c lxc_value_size. A
-- value is a cell of a memory of values, and its data the bytes behind it.
use logxcontroll_v.Base.{
  ℕ, zero, suc, ◌≡◌, refl, Option, none, some, false, List, [], ◌∷◌, ◌==◌, if◌then◌else◌, arith,
  length, replicate, length-replicate, eqb_refl, ℤ, pos, Ptr, null, ◌>>=◌,
}

-- struct lxc_generic_value; `type` and `subtype_info` are those of its base.
pub record GenericValue : Type 0 where
  pub type : Ptr
  pub subtype_info : ℤ
  pub refcount : ℤ
  pub size : ℕ
  pub bytes : List ℕ

abbrev pub put : (Ptr → GenericValue) → Ptr → GenericValue → Ptr → GenericValue
put heap p v q = if p == q then v else heap q

-- `memcpy` of a number of bytes; `none` behind the end of either.
unfoldable pub memcpy : ℕ → List ℕ → List ℕ → Option (List ℕ)
memcpy zero dst src = some dst
memcpy (suc n) [] src = none
memcpy (suc n) (a ∷ dst) [] = none
memcpy (suc n) (a ∷ dst) (b ∷ src) = memcpy n dst src >>= λ r. some (b ∷ r)

-- `new` is the address that malloc_zero gives.
unfoldable pub lxc_create_generic_value : (Ptr → GenericValue) → Ptr → Ptr → ℕ → Ptr → GenericValue
lxc_create_generic_value heap new type size = put heap new (record {
  type = type;
  subtype_info = pos 0;
  refcount = pos 1;
  size = size;
  bytes = replicate size 0;
})

unfoldable pub generic_value_clone : (Ptr → GenericValue) → Ptr → Ptr → Option (Ptr → GenericValue)
unfolding lxc_create_generic_value memcpy
generic_value_clone heap new dest =
    let val : GenericValue = heap dest in
    let created : Ptr → GenericValue = lxc_create_generic_value heap new val.type val.size in
    memcpy val.size (created new).bytes (created dest).bytes >>= λ copied.
    some (put created new (record (created new) { bytes = copied }))

unfoldable pub generic_value_size : (Ptr → GenericValue) → Ptr → ℕ
generic_value_size heap dest = (heap dest).size

-- `size` is the operation of the value's behavior, `none` for NULL.
unfoldable pub lxc_value_size : (Ptr → Option (Ptr → ℕ)) → Ptr → ℕ
lxc_value_size size val = if val == null then 0 else elim (size val) [ none ↦ 0 | some f ↦ f val ]

memcpy_all :
    (n : ℕ) (dst src : List ℕ) → length dst ≡ n → length src ≡ n → memcpy n dst src ≡ some src
unfolding memcpy
memcpy_all zero [] [] d s = refl
memcpy_all zero [] (b ∷ src) d s = absurd (omega arith)
memcpy_all zero (a ∷ dst) src d s = absurd (omega arith)
memcpy_all (suc n) [] src d s = absurd (omega arith)
memcpy_all (suc n) (a ∷ dst) [] d s = absurd (omega arith)
memcpy_all (suc n) (a ∷ dst) (b ∷ src) d s =
    rw (memcpy_all n dst src (omega arith) (omega arith)) refl

-- Cloning a value whose data has as many bytes as its size to another address succeeds: the new value
-- has the type, the size and the bytes of the old one, the count 1 and the subtype 0, and every other
-- value is as it was.
clone-copy :
    (heap : Ptr → GenericValue) (new dest : Ptr)
    → (new == dest) ≡ false
    → length (heap dest).bytes ≡ (heap dest).size
    → (heap' : Ptr → GenericValue) × (generic_value_clone heap new dest ≡ some heap')
      × (heap' new ≡ record (heap dest) { subtype_info = pos 0; refcount = pos 1 })
      × ((q : Ptr) → (new == q) ≡ false → heap' q ≡ heap q)
unfolding generic_value_clone lxc_create_generic_value
clone-copy heap new dest apart full = (
  put (lxc_create_generic_value heap new (heap dest).type (heap dest).size) new
      (record (heap dest) { subtype_info = pos 0; refcount = pos 1 }),
  rw
      (
        apart,
        eqb_refl new,
        memcpy_all (heap dest).size (replicate (heap dest).size 0) (heap dest).bytes
            (length-replicate (heap dest).size 0) full,
      )
      refl,
  rw (eqb_refl new) refl,
  λ q e. rw e refl,
)
