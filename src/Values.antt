-- ===== src/Values.antt =====
-- The reference counts of values: lxc_refdiff_value and its callers in core/facet.c, and the places that
-- hold a value, of core/utils/lxc_utils.c. The addition of the operation `ref_diff` is that of
-- core/builtins/gate_generic.c and core/builtins/builtin.c.
pub mod Counted
pub mod Places
pub mod Generic
use logxcontroll_v.Base.{
  ℕ, suc, ◌+◌, ◌-◌, Bool, true, false, List, [], ◌∷◌, ◌++◌, ◌==◌, leb, not, if◌then◌else◌, ℤ, pos,
  negsuc, Ptr, null,
}

-- Which values have the operations `ref_diff` and `free`.
pub record Operations : Type 0 where
  pub has_ref_diff : Ptr → Bool
  pub has_free : Ptr → Bool

-- The field `refcount` of every value, and the values that were given to `free`, in order.
pub record Values : Type 0 where
  pub refcount : Ptr → ℤ
  pub freed : List Ptr

abbrev pub update_count : (Ptr → ℤ) → Ptr → ℤ → Ptr → ℤ
update_count f p z q = if p == q then z else f q

abbrev pub add_ℤ : ℤ → ℤ → ℤ
add_ℤ (pos a) (pos b) = pos (a + b)
add_ℤ (pos a) (negsuc b) = if leb (suc b) a then pos (a - suc b) else negsuc (b - a)
add_ℤ (negsuc a) (pos b) = if leb (suc a) b then pos (b - suc a) else negsuc (a - b)
add_ℤ (negsuc a) (negsuc b) = negsuc (suc (a + b))

-- `ret <= 0`
abbrev pub none_left : ℤ → Bool
none_left (pos n) = n == 0
none_left (negsuc n) = true

-- generic_value_ref_diff
unfoldable pub ref_diff : Values → Ptr → ℤ → ℤ × Values
ref_diff v value count =
    let sum : ℤ = add_ℤ (v.refcount value) count in
    (sum, record v { refcount = update_count v.refcount value sum })

-- The part behind the call of `ref_diff`.
unfoldable pub release : Operations → Ptr → ℤ × Values → ℤ × Values
release ops value (ret, v) =
    if none_left ret
    then (ret, if ops.has_free value then record v { freed = v.freed ++ value ∷ [] } else v)
    else (ret, v)

unfoldable pub lxc_refdiff_value : Operations → Values → Ptr → ℤ → ℤ × Values
unfolding ref_diff release
lxc_refdiff_value ops v value count =
    if value == null
    then (pos 0, v)
    else if ops.has_ref_diff value
    then release ops value (ref_diff v value count)
    else (pos 1024, v)

unfoldable pub lxc_reference_value : Operations → Values → Ptr → ℤ × Values
unfolding lxc_refdiff_value
lxc_reference_value ops v value = lxc_refdiff_value ops v value (pos 1)

unfoldable pub lxc_unreference_value : Operations → Values → Ptr → ℤ × Values
unfolding lxc_refdiff_value
lxc_unreference_value ops v value = lxc_refdiff_value ops v value (negsuc 0)

-- The result, what `*internal_location` then holds, and the values.
unfoldable pub lxc_import_new_value : Operations → Values → Ptr → Ptr → Bool × Ptr × Values
unfolding lxc_reference_value lxc_unreference_value
lxc_import_new_value ops v new_val internal =
    if new_val == internal
    then (false, internal, v)
    else let v₁ : Values = if new_val == null then v else (lxc_reference_value ops v new_val).1 in
      let v₂ : Values =
        if internal == null then v₁ else (lxc_unreference_value ops v₁ internal).1 in
      (true, new_val, v₂)

unfoldable pub lxc_wipe_value : Operations → Values → Ptr → Bool × Ptr × Values
unfolding lxc_unreference_value
lxc_wipe_value ops v val =
    if val == null then (false, val, v) else (true, null, (lxc_unreference_value ops v val).1)
