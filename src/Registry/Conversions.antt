-- ===== src/Registry/Conversions.antt =====
-- The conversion functions of core/accounting.c, which the field `cast_to` of a signal holds.
use logxcontroll_v.Base.{
  Option, none, some, List, [], ◌∷◌, ◌==◌, if◌then◌else◌, ◌||◌, ℤ, pos, Ptr, null, ◌>>=◌,
}
use logxcontroll_v.Arrays.Pnt.{array_pnt_append_element}
use logxcontroll_v.Registry.{lxc_error_entity_already_registered}

-- struct lxc_cast_to
pub record CastTo : Type 0 where
  pub to : Ptr
  pub cast_function : Ptr

-- The loop over the entries, which `entry` reads at their addresses.
unfoldable pub find_cast : (Ptr → CastTo) → List Ptr → Ptr → Option Ptr
find_cast entry [] to = none
find_cast entry (c ∷ cast) to =
    let rest = find_cast entry cast to in
    if c == null
    then some null
    else if to == (entry c).to
    then some (entry c).cast_function
    else rest

unfoldable pub lxc_get_conversion_function :
    (Ptr → CastTo) → (Ptr → Option (List Ptr)) → Ptr → Ptr → Option Ptr
unfolding find_cast
lxc_get_conversion_function entry cast_to from to =
    if from == null || to == null
    then some null
    else elim (cast_to from) [ none ↦ some null | some cast ↦ find_cast entry cast to ]

-- The function itself goes to the end of the entries.
unfoldable pub lxc_register_conversion_function :
    Ptr
    → (Ptr → CastTo)
    → (Ptr → Option (List Ptr))
    → Ptr
    → Ptr
    → Ptr
    → Option (ℤ × (Ptr → Option (List Ptr)))
unfolding lxc_get_conversion_function
lxc_register_conversion_function junk entry cast_to from to function =
    lxc_get_conversion_function entry cast_to from to >>= λ funct.
    if funct == null
    then if from == null
      then none
      else (array_pnt_append_element junk (cast_to from) function >>= λ (i, cast).
          some (pos 0, λ q. if from == q then cast else cast_to q))
    else some (lxc_error_entity_already_registered, cast_to)
