-- ===== src/Tests/Types.antt =====
-- The first struct type and the first conversion function that are registered.
use logxcontroll_v.Base.{◌≡◌, refl, none, some, ◌>>=◌, [], ◌∷◌, ◌==◌, if◌then◌else◌, pos, Ptr, null}
use logxcontroll_v.Arrays.Pnt.{
  array_pnt_append_element, array_pnt_population, append_from, array_pnt_last_index,
}
use logxcontroll_v.Registry.Structs.{StructEntry, Structs, lxc_register_struct_type}
use logxcontroll_v.Registry.Conversions.{
  CastTo, lxc_get_conversion_function, lxc_register_conversion_function,
}

abbrev no_structs : Structs
no_structs = record { registered = none; descriptor = λ q. record { ordinal = pos 0; name = none } }

abbrev an_entry : Ptr → StructEntry
an_entry q = record { field_name = some "x"; type = 7; subtype = pos 0 }

-- The struct type "point" with one entry, behind the placeholder at 30, is not registered: the search reads
-- behind the placeholder.
point_read :
    lxc_register_struct_type 99 an_entry 30 31 (some "point") (some (40 ∷ null ∷ [])) no_structs
    ≡ none
unfolding lxc_register_struct_type array_pnt_population array_pnt_append_element append_from
    array_pnt_last_index
point_read = refl

-- The entry at 45 is of the conversion to the type 8 by the function at 46, and at 46 stands nothing known.
abbrev the_cast : Ptr → CastTo
the_cast q =
    if q == 45 then record { to = 8; cast_function = 46 } else record { to = 3; cast_function = 4 }

found : lxc_get_conversion_function the_cast (λ q. some (45 ∷ null ∷ [])) 7 8 ≡ some 46
unfolding lxc_get_conversion_function
found = refl

-- After the function at 46 is registered it is not found.
not_found :
    (lxc_register_conversion_function 99 the_cast (λ q. none) 7 8 46 >>= λ (status, cast_to).
    lxc_get_conversion_function the_cast cast_to 7 8)
    ≡ some null
unfolding array_pnt_append_element append_from lxc_register_conversion_function
    lxc_get_conversion_function
not_found = refl
