-- ===== src/Properties/Named.antt =====
-- A property that was added is found: lxc_add_property of core/builtins/gate_generic.c.
use logxcontroll_v.Base.{
  ◌≡◌, ◌≢◌, ◌⊎◌, Option, some, List, [], ◌∷◌, ◌++◌, ◌==◌, if◌then◌else◌, ℤ, pos, Ptr, null,
}
use Prim.Native.String.{String}
use logxcontroll_v.Registry.{search}
use logxcontroll_v.Registry.Unique.{Fresh, Filed}
use logxcontroll_v.Registry.Agree.{Agree}
use logxcontroll_v.Properties.{
  Property, name_of, generic_get_property_label, lxc_error_entity_already_registered,
}

-- The properties with the new one.
abbrev pub with_property : (Ptr → Property) → Ptr → Property → Ptr → Property
with_property property fresh new p = if fresh == p then new else property p

abbrev pub PropertyAdded :
    (Ptr → Property)
    → Option (List Ptr)
    → List Ptr
    → Ptr
    → Property
    → String
    → Option (ℤ × (Ptr → Property) × Option (List Ptr))
    → Type 0
PropertyAdded property props xs fresh new name out =
    ((x : Ptr) × (search (name_of property) props (some name) ≡ some x)
      × (x ≢ null)
      × (out ≡ some (lxc_error_entity_already_registered, property, props)))
    ⊎ (Fresh (name_of property) name xs
        × (props' : Option (List Ptr)) × (out
            ≡ some (pos 0, with_property property fresh new, props'))
        × Filed (name_of (with_property property fresh new)) props' (xs ++ fresh ∷ [])
        × (generic_get_property_label (with_property property fresh new) props' name
            ≡ some new.label))
