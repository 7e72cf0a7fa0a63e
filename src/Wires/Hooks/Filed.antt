-- ===== src/Wires/Hooks/Filed.antt =====
-- A hook that was added is found: lxc_wire_add_debug_hook and lxc_wire_get_debug_hook of core/facet.c.
use logxcontroll_v.Base.{◌≡◌, ◌≢◌, ◌⊎◌, Option, some, List, [], ◌∷◌, ◌++◌, ℤ, pos, Ptr, null}
use Prim.Native.String.{String}
use logxcontroll_v.Registry.{search, lxc_error_entity_by_name_already_registered}
use logxcontroll_v.Registry.Agree.{Agree}
use logxcontroll_v.Registry.Unique.{Fresh, Filed}
use logxcontroll_v.Wires.{update}
use logxcontroll_v.Wires.Hooks.{KeyValue, key_of, lxc_wire_get_debug_hook}

-- The entries with the new one for the hook.
abbrev pub with_entry : (Ptr → KeyValue) → Ptr → String → Ptr → Ptr → KeyValue
with_entry entry fresh id hook = update entry fresh (record { key = some id; value = hook })

-- What a hook that is set gives: the error where a hook of that id is there, which the search finds, and the
-- new entry where no hook has it.
abbrev pub HookAdded :
    (Ptr → KeyValue)
    → Option (List Ptr)
    → List Ptr
    → Ptr
    → String
    → Ptr
    → Option (ℤ × (Ptr → KeyValue) × Option (List Ptr))
    → Type 0
HookAdded entry hooks xs fresh id hook out =
    ((x : Ptr) × (search (key_of entry) hooks (some id) ≡ some x)
      × (x ≢ null)
      × (out ≡ some (lxc_error_entity_by_name_already_registered, entry, hooks)))
    ⊎ (Fresh (key_of entry) id xs
        × (hooks' : Option (List Ptr)) × (out
            ≡ some (pos 0, with_entry entry fresh id hook, hooks'))
        × Filed (key_of (with_entry entry fresh id hook)) hooks' (xs ++ fresh ∷ [])
        × (lxc_wire_get_debug_hook (with_entry entry fresh id hook) hooks' (some id) ≡ some hook))
