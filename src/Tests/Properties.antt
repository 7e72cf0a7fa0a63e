-- ===== src/Tests/Properties.antt =====
-- A manager with no property that gets one, and prototypes of a few bytes.
use logxcontroll_v.Base.{ℕ, ◌≡◌, refl, Option, none, some, Ptr, null, ℤ, pos}
use Prim.Native.String.{String}
use logxcontroll_v.Properties.{Property, lxc_gate_set_property_value}

abbrev a_property : Property
a_property = record {
  name = some "P";
  label = some "a label";
  description = none;
  default_value = some "0";
  property_validator = 40;
}

abbrev no_properties : Ptr → Property
no_properties p = record {
  name = none;
  label = none;
  description = none;
  default_value = none;
  property_validator = null;
}

-- A gate that is told of a property that was set, and not of one that was refused.
abbrev set_x : Option String → Option String → String → ℕ → Option (ℤ × String × ℕ)
set_x name value error w = some (pos w, error, w)

told_once :
    lxc_gate_set_property_value (some set_x) (some (λ name w. 5)) 100 (some "x") none "" 0
    ≡ some (pos 0, "", 5)
unfolding lxc_gate_set_property_value
told_once = refl
