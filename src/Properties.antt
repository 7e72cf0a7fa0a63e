-- ===== src/Properties.antt =====
-- The properties of gates: the property managers and the prototypes of core/builtins/gate_generic.c, and
-- the functions of core/facet.c that call a gate for its properties. `none` is an access through NULL or
-- outside of an array; inside, and for a string, it is NULL.
pub mod Named
pub mod Prototype
use logxcontroll_v.Base.{
  ℕ, zero, suc, ◌<◌, Option, none, some, Bool, true, false, List, [], ◌∷◌, ◌==◌, leb, ltb, ◌-◌,
  length, if◌then◌else◌, write, ℤ, pos, negsuc, minus_one, eq_ℤ, Ptr, null, ◌>>=◌,
}
use Prim.Native.String.{String}
use logxcontroll_v.Arrays.Pnt.{array_pnt_append_element, array_pnt_population}
use logxcontroll_v.Ports.Access.{negated}
use logxcontroll_v.Registry.{search}

abbrev pub lxc_error_entity_already_registered : ℤ
lxc_error_entity_already_registered = negsuc 13

abbrev pub lxc_error_entity_not_found : ℤ
lxc_error_entity_not_found = negsuc 14

-- struct lxc_property; the validator stands for its function.
pub record Property : Type 0 where
  pub name : Option String
  pub label : Option String
  pub description : Option String
  pub default_value : Option String
  pub property_validator : Ptr

abbrev pub name_of : (Ptr → Property) → Ptr → Option String
name_of property p = (property p).name

-- The properties, and the array of the manager; `fresh` is the new property.
unfoldable pub lxc_add_property :
    Ptr
    → Ptr
    → (Ptr → Property)
    → Option (List Ptr)
    → Property
    → Option (ℤ × (Ptr → Property) × Option (List Ptr))
unfolding search
lxc_add_property junk fresh property props new =
    search (name_of property) props new.name >>= λ found.
    if found == null
    then (array_pnt_append_element junk props fresh >>= λ (i, props').
        some (pos 0, (λ p. if fresh == p then new else property p), props'))
    else some (lxc_error_entity_already_registered, property, props)

-- `arr[i] = props[i]->name` up to the first NULL.
unfoldable pub copy_names :
    (Ptr → Property) → List Ptr → ℕ → List (Option String) → Option (List (Option String))
copy_names property [] i arr = none
copy_names property (c ∷ props) i arr =
    if c == null
    then some arr
    else (write arr i (property c).name >>= λ arr'. copy_names property props (suc i) arr')

unfoldable pub generic_enumerate_properties :
    (Ptr → Property)
    → Option (List Ptr)
    → List (Option String)
    → ℕ
    → Option (ℤ × List (Option String))
unfolding copy_names negated
generic_enumerate_properties property props arr max_index = array_pnt_population props >>= λ popul.
    if popul == 0
    then some (pos 0, arr)
    else if leb max_index popul
    then some (negated popul, arr)
    else elim props [
      | none ↦ none
      | some a ↦ copy_names property a 0 arr >>= λ arr'. some (pos popul, arr')
    ]

-- NULL where no property has the name.
unfoldable pub generic_get_property_label :
    (Ptr → Property) → Option (List Ptr) → String → Option (Option String)
unfolding search
generic_get_property_label property props name =
    search (name_of property) props (some name) >>= λ found.
    some (if found == null then none else (property found).label)

unfoldable pub generic_get_property_description :
    (Ptr → Property) → Option (List Ptr) → String → Option (Option String)
unfolding search
generic_get_property_description property props name =
    search (name_of property) props (some name) >>= λ found.
    some (if found == null then none else (property found).description)

-- `W` is what validators read and change. `validate` is the call of a validator with the gate, the
-- direction (true to set), the address that `access` gives for the name, the name and the value; it
-- gives the result and what it wrote to `dst`.
module _ {W : Type 0} (access : Ptr → String → W → Ptr)
    (validate : Ptr → Ptr → Bool → Ptr → String → Option String → W → ℤ × String × W) where
  unfoldable pub generic_prop_operation :
      Ptr
      → (Ptr → Property)
      → Option (List Ptr)
      → Bool
      → String
      → Option String
      → String
      → W
      → Option (ℤ × String × W)
  unfolding search
  generic_prop_operation gate property props direction name value dst w =
      search (name_of property) props (some name) >>= λ found. some (
        if found == null
        then (lxc_error_entity_not_found, dst, w)
        else validate (property found).property_validator gate direction (access gate name w) name
            value w)

  -- generic_portb_propb_get_property_value and its twin of porti
  unfoldable pub generic_propb_get_property_value :
      Ptr → (Ptr → Property) → Option (List Ptr) → String → String → W → Option (ℤ × String × W)
  unfolding generic_prop_operation
  generic_propb_get_property_value gate property props name dst w =
      generic_prop_operation gate property props false name none dst w

  -- generic_portb_propb_set_property and its twin of porti
  unfoldable pub generic_propb_set_property :
      Ptr
      → (Ptr → Property)
      → Option (List Ptr)
      → String
      → Option String
      → String
      → W
      → Option (ℤ × String × W)
  unfolding generic_prop_operation
  generic_propb_set_property gate property props name value err w =
      generic_prop_operation gate property props true name value err w

-- `set` is the function set_property of the behavior, `none` for NULL, and `notify` what the execution
-- with the event that a property is modified does, `none` where the gate has no execution behavior.
module _ {W : Type 0}
    (set : Option (Option String → Option String → String → W → Option (ℤ × String × W)))
    (notify : Option (Option String → W → W)) where
  abbrev pub notified : Option String → W → W
  notified name w = elim notify [ none ↦ w | some f ↦ f name w ]

  unfoldable pub lxc_gate_set_property_value :
      Ptr → Option String → Option String → String → W → Option (ℤ × String × W)
  lxc_gate_set_property_value gate name value error w =
      if gate == null then some (minus_one, "", w) else elim set [
        | none ↦ some (minus_one, "", w)
        | some f ↦ f name value error w >>= λ (ret, error', w').
            some (ret, error', (if eq_ℤ ret (pos 0) then notified name w' else w'))
      ]

  -- The loop of setup_default_properties over the cells from some index on.
  unfoldable pub setup_loop : Ptr → (Ptr → Property) → List Ptr → String → W → Option W
  unfolding lxc_gate_set_property_value
  setup_loop gate property [] error w = none
  setup_loop gate property (c ∷ props) error w =
      if c == null
      then some w
      else (lxc_gate_set_property_value gate (property c).name (property c).default_value error w
          >>= λ (ret, error', w'). setup_loop gate property props error' w')

  unfoldable pub setup_default_properties :
      Ptr → (Ptr → Property) → Option (List Ptr) → String → W → Option W
  unfolding setup_loop
  setup_default_properties gate property props error w = elim props [
    | none ↦ some w
    | some a ↦ setup_loop gate property a error w
  ]

-- lxc_gate_get_property_label of core/facet.c, and lxc_gate_get_property_description
unfoldable pub lxc_gate_get_property_text :
    Ptr → Option (String → Option (Option String)) → String → Option (Option String)
lxc_gate_get_property_text gate text_of name =
    if gate == null then some none else elim text_of [ none ↦ some none | some f ↦ f name ]

unfoldable pub lxc_gate_enumerate_properties :
    Ptr
    → Option (List (Option String) → ℕ → Option (ℤ × List (Option String)))
    → List (Option String)
    → ℕ
    → Option (ℤ × List (Option String))
lxc_gate_enumerate_properties gate enumerate arr max_length =
    if gate == null
    then some (pos 0, arr)
    else elim enumerate [ none ↦ some (pos 0, arr) | some f ↦ f arr max_length ]

-- `memcpy(dst, src, n)` for an object of the bytes `dst`.
unfoldable pub copy_bytes : List ℕ → List ℕ → Option (List ℕ)
copy_bytes dst [] = some dst
copy_bytes [] (b ∷ src) = none
copy_bytes (a ∷ dst) (b ∷ src) = copy_bytes dst src >>= λ r. some (b ∷ r)

-- `memset` of `n` zeros from an offset on; a write behind the object is a fault.
unfoldable pub zero_bytes : List ℕ → ℕ → ℕ → Option (List ℕ)
zero_bytes dst offset zero = some dst
zero_bytes dst offset (suc n) = write dst offset 0 >>= λ d. zero_bytes d (suc offset) n

unfoldable pub lxc_init_from_prototype : List ℕ → ℕ → List ℕ → Option (List ℕ)
unfolding copy_bytes zero_bytes
lxc_init_from_prototype dst dst_len src = copy_bytes dst src >>= λ d.
    if ltb (length src) dst_len then zero_bytes d dst_len (dst_len - length src) else some d
