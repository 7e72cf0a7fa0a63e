-- ===== src/Wires/Queries.antt =====
-- What a gate is asked for its ports: core/facet.c, from lxc_gate_set_enabled to
-- lxc_gate_get_portinfo_by_name. `none` as a result is an access outside of an array; inside, it is NULL.
use logxcontroll_v.Base.{
  ℕ, zero, suc, ◌+◌, ◌-◌, Option, none, some, Bool, List, [], ◌∷◌, ◌==◌, leb, ◌||◌, if◌then◌else◌,
  write, ℤ, pos, negsuc, Ptr, null, ◌>>=◌,
}
use Prim.Native.String.{String}
use text.Mathlib.Text.{◌==◌ as str_eq}
use logxcontroll_v.Ports.{FullSignalType}
use logxcontroll_v.Ports.Access.{negated}
use logxcontroll_v.Wires.{World, update, lxc_error_too_many_types}

abbrev pub lxc_error_port_doesnot_exists : ℤ
lxc_error_port_doesnot_exists = negsuc 11

-- The functions of a behavior for one direction, `none` for NULL. The types come with their number,
-- which is negative for an error.
pub record PortQueries (G : Type 0) : Type 0 where
  pub get_types : Option (G → ℤ × List FullSignalType)
  pub get_max_index : Option (G → Ptr → ℤ → ℤ)
  pub get_label : Option (G → Ptr → ℤ → ℕ → Option String)

-- A number that is not positive has no rounds.
abbrev pub rounds_of : ℤ → ℕ
rounds_of (pos n) = n
rounds_of (negsuc n) = 0

unfoldable pub lxc_gate_set_enabled : {G : Type 0} → World G → Ptr → Bool → World G
lxc_gate_set_enabled w gate enabled =
    if gate == null then w else record w { enabled = update w.enabled gate enabled }

module _ {G : Type 0} (ops : PortQueries G) (state : Ptr → G) (gate : Ptr) where
  -- lxc_gate_get_input_types and lxc_gate_get_output_types
  unfoldable pub lxc_gate_get_types : ℤ × List FullSignalType
  lxc_gate_get_types =
      if gate == null
      then (pos 0, [])
      else elim ops.get_types [ none ↦ (pos 0, []) | some f ↦ f (state gate) ]

  unfoldable pub get_io_max : Ptr → ℤ → ℤ
  get_io_max s subtype =
      if gate == null || s == null
      then pos 0
      else elim ops.get_max_index [ none ↦ pos 0 | some f ↦ f (state gate) s subtype ]

  unfoldable pub get_io_label : Ptr → ℤ → ℕ → Option String
  get_io_label type subtype index =
      if type == null
      then none
      else elim ops.get_label [ none ↦ none | some f ↦ f (state gate) type subtype index ]

  -- lxc_gate_get_input_label and lxc_gate_get_output_label
  unfoldable pub lxc_gate_get_label : Ptr → ℤ → ℕ → Option String
  unfolding get_io_label
  lxc_gate_get_label type subtype index =
      if gate == null then none else get_io_label type subtype index

-- The loop over the indices of a type: the first one, from `t` on, whose label is the name.
unfoldable pub index_of_label : (ℕ → Option String) → String → ℕ → ℕ → Option ℕ
index_of_label label_of name zero t = none
index_of_label label_of name (suc rounds) t =
    let rest = index_of_label label_of name rounds (suc t) in
    elim (label_of t) [ none ↦ rest | some l ↦ if str_eq name l then some t else rest ]

-- The loop over the types.
unfoldable pub find_port_by_label :
    (FullSignalType → ℕ)
    → (FullSignalType → ℕ → Option String)
    → String
    → ℕ
    → List FullSignalType
    → Option (Option (FullSignalType × ℕ))
unfolding index_of_label
find_port_by_label max_of label_of name zero types = some none
find_port_by_label max_of label_of name (suc rounds) [] = none
find_port_by_label max_of label_of name (suc rounds) (t ∷ types) =
    let rest = find_port_by_label max_of label_of name rounds types in
    elim (index_of_label (label_of t) name (max_of t) 0) [
      | none ↦ rest
      | some i ↦ some (some (t, i))
    ]

abbrev pub port_answer : Option (FullSignalType × ℕ) → ℤ × Option (FullSignalType × ℕ)
port_answer none = (lxc_error_port_doesnot_exists, none)
port_answer (some found) = (pos 0, some found)

module _ {G : Type 0} (ops : PortQueries G) (state : Ptr → G) (gate : Ptr) where
  abbrev pub port_max : FullSignalType → ℕ
  port_max t = rounds_of (get_io_max ops state gate t.signal t.subtype)

  abbrev pub port_label : FullSignalType → ℕ → Option String
  port_label t index = lxc_gate_get_label ops state gate t.signal t.subtype index

  -- The result, and the port where it is 0.
  unfoldable pub lxc_gate_get_portinfo_by_name : String → Option (ℤ × Option (FullSignalType × ℕ))
  unfolding lxc_gate_get_types find_port_by_label
  lxc_gate_get_portinfo_by_name port_name =
      let types = lxc_gate_get_types ops state gate in
      find_port_by_label port_max port_label port_name (rounds_of types.0) types.1 >>= λ found.
      some (port_answer found)

-- The answer, and what `arr` then holds: `permit` is the number of the cells that are left.
unfoldable pub fill_labels :
    (ℕ → Option String) → ℕ → ℕ → ℕ → ℕ → List (Option String) → Option (ℕ × List (Option String))
fill_labels label_at zero permit i last_free arr = some (i, arr)
fill_labels label_at (suc rounds) permit i last_free arr =
    write arr (last_free + i) (label_at i) >>= λ arr'.
    if permit - 1 == 0
    then some (i, arr')
    else fill_labels label_at rounds (permit - 1) (suc i) last_free arr'

-- The first loop of get_labels: how many labels there are.
unfoldable pub required : (FullSignalType → ℕ) → ℕ → List FullSignalType → Option ℕ
required max_of zero types = some 0
required max_of (suc rounds) [] = none
required max_of (suc rounds) (t ∷ types) = required max_of rounds types >>= λ n. some (max_of t + n)

-- The second loop, for the labels so far. fill_labels is not called for a type with no index.
unfoldable pub fill_all :
    (FullSignalType → ℕ)
    → (FullSignalType → ℕ → Option String)
    → ℕ
    → ℕ
    → List FullSignalType
    → ℕ
    → List (Option String)
    → Option (ℕ × List (Option String))
unfolding fill_labels
fill_all max_of label_of max_length zero types sum arr = some (sum, arr)
fill_all max_of label_of max_length (suc rounds) [] sum arr = none
fill_all max_of label_of max_length (suc rounds) (t ∷ types) sum arr =
    (if max_of t == 0
      then some (0, arr)
      else fill_labels (label_of t) (max_of t) (max_length - sum) 0 sum arr)
    >>= λ (n, arr'). fill_all max_of label_of max_length rounds types (sum + n) arr'

-- The functions that get_labels is given are those of the behavior, which are not NULL where the one for
-- the types is not. The result, and what `arr` then holds.
unfoldable pub get_labels :
    (FullSignalType → ℕ)
    → (FullSignalType → ℕ → Option String)
    → Option (ℤ × List FullSignalType)
    → List (Option String)
    → ℕ
    → Option (ℤ × List (Option String))
unfolding required fill_all negated
get_labels max_of label_of none arr max_length = some (pos 0, arr)
get_labels max_of label_of (some (negsuc n, types)) arr max_length =
    some (lxc_error_too_many_types, arr)
get_labels max_of label_of (some (pos len, types)) arr max_length =
    if len == 0
    then some (pos 0, arr)
    else (required max_of len types >>= λ req_length.
        if leb max_length req_length
        then some (negated req_length, arr)
        else (fill_all max_of label_of max_length len types 0 arr >>= λ (sum, arr').
            some (pos sum, arr')))

-- lxc_gate_get_input_labels and lxc_gate_get_output_labels, for a behavior whose functions for the
-- indices and the labels are `max_at` and `label_at`
unfoldable pub lxc_gate_get_labels :
    {G : Type 0}
    → Option (G → ℤ × List FullSignalType)
    → (G → FullSignalType → ℕ)
    → (G → FullSignalType → ℕ → Option String)
    → (Ptr → G)
    → Ptr
    → List (Option String)
    → ℕ
    → Option (ℤ × List (Option String))
unfolding get_labels
lxc_gate_get_labels types max_at label_at state gate arr max_length =
    if gate == null
    then some (pos 0, arr)
    else get_labels (max_at (state gate)) (label_at (state gate))
        (elim types [ none ↦ none | some f ↦ some (f (state gate)) ]) arr max_length
