-- ===== src/Tests/Counts.antt =====
-- Reference counts of core/utils/lxc_utils.c: the value 3 in two places, one of which takes the value 4.
use logxcontroll_v.Base.{◌≡◌, refl, true, [], ◌∷◌, pos}
use logxcontroll_v.Values.{Operations, Values, lxc_import_new_value}
use logxcontroll_v.Values.Counted.{holders, Counted}
use logxcontroll_v.Values.Places.{import-Counted}

abbrev operations : Operations
operations = record { has_ref_diff = λ _. true; has_free = λ _. true }

abbrev values : Values
values = record { refcount = λ p. pos (holders p (3 ∷ 3 ∷ [])); freed = [] }

values-Counted : Counted operations values (3 ∷ 3 ∷ [])
values-Counted p ne c = refl

import-Counted_example :
    (w : Values) × (lxc_import_new_value operations values 4 3 ≡ (true, 4, w))
    × Counted operations w (4 ∷ 3 ∷ [])
    × (w.freed ≡ [])
import-Counted_example = import-Counted operations values 4 3 (3 ∷ []) values-Counted
