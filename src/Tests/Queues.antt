-- ===== src/Tests/Queues.antt =====
-- The queue of core/utils/utils.c on a queue of two elements.
use logxcontroll_v.Base.{◌≡◌, refl, [], ◌∷◌, null, some, ◌==◌, if◌then◌else◌}
use logxcontroll_v.Queue.{Links, Ends, queue_add_element, queue_pop_intermediate_element}
use logxcontroll_v.Queue.Seg.{IsQueue, Unchanged}
use logxcontroll_v.Queue.Add.{add-IsQueue}
use logxcontroll_v.Queue.Remove.{Removed, remove-IsQueue}

-- 3 and then 4
abbrev links : Links
links = record { prev = λ p. if p == 4 then 3 else null; next = λ p. if p == 3 then 4 else null }

abbrev ends : Ends
ends = record { head = 3; tail = 4 }

two_elements : IsQueue links ends (3 ∷ 4 ∷ [])
two_elements = ((refl, (cc), refl, (refl, (cc), refl, (refl, refl))), (((cc), tt), (tt, tt)))

add-IsQueue_example :
    (m' : Links) × (q' : Ends) × (queue_add_element links ends 5 ≡ some (m', q'))
    × IsQueue m' q' (3 ∷ 4 ∷ 5 ∷ [])
    × Unchanged links m' (3 ∷ 4 ∷ 5 ∷ [])
add-IsQueue_example = add-IsQueue links ends 5 (3 ∷ 4 ∷ []) (cc) ((cc), ((cc), tt)) two_elements

remove-IsQueue_example : Removed links (4 ∷ []) (queue_pop_intermediate_element links ends 3)
remove-IsQueue_example = remove-IsQueue links ends 3 [] (4 ∷ []) two_elements
