-- ===== src/Tests/Tasks.antt =====
-- The loop breaker of core/lxc_execution.c with a gate 1 that submits two tasks.
use logxcontroll_v.Base.{true, List, [], ◌∷◌, ◌++◌, ◌==◌, if◌then◌else◌, null, Ptr}
use logxcontroll_v.Execution.{QeTask, Course, ends, submits, Gates}

abbrev task : Ptr → QeTask
task i = record { instance_of = i; value = null; index = 0 }

-- The world is the list of the gates that were executed.
abbrev course : QeTask → List Ptr → Course (List Ptr)
course t w =
    if t.instance_of == 1
    then submits (task 2) (w ++ 1 ∷ []) (λ w'. submits (task 3) w' (λ w''. ends w''))
    else ends (w ++ t.instance_of ∷ [])

abbrev gates : Gates (List Ptr)
gates = record {
  reference = λ _ w. w;
  unreference = λ _ w. w;
  is_enabled = λ _ _. true;
  execute = course;
}
