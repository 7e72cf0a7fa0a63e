-- ===== src/Tests/Registries.antt =====
-- The registries of core/accounting.c with one signal and one gate behavior.
use logxcontroll_v.Base.{refl, none, some, [], ◌∷◌, if◌then◌else◌, ◌==◌, null}
use logxcontroll_v.Arrays.Tracked.{TrackedArray}
use logxcontroll_v.Registry.{Objects, Registry}
use logxcontroll_v.Registry.Tree.{node, no_node}
use logxcontroll_v.Registry.Unique.{Filed}
use Prim.Native.String.{String}
use logxcontroll_v.Registry.Load.{LoadableLibrary, lxc_load_library}
use logxcontroll_v.Registry.Load.Keeps.{InOrder}
use logxcontroll_v.Registry.Load.Library.{Loaded, load_library-InOrder}

-- The signals 3 and 4, and the gates 5 and 6, of which 6 has no name.
abbrev objects : Objects
objects = record {
  signal_name = λ p. if p == 3 then some "bool" else some "pulse";
  gate_name = λ p. if p == 5 then some "and" else none;
  constant_name = λ _. some "true";
  paths = λ _. ("std" ∷ "logic" ∷ []) ∷ [];
}

abbrev registry : Registry
registry = record {
  signals = some (3 ∷ null ∷ []);
  behaviors = none;
  constants = none;
  root_nodes = node "std" [] no_node no_node;
}

signals-Filed : Filed objects.signal_name registry.signals (3 ∷ [])
signals-Filed = record { nonnull = ((cc), tt); holds = refl; unique = (("bool", refl, tt), tt) }

gates-Filed : Filed objects.gate_name registry.behaviors []
gates-Filed = record { nonnull = tt; holds = refl; unique = tt }

-- A library with a signal that is registered already, after a new one.
abbrev library : LoadableLibrary
library = record {
  library_operation = none;
  gates = 5 ∷ 6 ∷ [];
  signals = 4 ∷ 3 ∷ [];
  constants = 8 ∷ [];
}

abbrev errors : TrackedArray
errors = record { cells = some (null ∷ null ∷ []); length = 2 }

registry-InOrder : InOrder objects registry
registry-InOrder = record {
  signal_list = 3 ∷ [];
  gate_list = [];
  constant_list = [];
  signals = signals-Filed;
  gates = gates-Filed;
  constants = record { nonnull = tt; holds = refl; unique = tt };
}

load_library-InOrder_example :
    Loaded objects (lxc_load_library 7 objects (λ _. 9) (some library) registry errors)
load_library-InOrder_example =
    load_library-InOrder 7 objects (λ _. 9) library registry errors tt ((cc), tt, ((cc), tt, tt))
      ((cc), ("pulse", refl), ((cc), ("bool", refl), tt)) ((cc), ("true", refl), tt)
      registry-InOrder refl
