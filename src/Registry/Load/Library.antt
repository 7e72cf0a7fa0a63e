-- ===== src/Registry/Load/Library.antt =====
-- Loading a whole library keeps the registries in order, whatever is registered twice.
use logxcontroll_v.Base.{
  zero, suc, ◌≡◌, refl, Option, none, some, List, [], ◌∷◌, if◌then◌else◌, ℤ, pos, negsuc, Ptr,
  ◌>>=◌,
}
use Prim.Native.String.{String}
use logxcontroll_v.Arrays.Tracked.{TrackedArray, IsAllocated}
use logxcontroll_v.Registry.{Objects, Registry}
use logxcontroll_v.Registry.Load.{
  LoadableLibrary, LibraryOperation, library_before_load, library_after_loaded, is_zero, report,
  load_gates, load_signals, load_constants, call_operation, load_rest, load_entries,
  lxc_load_library,
}
use logxcontroll_v.Registry.Load.Keeps.{
  InOrder, Gates, Named, report_step, signal_step, gate_step, constant_step,
}

-- The result of a load: registries in order, and an array of errors that still fits its length.
abbrev pub Loaded : Objects → Option (ℤ × Registry × TrackedArray) → Type 0
Loaded o out =
    (z : ℤ) × (r' : Registry) × (e' : TrackedArray) × (out ≡ some (z, r', e'))
    × InOrder o r'
    × IsAllocated e'

abbrev Passed : Objects → Option (Registry × TrackedArray) → Type 0
Passed o out =
    (r' : Registry) × (e' : TrackedArray) × (out ≡ some (r', e')) × InOrder o r' × IsAllocated e'

-- A message is given unless the number is 0.
report_if :
    (z : ℤ) (e : TrackedArray) (a b : Ptr)
    → IsAllocated e
    → (e' : TrackedArray) × ((if is_zero z then some e else report e a b) ≡ some e')
      × IsAllocated e'
report_if (pos zero) e a b h = (e, refl, h)
report_if (pos (suc n)) e a b h = report_step e a b h
report_if (negsuc n) e a b h = report_step e a b h

-- The operation of a library keeps to the length of the array of errors.
abbrev OperatesBy : Option (LibraryOperation → TrackedArray → ℤ × TrackedArray) → Type 0
OperatesBy none = Unit {0}
OperatesBy (some f) =
    (op : LibraryOperation) (e : TrackedArray) → IsAllocated e → IsAllocated (f op e).1

abbrev pub Operates : LoadableLibrary → Type 0
Operates lib = OperatesBy lib.library_operation

module _ (junk : Ptr) (o : Objects) (text : Option String → Ptr) where
  Gates-kept :
      (gs : List Ptr) (r : Registry) (e : TrackedArray)
      → Gates o gs
      → InOrder o r
      → IsAllocated e
      → Passed o (load_gates junk o text gs r e)
  unfolding load_gates
  Gates-kept [] r e h k a = (r, e, refl, k, a)
  Gates-kept (g ∷ gs) r e h k a =
      let (z, r₁, q₁, k₁) = gate_step junk o r g h.0 h.1 k in
      let (e₁, p₁, a₁) =
        report_if z e (text (some "Gate already registered.")) (text (o.gate_name g)) a in
      let (r₂, e₂, q₂, k₂, a₂) = Gates-kept gs r₁ e₁ h.2 k₁ a₁ in (r₂, e₂, rw q₁ (rw p₁ q₂), k₂, a₂)

  constants_kept :
      (cs : List Ptr) (r : Registry) (e : TrackedArray)
      → Named o.constant_name cs
      → InOrder o r
      → IsAllocated e
      → Passed o (load_constants junk o text cs r e)
  unfolding load_constants
  constants_kept [] r e h k a = (r, e, refl, k, a)
  constants_kept (c ∷ cs) r e h k a =
      let (z, r₁, q₁, k₁) = constant_step junk o r c h.1.0 h.0 h.1.1 k in
      let (e₁, p₁, a₁) =
        report_if z e (text (some "Constant already registered.")) (text (o.constant_name c)) a in
      let (r₂, e₂, q₂, k₂, a₂) = constants_kept cs r₁ e₁ h.2 k₁ a₁ in
      (r₂, e₂, rw q₁ (rw p₁ q₂), k₂, a₂)

  refused : TrackedArray → Ptr → Option TrackedArray
  refused e s = report e (text (some "Signal already registered.")) (text (o.signal_name s))

  after_signal :
      (s : Ptr) (ss : List Ptr) (e : TrackedArray) (z : ℤ) (r : Registry)
      → ((r' : Registry) → InOrder o r' → Loaded o (load_signals junk o text ss r' e))
      → InOrder o r
      → IsAllocated e
      → Loaded o (
          if is_zero z
          then load_signals junk o text ss r e
          else (refused e s >>= λ e'. some (z, r, e')))
  unfolding refused
  after_signal s ss e (pos zero) r rest k a = rest r k
  after_signal s ss e (pos (suc n)) r rest k a =
      let (e', p, a') =
        report_step e (text (some "Signal already registered.")) (text (o.signal_name s)) a in
      (pos (suc n), r, e', rw p refl, k, a')
  after_signal s ss e (negsuc n) r rest k a =
      let (e', p, a') =
        report_step e (text (some "Signal already registered.")) (text (o.signal_name s)) a in
      (negsuc n, r, e', rw p refl, k, a')

  signals_kept :
      (ss : List Ptr) (r : Registry) (e : TrackedArray)
      → Named o.signal_name ss
      → InOrder o r
      → IsAllocated e
      → Loaded o (load_signals junk o text ss r e)
  unfolding load_signals refused
  signals_kept [] r e h k a = (pos 0, r, e, refl, k, a)
  signals_kept (s ∷ ss) r e h k a =
      let (z, r₁, q₁, k₁) = signal_step junk o r s h.1.0 h.0 h.1.1 k in
      let (z₂, r₂, e₂, q₂, k₂, a₂) =
        after_signal s ss e z r₁ (λ r' k'. signals_kept ss r' e h.2 k' a) k₁ a in
      (z₂, r₂, e₂, rw q₁ q₂, k₂, a₂)

  -- An operation of the library keeps the length of the array of errors.
  operation_kept :
      (lib : LoadableLibrary) (op : LibraryOperation) (e : TrackedArray)
      → Operates lib
      → IsAllocated e
      → IsAllocated (call_operation junk o text lib op e).1
  unfolding call_operation
  operation_kept lib op e h a = by_field lib.library_operation h
    where
      called : Option (LibraryOperation → TrackedArray → ℤ × TrackedArray) → ℤ × TrackedArray
      called f = elim f [ none ↦ (pos 0, e) | some g ↦ g op e ]

      by_field :
          (f : Option (LibraryOperation → TrackedArray → ℤ × TrackedArray))
          → OperatesBy f
          → IsAllocated (called f).1
      by_field none k = a
      by_field (some g) k = k op e a

  rest_kept :
      (lib : LoadableLibrary) (z : ℤ) (r : Registry) (e : TrackedArray)
      → Operates lib
      → Named o.constant_name lib.constants
      → InOrder o r
      → IsAllocated e
      → Loaded o (load_rest junk o text lib (z, r, e))
  unfolding load_rest call_operation
  rest_kept lib (pos zero) r e op h k a =
      let (r₁, e₁, q₁, k₁, a₁) = constants_kept lib.constants r e h k a in
      let out : ℤ × TrackedArray = call_operation junk o text lib library_after_loaded e₁ in
      (out.0, r₁, out.1, rw q₁ refl, k₁, operation_kept lib library_after_loaded e₁ op a₁)
  rest_kept lib (pos (suc n)) r e op h k a = (pos (suc n), r, e, refl, k, a)
  rest_kept lib (negsuc n) r e op h k a = (negsuc n, r, e, refl, k, a)

-- Loading a library into registries that are in order ends without a fault, whatever names are
-- registered already or twice: with an array of errors that fits its length, before and after every
-- call of the library's operation, and with named signals and constants and named paths of the
-- gates, all not NULL, it returns a number, and the registries are in order again.
pub load_library-InOrder :
    (junk : Ptr) (o : Objects) (text : Option String → Ptr) (lib : LoadableLibrary) (r : Registry)
    (e : TrackedArray)
    → Operates lib
    → Gates o lib.gates
    → Named o.signal_name lib.signals
    → Named o.constant_name lib.constants
    → InOrder o r
    → IsAllocated e
    → Loaded o (lxc_load_library junk o text (some lib) r e)
unfolding lxc_load_library load_entries
load_library-InOrder junk o text lib r e op hg hs hc k a =
    let a₀ = operation_kept junk o text lib library_before_load e op a in
    let (r₁, e₁, q₁, k₁, a₁) = Gates-kept junk o text lib.gates r _ hg k a₀ in
    let (z₂, r₂, e₂, q₂, k₂, a₂) = signals_kept junk o text lib.signals r₁ e₁ hs k₁ a₁ in
    let (z₃, r₃, e₃, q₃, k₃, a₃) = rest_kept junk o text lib z₂ r₂ e₂ op hc k₂ a₂ in
    (z₃, r₃, e₃, rw q₁ (rw q₂ q₃), k₃, a₃)
