-- ===== src/Registry/Load/Keeps.antt =====
-- Each registration of a load keeps the registries in order.
use logxcontroll_v.Base.{
  ℕ, ◌≡◌, ◌≢◌, refl, sym, ◌∙◌, ap, inl, inr, Option, none, some, Bool, true, false, List, [], ◌∷◌,
  ◌++◌, ℤ, pos, Ptr, null, ◌>>=◌, length, length-set, >>=-assoc, ne→eqb,
}
use Prim.Native.String.{String}
use logxcontroll_v.Arrays.Tracked.{TrackedArray, IsAllocated, CellsFit}
use logxcontroll_v.Arrays.Fix.{array_fix_try_add_last_null}
use logxcontroll_v.Arrays.Fix.Slots.{slots}
use logxcontroll_v.Arrays.Fix.Laws.{TriedToAdd, try_add-slots}
use logxcontroll_v.Registry.{
  Objects, Registry, search, append_new, lxc_register_gate, lxc_register_signal,
  lxc_register_constant_value, lxc_error_entity_already_registered, lxc_error_bad_call,
}
use logxcontroll_v.Registry.Unique.{Filed, append_new-FiledBy}
use logxcontroll_v.Registry.Gates.{AllNamed, paths-filings}
use logxcontroll_v.Registry.Register.{
  register_signal-Filed, register_gate-Added, register_gate_unnamed,
}
use logxcontroll_v.Registry.Load.{report}

-- The three registries hold objects with unique names.
pub record InOrder (o : Objects) (r : Registry) : Type 0 where
  pub signal_list : List Ptr
  pub gate_list : List Ptr
  pub constant_list : List Ptr
  pub signals : Filed o.signal_name r.signals signal_list
  pub gates : Filed o.gate_name r.behaviors gate_list
  pub constants : Filed o.constant_name r.constants constant_list

-- The gates may lack a name, but their paths do not.
abbrev pub Gates : Objects → List Ptr → Type 0
Gates o [] = Unit {0}
Gates o (g ∷ gs) = (g ≢ null) × AllNamed (o.paths g) × Gates o gs

abbrev pub Named : (Ptr → Option String) → List Ptr → Type 0
Named name_of [] = Unit {0}
Named name_of (x ∷ xs) = (x ≢ null) × ((n : String) × (name_of x ≡ some n)) × Named name_of xs

CellsFit-slots : (r : TrackedArray) → IsAllocated r → length (slots r) ≡ r.length
CellsFit-slots r h = by_cells r.cells r.length h
  where
    by_cells :
        (c : Option (List Ptr)) (n : ℕ)
        → CellsFit c n
        → length (slots (record { cells = c; length = n })) ≡ n
    by_cells none n h = sym h
    by_cells (some a) n h = h

slots-CellsFit : (r : TrackedArray) → length (slots r) ≡ r.length → IsAllocated r
slots-CellsFit r h = by_cells r.cells r.length h
  where
    by_cells :
        (c : Option (List Ptr)) (n : ℕ)
        → length (slots (record { cells = c; length = n })) ≡ n
        → CellsFit c n
    by_cells none n h = sym h
    by_cells (some a) n h = h

pub try_add_step :
    (e : TrackedArray) (p : Ptr)
    → IsAllocated e
    → (b : Bool) × (e' : TrackedArray) × (array_fix_try_add_last_null e p ≡ some (b, e'))
      × IsAllocated e'
unfolding TriedToAdd
try_add_step e p h = elim (try_add-slots e p h) [
  | inl (r', i, q, free, same, len) ↦ (
    true,
    r',
    q,
    slots-CellsFit r' (ap length same ∙ length-set (slots e) i p ∙ CellsFit-slots e h ∙ sym len),
  )
  | inr (q, full) ↦ (false, e, q, h)
]

pub report_step :
    (e : TrackedArray) (a b : Ptr)
    → IsAllocated e
    → (e' : TrackedArray) × (report e a b ≡ some e') × IsAllocated e'
unfolding report
report_step e a b h =
    let (x, e₁, q₁, h₁) = try_add_step e a h in
    let (y, e₂, q₂, h₂) = try_add_step e₁ b h₁ in (e₂, rw q₁ (rw q₂ refl), h₂)

-- The result of a registration: a number, and registries in order.
abbrev Kept : Objects → Option (ℤ × Registry) → Type 0
Kept o out = (z : ℤ) × (r' : Registry) × (out ≡ some (z, r')) × InOrder o r'

pub signal_step :
    (junk : Ptr) (o : Objects) (r : Registry) (s : Ptr) (n : String)
    → s ≢ null
    → o.signal_name s ≡ some n
    → InOrder o r
    → Kept o (lxc_register_signal junk o r s)
signal_step junk o r s n ne h k =
    elim (register_signal-Filed junk o r s n k.signal_list ne h k.signals) [
      | inl (x, q, nn, e) ↦ (lxc_error_entity_already_registered, r, e, k)
      | inr (g, arr', e, f, l) ↦ (
        pos 0,
        record r { signals = arr' },
        e,
        record {
          signal_list = k.signal_list ++ s ∷ [];
          gate_list = k.gate_list;
          constant_list = k.constant_list;
          signals = f;
          gates = k.gates;
          constants = k.constants;
        },
      )
    ]

pub gate_step :
    (junk : Ptr) (o : Objects) (r : Registry) (g : Ptr)
    → g ≢ null
    → AllNamed (o.paths g)
    → InOrder o r
    → Kept o (lxc_register_gate junk o r g)
gate_step junk o r g ne p k = by_name (o.gate_name g) refl
  where
    by_name : (n : Option String) → o.gate_name g ≡ n → Kept o (lxc_register_gate junk o r g)
    by_name none h = (lxc_error_bad_call, r, register_gate_unnamed junk o r g ne h, k)
    by_name (some n) h =
        let (t, q, _) = paths-filings (o.paths g) r.root_nodes g p in
        elim (register_gate-Added junk o r g n k.gate_list t ne h k.gates q) [
          | inl (x, _, nn, e) ↦ (_, r, e, k)
          | inr (f, arr', e, filed, l) ↦ (
            pos 0,
            record r { behaviors = arr'; root_nodes = t },
            e,
            record {
              signal_list = k.signal_list;
              gate_list = k.gate_list ++ g ∷ [];
              constant_list = k.constant_list;
              signals = k.signals;
              gates = filed;
              constants = k.constants;
            },
          )
        ]

pub constant_step :
    (junk : Ptr) (o : Objects) (r : Registry) (c : Ptr) (n : String)
    → c ≢ null
    → o.constant_name c ≡ some n
    → InOrder o r
    → Kept o (lxc_register_constant_value junk o r c)
unfolding lxc_register_constant_value
constant_step junk o r c n ne h k =
    elim (append_new-FiledBy junk o.constant_name n r.constants k.constant_list c
      lxc_error_entity_already_registered ne h k.constants) [
        | inl (x, q, nn, e) ↦ (lxc_error_entity_already_registered, r, by_search e, k)
        | inr (g, arr', e, f) ↦ (
          pos 0,
          record r { constants = arr' },
          by_search e,
          record {
            signal_list = k.signal_list;
            gate_list = k.gate_list;
            constant_list = k.constant_list ++ c ∷ [];
            signals = k.signals;
            gates = k.gates;
            constants = f;
          },
        )
      ]
  where
    answer : ℤ × Option (List Ptr) → Option (ℤ × Registry)
    answer (ret, arr) = some (ret, record r { constants = arr })

    by_search :
        {z : ℤ} {arr : Option (List Ptr)}
        → (search o.constant_name r.constants (some n)
            >>= append_new junk r.constants c lxc_error_entity_already_registered)
          ≡ some (z, arr)
        → lxc_register_constant_value junk o r c ≡ some (z, record r { constants = arr })
    by_search e = rw (ne→eqb c null ne) (
        rw h (
          sym (
            >>=-assoc (search o.constant_name r.constants (some n))
              (append_new junk r.constants c lxc_error_entity_already_registered) answer)
          ∙ ap (λ q. q >>= answer) e))
