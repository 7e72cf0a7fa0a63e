-- ===== src/Ports/AddPort.antt =====
-- `lxc_port_unchecked_add_new_port` as a whole.
use logxcontroll_v.Base.{
  null, ℕ, ◌+◌, ◌<◌, ◌≡◌, ◌≢◌, refl, sym, ap, ◌∙◌, subst, Option, none, some, List, [], ◌∷◌, ◌++◌,
  length, length-append, get_elem?, get_elem?-set_self, get_elem?-set_ne, get_elem?-lt,
  get_elem?-total, get_elem?-append_last, get_elem?-append_left, set, write-eq-set, ℤ, pos, Ptr,
  arith,
}
use Prim.Native.String.{String}
use logxcontroll_v.Ports.{
  PortManager, PortName, label, lxc_port_empty_name, find_type, lxc_port_get_absindex, push_abs,
  empty_slot, place_name, next_abs_of, AddedPort, lxc_port_unchecked_add_new_port, ensure_type,
}
use logxcontroll_v.Ports.Types.{Aligned, Located→absindex, absindex→Located, find_type-lt}
use logxcontroll_v.Ports.Ensure.{ensure_lem}
use logxcontroll_v.Ports.Add.{Added, empty_slot_lem, push_eq, pushed, after}

-- The number that the function returns: the absolute index where an empty slot was taken, and one
-- more than the absolute index where the name went to the end.
abbrev pub returned_for : PortManager → Option ℕ → ℕ
returned_for m (some i) = i
returned_for m none = length m.port_names + 1

-- Ports are found by the types and the groups alone.
rename_port :
    (m : PortManager) (names : List PortName) (n : ℕ) (s : Ptr) (u : ℤ) (i a : ℕ)
    → lxc_port_get_absindex m s u i ≡ some (pos a)
    → lxc_port_get_absindex (record m { port_names = names; max_size = n }) s u i ≡ some (pos a)
rename_port m names n s u i a h =
    let l = absindex→Located m s u i a h in
    Located→absindex (record m { port_names = names; max_size = n }) s u i a
      (record {
        group = l.group;
        len = l.len;
        entries = l.entries;
        type_found = l.type_found;
        size = l.size;
        below = l.below;
        cells = l.cells;
        stored = l.stored;
      })

-- What placing the name does to the names, for the slot that the search gave.
record Placed (old new : List PortName) (name : String) (abs : ℕ) : Type 0 where
  named : get_elem? new abs ≡ some (label name)
  names_kept :
      (j : ℕ) (t : String)
      → get_elem? old j ≡ some (label t)
      → (j ≢ abs) × (get_elem? new j ≡ some (label t))

place_lem :
    (m : PortManager) (name : String) (o : Option ℕ)
    → empty_slot m.port_names ≡ o
    → (new : List PortName) × (place_name m name o
        ≡ some (returned_for m o, record m { port_names = new; max_size = length new }))
      × Placed m.port_names new name (next_abs_of m o)
unfolding place_name
place_lem m name none e = (
  m.port_names ++ label name ∷ [],
  ap
      (λ n. some (
        length m.port_names + 1,
        record m { port_names = m.port_names ++ label name ∷ []; max_size = n },
      ))
      (sym (length-append m.port_names (label name ∷ []))),
  record {
    named = get_elem?-append_last m.port_names (label name);
    names_kept = λ j t h.
        let inside = get_elem?-lt m.port_names j h in
        (
          (λ q. absurd (omega (arith, inside, q))),
          get_elem?-append_left m.port_names (label name ∷ []) j inside ∙ h,
        );
  },
)
place_lem m name (some i) e =
    let free = empty_slot_lem m.port_names i e in
    let inside = get_elem?-lt m.port_names i free in
    (
      set m.port_names i (label name),
      rw (write-eq-set m.port_names i (label name) inside) refl,
      record {
        named = get_elem?-set_self m.port_names i (label name) inside;
        names_kept = λ j t h.
            let apart : j ≢ i =
              λ q. clash t (subst (λ k. get_elem? m.port_names k ≡ some (label t)) q h) free in
            (apart, get_elem?-set_ne m.port_names i j (label name) (λ q. apart (sym q)) ∙ h);
      },
    )
  where
    clash :
        (t : String)
        → get_elem? m.port_names i ≡ some (label t)
        → get_elem? m.port_names i ≡ some lxc_port_empty_name
        → ⊥
    clash t a b = cc

assemble :
    (junk : ℕ) (m m₁ m₂ m₃ : PortManager) (name : String) (s : Ptr) (u : ℤ) (ti index returned : ℕ)
    → ensure_type junk m s u ≡ some (ti, m₁)
    → push_abs junk m₁ ti (next_abs_of m (empty_slot m.port_names)) ≡ some (index, m₂)
    → place_name m₂ name (empty_slot m.port_names) ≡ some (returned, m₃)
    → lxc_port_unchecked_add_new_port junk m name s u
      ≡ some (record { returned = returned; index_in_type_group = index; manager = m₃ })
unfolding lxc_port_unchecked_add_new_port
assemble junk m m₁ m₂ m₃ name s u ti index returned e₁ e₂ e₃ = rw e₁ (rw e₂ (rw e₃ refl))

-- The absolute index and the number returned depend on the number of names alone.
same_numbers :
    (m m' : PortManager) (o : Option ℕ)
    → m'.port_names ≡ m.port_names
    → (next_abs_of m' o ≡ next_abs_of m o) × (returned_for m' o ≡ returned_for m o)
same_numbers m m' none e = (ap length e, ap (λ (l : List PortName). length l + 1) e)
same_numbers m m' (some i) e = (refl, refl)

-- Adding a port of a signal that is not NULL to a manager whose arrays by type are aligned succeeds, whatever `realloc` leaves in
-- memory. The port is found under its type at the index written to `index_in_type_group`; its
-- absolute index is the first empty slot of the names, or the number of the names where none is
-- empty, and carries its name. Every port that was found is found as before, every name that was
-- there stays at its absolute index, which is another one, and the manager is aligned again. The
-- number returned is the absolute index in the first case and one more in the second.
pub add-port :
    (junk : ℕ) (m : PortManager) (name : String) (s : Ptr) (u : ℤ)
    → s ≢ null
    → Aligned m
    → (out : AddedPort) × (lxc_port_unchecked_add_new_port junk m name s u ≡ some out)
      × Added m out name s u (next_abs_of m (empty_slot m.port_names))
      × (out.returned ≡ returned_for m (empty_slot m.port_names))
add-port junk m name s u nonnull al =
    let slot = empty_slot m.port_names in
    let (ti, m₁, e₁, ens) = ensure_lem junk m s u nonnull al in
    let (len, size) =
      get_elem?-total m₁.to_abs_size ti (ti_below ti m₁ s u ens.found ens.aligned) in
    let (g, cells) =
      get_elem?-total m₁.to_abs ti
        (omega (arith, ti_below ti m₁ s u ens.found ens.aligned, ens.aligned.groups)) in
    let m₂ = after junk m₁ ens.aligned ti len g (next_abs_of m slot) size cells in
    let push = pushed junk m₁ ens.aligned ti len g (next_abs_of m slot) size cells s u ens.found in
    let names : m₂.port_names ≡ m.port_names = push.names ∙ ens.names in
    let (new, e₃, placed) = place_lem m₂ name slot (ap empty_slot names) in
    let (same_abs, same_returned) = same_numbers m m₂ slot names in
    (
      record {
        returned = returned_for m₂ slot;
        index_in_type_group = len;
        manager = record m₂ { port_names = new; max_size = length new };
      },
      assemble junk m m₁ m₂ (record m₂ { port_names = new; max_size = length new }) name s u ti len
          (returned_for m₂ slot) e₁
          (push_eq junk m₁ ens.aligned ti len g (next_abs_of m slot) size cells) e₃,
      record {
        found = rename_port m₂ new (length new) s u len (next_abs_of m slot) push.found;
        named = subst (λ a. get_elem? new a ≡ some (label name)) same_abs placed.named;
        names_kept = λ j t h.
            let (d, k) =
              placed.names_kept j t
                (subst (λ (l : List PortName). get_elem? l j ≡ some (label t)) (sym names) h) in
            ((λ e. d (e ∙ sym same_abs)), k);
        kept = λ s' u' i a h.
            rename_port m₂ new (length new) s' u' i a (push.kept s' u' i a (ens.kept s' u' i a h));
        counted = refl;
        aligned = record {
          signals = push.aligned.signals;
          types = push.aligned.types;
          groups = push.aligned.groups;
          room = push.aligned.room;
        };
      },
      same_returned,
    )
  where
    ti_below :
        (t : ℕ) (n : PortManager) (s' : Ptr) (u' : ℤ)
        → find_type n.managed_types s' u' ≡ some t
        → Aligned n
        → t < length n.to_abs_size
    ti_below t n s' u' f a = omega (arith, find_type-lt n.managed_types s' u' t f, a.types)
