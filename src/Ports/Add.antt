-- ===== src/Ports/Add.antt =====
-- A new port is found at the end of its group, and every other port is found as before.
use logxcontroll_v.Base.{
  ℕ, suc, ◌+◌, ◌<◌, ◌≤◌, ◌≡◌, ◌≢◌, refl, sym, ap, ◌∙◌, subst, ◌⊎◌, inl, inr, some, List, [], ◌∷◌,
  ◌==◌, Bool-cases, Option-cases, length, length-set, length-realloc, get_elem?, get_elem?-set_self,
  get_elem?-set_ne, get_elem?-lt, get_elem?-realloc, set, write-eq-set, realloc, ℤ, pos, Ptr, arith,
  eqb→eq, eqb→ne,
}
use Prim.Native.String.{String}
use logxcontroll_v.Ports.{
  PortManager, PortName, label, lxc_port_empty_name, find_type, lxc_port_get_absindex, push_abs,
  empty_slot, AddedPort,
}
use logxcontroll_v.Ports.Types.{Aligned, Located, Located→absindex, absindex→Located}

-- The manager with one more entry in the group `ti`.
pub record Pushed (m m₂ : PortManager) (s : Ptr) (u : ℤ) (index next_abs : ℕ) : Type 0 where
  pub found : lxc_port_get_absindex m₂ s u index ≡ some (pos next_abs)
  pub aligned : Aligned m₂
  pub names : m₂.port_names ≡ m.port_names
  pub kept :
      (s' : Ptr) (u' : ℤ) (i a : ℕ)
      → lxc_port_get_absindex m s' u' i ≡ some (pos a)
      → lxc_port_get_absindex m₂ s' u' i ≡ some (pos a)

same_or_not : (a b : ℕ) → (a ≡ b) ⊎ (a ≢ b)
same_or_not a b = elim (Bool-cases (a == b)) [
  | inl e ↦ inl (eqb→eq a b e)
  | inr e ↦ inr (eqb→ne a b e)
]

module _ (junk : ℕ) (m : PortManager) (al : Aligned m) (ti len : ℕ) (g : List ℕ) (next_abs : ℕ)
    (size : get_elem? m.to_abs_size ti ≡ some len) (cells : get_elem? m.to_abs ti ≡ some g) where
  longer : List ℕ
  longer = set (realloc junk (suc len) g) len next_abs

  pub after : PortManager
  unfolding longer
  after = record m { to_abs = set m.to_abs ti longer; to_abs_size = set m.to_abs_size ti (suc len) }

  ti_size : ti < length m.to_abs_size
  ti_size = get_elem?-lt m.to_abs_size ti size

  ti_abs : ti < length m.to_abs
  ti_abs = get_elem?-lt m.to_abs ti cells

  pub push_eq : push_abs junk m ti next_abs ≡ some (len, after)
  unfolding push_abs after
  push_eq = rw size (
      rw cells (
        rw (plus_one len) (
          rw
            (write-eq-set (realloc junk (suc len) g) len next_abs
              (omega (arith, length-realloc junk (suc len) g)))
            (rw (write-eq-set m.to_abs ti longer ti_abs)
              (rw (write-eq-set m.to_abs_size ti (suc len) ti_size) refl)))))
    where
      plus_one : (n : ℕ) → n + 1 ≡ suc n
      plus_one n = omega arith

  long_enough : length longer ≡ suc len
  unfolding longer
  long_enough = length-set (realloc junk (suc len) g) len next_abs ∙ length-realloc junk (suc len) g

  room_len : len ≤ length g
  room_len = al.room ti len g size cells

  new_stored : get_elem? longer len ≡ some next_abs
  unfolding longer
  new_stored =
      get_elem?-set_self (realloc junk (suc len) g) len next_abs
        (omega (arith, length-realloc junk (suc len) g))

  old_stored : (i a : ℕ) → i < len → get_elem? g i ≡ some a → get_elem? longer i ≡ some a
  unfolding longer
  old_stored i a l h =
      get_elem?-set_ne (realloc junk (suc len) g) len i next_abs (omega arith)
      ∙ get_elem?-realloc junk (suc len) g i (omega arith) (omega (arith, room_len))
      ∙ h

  moved : (s' : Ptr) (u' : ℤ) (i a : ℕ) → Located m s' u' i a → Located after s' u' i a
  unfolding after
  moved s' u' i a l = elim (same_or_not ti l.group) [
    | inl e ↦
        let here_size : get_elem? m.to_abs_size ti ≡ some l.len =
          subst (λ j. get_elem? m.to_abs_size j ≡ some l.len) (sym e) l.size in
        let here_cells : get_elem? m.to_abs ti ≡ some l.entries =
          subst (λ j. get_elem? m.to_abs j ≡ some l.entries) (sym e) l.cells in
        let below : i < len = ground (arith, here_size, size, l.below) in
        record {
          group = ti;
          len = suc len;
          entries = longer;
          type_found = l.type_found ∙ ap some (sym e);
          size = get_elem?-set_self m.to_abs_size ti (suc len) ti_size;
          below = omega (arith, below);
          cells = get_elem?-set_self m.to_abs ti longer ti_abs;
          stored =
              old_stored i a below
                (subst (λ (h : List ℕ). get_elem? h i ≡ some a) (same_list here_cells) l.stored);
        }
    | inr d ↦ record {
      group = l.group;
      len = l.len;
      entries = l.entries;
      type_found = l.type_found;
      size = get_elem?-set_ne m.to_abs_size ti l.group (suc len) d ∙ l.size;
      below = l.below;
      cells = get_elem?-set_ne m.to_abs ti l.group longer d ∙ l.cells;
      stored = l.stored;
    }
  ]
    where
      same_list : {h : List ℕ} → get_elem? m.to_abs ti ≡ some h → h ≡ g
      same_list c = cc

  after-Aligned : Aligned after
  unfolding after
  after-Aligned = record {
    signals = al.signals;
    types = al.types ∙ sym (length-set m.to_abs_size ti (suc len));
    groups =
        length-set m.to_abs ti longer ∙ al.groups ∙ sym (length-set m.to_abs_size ti (suc len));
    room = λ i n h e c. room_at i n h e c (same_or_not ti i);
  }
    where
      room_at :
          (i n : ℕ) (h : List ℕ)
          → get_elem? (set m.to_abs_size ti (suc len)) i ≡ some n
          → get_elem? (set m.to_abs ti longer) i ≡ some h
          → (ti ≡ i) ⊎ (ti ≢ i)
          → n ≤ length h
      room_at i n h e c (inr d) =
          al.room i n h (sym (get_elem?-set_ne m.to_abs_size ti i (suc len) d) ∙ e)
            (sym (get_elem?-set_ne m.to_abs ti i longer d) ∙ c)
      room_at i n h e c (inl q) =
          let e' : get_elem? (set m.to_abs_size ti (suc len)) i ≡ some (suc len) =
            subst (λ j. get_elem? (set m.to_abs_size ti (suc len)) j ≡ some (suc len)) q
              (get_elem?-set_self m.to_abs_size ti (suc len) ti_size) in
          let c' : get_elem? (set m.to_abs ti longer) i ≡ some longer =
            subst (λ j. get_elem? (set m.to_abs ti longer) j ≡ some longer) q
              (get_elem?-set_self m.to_abs ti longer ti_abs) in
          let n_is : n ≡ suc len = ground (arith, e, e') in
          let h_is : h ≡ longer = cc (c, c') in omega (arith, n_is, ap length h_is, long_enough)

  pub pushed :
      (s : Ptr) (u : ℤ) → find_type m.managed_types s u ≡ some ti → Pushed m after s u len next_abs
  unfolding after
  pushed s u f = record {
    found = Located→absindex after s u len next_abs (record {
      group = ti;
      len = suc len;
      entries = longer;
      type_found = f;
      size = get_elem?-set_self m.to_abs_size ti (suc len) ti_size;
      below = omega arith;
      cells = get_elem?-set_self m.to_abs ti longer ti_abs;
      stored = new_stored;
    });
    aligned = after-Aligned;
    names = refl;
    kept = λ s' u' i a h.
        Located→absindex after s' u' i a (moved s' u' i a (absindex→Located m s' u' i a h));
  }

pub empty_slot_lem :
    (ns : List PortName) (i : ℕ)
    → empty_slot ns ≡ some i
    → get_elem? ns i ≡ some lxc_port_empty_name
unfolding empty_slot
empty_slot_lem [] i h = cc
empty_slot_lem (lxc_port_empty_name ∷ ns) i h = ground (arith, h)
empty_slot_lem (label t ∷ ns) i h = elim (Option-cases (empty_slot ns)) [
  | inl e ↦ ground (arith, e, h)
  | inr (k, e) ↦ ground (arith, e, h, empty_slot_lem ns k e)
]

-- What adding a port under the name `name` gives, at the absolute index `abs`.
pub record Added (m : PortManager) (out : AddedPort) (name : String) (s : Ptr) (u : ℤ) (abs : ℕ)
    : Type 0 where
  pub found : lxc_port_get_absindex out.manager s u out.index_in_type_group ≡ some (pos abs)
  pub named : get_elem? out.manager.port_names abs ≡ some (label name)
  pub names_kept :
      (j : ℕ) (t : String)
      → get_elem? m.port_names j ≡ some (label t)
      → (j ≢ abs) × (get_elem? out.manager.port_names j ≡ some (label t))
  pub kept :
      (s' : Ptr) (u' : ℤ) (i a : ℕ)
      → lxc_port_get_absindex m s' u' i ≡ some (pos a)
      → lxc_port_get_absindex out.manager s' u' i ≡ some (pos a)
  pub counted : out.manager.max_size ≡ length out.manager.port_names
  pub aligned : Aligned out.manager
