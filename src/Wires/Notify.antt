-- ===== src/Wires/Notify.antt =====
-- Who is executed when a value is written to a wire: lxc_drive_wire_value of core/facet.c.
use logxcontroll_v.Base.{
  drop, ℕ, zero, suc, ◌+◌, ◌≡◌, ◌≢◌, refl, sym, ◌∙◌, ap, subst, inl, inr, Option, none, some, Bool,
  false, List, [], ◌∷◌, arith, ◌==◌, ◌&&◌, if◌then◌else◌, length, get_elem?, get_elem?-total, Ptr,
  null, ne→eqb, eqb_refl, eqb→eq, Bool-cases,
}
use logxcontroll_v.Values.{Operations, Values, lxc_import_new_value}
use logxcontroll_v.Arrays.Tracked.{CellsFit, IsAllocated}
use logxcontroll_v.Arrays.Nt.Items.{items_of, items}
use logxcontroll_v.Wires.{World, Message, of_value}
use logxcontroll_v.Wires.Drive.{
  Phase, has_hooks, notify, notify_loop, taken_value, wire_direct_propagate_wire_new_value,
  lxc_drive_wire_value,
}

pub drop_at :
    (a : List Ptr) (i : ℕ) (p : Ptr) → get_elem? a i ≡ some p → drop a i ≡ p ∷ drop a (suc i)
drop_at [] i p e = absurd (cc)
drop_at (x ∷ a) zero p e = cc
drop_at (x ∷ a) (suc i) p e = drop_at a i p e

pub drop_all : (a : List Ptr) (i : ℕ) → i ≡ length a → drop a i ≡ []
drop_all [] zero e = refl
drop_all [] (suc i) e = refl
drop_all (x ∷ a) zero e = absurd (omega arith)
drop_all (x ∷ a) (suc i) e = drop_all a i (omega arith)

module _ {G : Type 0} (execute : Ptr → Message → World G → World G)
    (has_behavior : Ptr → Bool) where
  -- The gate of a tokenport is executed with the value, where it is enabled and has a behavior.
  abbrev pub notified : Ptr → Ptr → Ptr → Ptr → World G → World G
  notified wire signal value p w =
      if w.enabled (w.tokenport p).gate && has_behavior (w.tokenport p).gate
      then execute (w.tokenport p).gate
          (of_value signal (w.wire wire).subtype value (w.tokenport p).index) w
      else w

  -- One after the other, in the order of the list.
  abbrev pub notify_all : Ptr → Ptr → Ptr → List Ptr → World G → World G
  notify_all wire signal value [] w = w
  notify_all wire signal value (p ∷ ps) w =
      notify_all wire signal value ps (notified wire signal value p w)

-- The execution of a gate leaves the tokenports that each wire drives.
abbrev pub KeepsDrivens : {G : Type 0} → (Ptr → Message → World G → World G) → Type 0
KeepsDrivens {G} execute =
    (g : Ptr) (m : Message) (w : World G) (p : Ptr)
    → ((execute g m w).wire p).drivens ≡ (w.wire p).drivens

-- The place holds the new value.
imported :
    (ops : Operations) (v : Values) (value old : Ptr)
    → (lxc_import_new_value ops v value old).1 ≡ value
unfolding lxc_import_new_value
imported ops v value old = elim (Bool-cases (value == old)) [
  | inl e ↦ rw e (sym (eqb→eq value old e))
  | inr e ↦ rw e refl
]

module _ {G : Type 0} (ops : Operations) (execute : Ptr → Message → World G → World G)
    (has_behavior : Ptr → Bool) (hook : Ptr → Phase → Ptr → Ptr → ℕ → Ptr → World G → World G)
    (keeps : KeepsDrivens execute) where
  notify-notified :
      (wire signal value p : Ptr) (w : World G)
      → notify ops execute has_behavior hook false wire signal value p w
        ≡ some (notified execute has_behavior wire signal value p w)
  unfolding notify
  notify-notified wire signal value p w =
      elim (Bool-cases (w.enabled (w.tokenport p).gate && has_behavior (w.tokenport p).gate)) [
        | inl e ↦ rw e refl
        | inr e ↦ rw e refl
      ]

  notified-drivens :
      (wire signal value p : Ptr) (w : World G)
      → ((notified execute has_behavior wire signal value p w).wire wire).drivens
        ≡ (w.wire wire).drivens
  notified-drivens wire signal value p w =
      elim (Bool-cases (w.enabled (w.tokenport p).gate && has_behavior (w.tokenport p).gate)) [
        | inl e ↦ rw e (keeps _ _ w wire)
        | inr e ↦ rw e refl
      ]

  notify_loop-notify_all :
      (rounds : ℕ) (a : List Ptr) (i : ℕ) (wire signal value : Ptr) (w : World G)
      → i + rounds ≡ length a
      → (w.wire wire).drivens ≡ record { cells = some a; length = length a }
      → notify_loop ops execute has_behavior hook rounds false wire signal value (length a) i w
        ≡ some (notify_all execute has_behavior wire signal value (items_of (drop a i)) w)
  unfolding notify_loop
  notify_loop-notify_all zero a i wire signal value w e d = rw (drop_all a i (omega arith)) refl
  notify_loop-notify_all (suc rounds) a i wire signal value w e d =
      let p = get_elem?-total a i (omega arith) in
      rw (d, eqb_refl (length a), p.1, drop_at a i (p.0) (p.1))
        (elim (Bool-cases (p.0 == null)) [
          | inl n ↦ rw n refl
          | inr n ↦
              rw (n, notify-notified wire signal value (p.0) w)
                (notify_loop-notify_all rounds a (suc i) wire signal value
                  (notified execute has_behavior wire signal value (p.0) w) (omega arith)
                  (notified-drivens wire signal value (p.0) w ∙ d))
        ])

  notify_parts :
      (c : Option (List Ptr)) (n : ℕ) (wire signal value : Ptr) (w : World G)
      → CellsFit c n
      → (w.wire wire).drivens ≡ record { cells = c; length = n }
      → notify_loop ops execute has_behavior hook n false wire signal value n 0 w
        ≡ some (
            notify_all execute has_behavior wire signal value
              (items (record { cells = c; length = n }))
              w)
  unfolding notify_loop
  notify_parts none n wire signal value w fit d = rw fit refl
  notify_parts (some a) n wire signal value w fit d =
      subst
        (λ (m : ℕ).
          notify_loop ops execute has_behavior hook m false wire signal value m 0 w
          ≡ some (notify_all execute has_behavior wire signal value (items_of a) w))
        fit
        (notify_loop-notify_all (length a) a 0 wire signal value w (omega arith)
          (d ∙ ap (λ m. record { cells = some a; length = m }) (sym fit)))

  no_hooks :
      (w : World G) (wire : Ptr)
      → (w.wire wire).wire_debug_hooks ≡ none
      → has_hooks ops execute has_behavior hook w wire ≡ false
  no_hooks w wire hooks = rw (has_hooks, hooks) refl

  -- Writing a value to a wire without hooks whose drivens are allocated, where the execution of a
  -- gate leaves the drivens of the wires, succeeds: the wire holds the value, and then the
  -- enabled gates of its driven tokenports are executed with it, once for each tokenport and in their
  -- order, up to the first free cell.
  pub drive-notify_all :
      (instance_of : Ptr) (out_index : ℕ) (wire value : Ptr) (w : World G)
      → wire ≢ null
      → value ≢ null
      → (w.wire wire).wire_debug_hooks ≡ none
      → IsAllocated (w.wire wire).drivens
      → (lxc_drive_wire_value ops execute has_behavior hook instance_of out_index wire value w
          ≡ some (
              notify_all execute has_behavior wire
                (w.wire wire).type
                value
                (items (w.wire wire).drivens)
                (taken_value ops execute has_behavior hook wire value w)))
        × (((taken_value ops execute has_behavior hook wire value w).wire wire).current_value
            ≡ value)
  unfolding lxc_drive_wire_value wire_direct_propagate_wire_new_value
  drive-notify_all instance_of out_index wire value w set set' hooks fit = (
    rw (ne→eqb wire null set, ne→eqb value null set', no_hooks w wire hooks)
        (started
          ∙ notify_parts (w.wire wire).drivens.cells (w.wire wire).drivens.length wire
              (w.wire wire).type value w₂ fit (rw (eqb_refl wire) refl)),
    rw (eqb_refl wire) (imported ops w.values value (w.wire wire).current_value),
  )
    where
      w₂ : World G
      w₂ = taken_value ops execute has_behavior hook wire value w

      started :
          notify_loop ops execute has_behavior hook
            (w₂.wire wire).drivens.length
            false
            wire
            (w₂.wire wire).type
            value
            (w₂.wire wire).drivens.length
            0
            w₂
          ≡ notify_loop ops execute has_behavior hook
              (w.wire wire).drivens.length
              false
              wire
              (w.wire wire).type
              value
              (w.wire wire).drivens.length
              0
              w₂
      started = rw (eqb_refl wire) refl
