-- ===== src/Functional/Writes.antt =====
-- What a gate that wraps a function writes: functional_gate_execute of core/builtins/functional_wrapper.c.
use logxcontroll_v.Base.{
  drop, ℕ, zero, suc, ◌+◌, ◌≡◌, ◌≢◌, refl, sym, ◌∙◌, subst, inl, inr, Option, none, some, Bool,
  true, false, List, [], ◌∷◌, arith, ◌==◌, ◌&&◌, not, if◌then◌else◌, length, get_elem?-total, ℤ,
  eq_ℤ, Ptr, null, Bool-cases, eqb→eq,
}
use logxcontroll_v.Values.{Operations, lxc_unreference_value, lxc_refdiff_value}
use logxcontroll_v.Arrays.Tracked.{IsAllocated}
use logxcontroll_v.Arrays.Nt.Items.{items}
use logxcontroll_v.Wires.{World, Message}
use logxcontroll_v.Wires.Drive.{Phase, taken_value}
use logxcontroll_v.Wires.Notify.{drop_at, drop_all, notified, notify_all, drive-notify_all}
use logxcontroll_v.PortGates.{PortbGate}
use logxcontroll_v.Functional.{publish, given_up, write_outputs, functional_gate_execute}
use logxcontroll_v.Functional.Reads.{all_present, values_of, functional_execute-values}

branch :
    {A : Type 0} (b : Bool) (x : Option A) (y z : A)
    → (b ≡ true → x ≡ some y)
    → (if b then x else some z) ≡ some (if b then y else z)
branch true x y z h = h refl
branch false x y z h = refl

both_set :
    (o v : Ptr) (typed subtyped : Bool)
    → (not (o == null) && not (v == null) && typed && subtyped) ≡ true
    → (o ≢ null) × (v ≢ null)
both_set o v typed subtyped h = ground arith

-- From `w` to `w'` every wire keeps its hooks and the tokenports that it drives, and `g` its outputs.
pub record Kept (g : Ptr) (w w' : World PortbGate) : Type 0 where
  pub drivens : (p : Ptr) → (w'.wire p).drivens ≡ (w.wire p).drivens
  pub hooks : (p : Ptr) → (w'.wire p).wire_debug_hooks ≡ (w.wire p).wire_debug_hooks
  pub outputs : (w'.state g).outputs ≡ (w.state g).outputs

Kept-refl : (g : Ptr) (w : World PortbGate) → Kept g w w
Kept-refl g w = record { drivens = λ p. refl; hooks = λ p. refl; outputs = refl }

Kept-trans : (g : Ptr) (w w' w'' : World PortbGate) → Kept g w w' → Kept g w' w'' → Kept g w w''
Kept-trans g w w' w'' h k = record {
  drivens = λ p. k.drivens p ∙ h.drivens p;
  hooks = λ p. k.hooks p ∙ h.hooks p;
  outputs = k.outputs ∙ h.outputs;
}

-- Each wire among these has no hooks, and its drivens are allocated.
abbrev pub AreReady : World PortbGate → List Ptr → Type 0
AreReady w [] = Unit {0}
AreReady w (o ∷ os) =
    (o ≢ null → ((w.wire o).wire_debug_hooks ≡ none) × IsAllocated (w.wire o).drivens)
    × AreReady w os

AreReady-Kept :
    (g : Ptr) (w w' : World PortbGate) (os : List Ptr)
    → Kept g w w'
    → AreReady w os
    → AreReady w' os
AreReady-Kept g w w' [] k h = tt
AreReady-Kept g w w' (o ∷ os) k h = (
  λ ne. (k.hooks o ∙ (h.0 ne).0, subst (λ d. IsAllocated d) (sym (k.drivens o)) ((h.0 ne).1)),
  AreReady-Kept g w w' os k h.1,
)

module _ (ops : Operations) (execute : Ptr → Message → World PortbGate → World PortbGate)
    (has_behavior : Ptr → Bool)
    (hook : Ptr → Phase → Ptr → Ptr → ℕ → Ptr → World PortbGate → World PortbGate)
    (type_of : Ptr → Ptr) (subtype_of : Ptr → ℤ) where
  -- The wire is there and has the type of the value, which is no NULL.
  abbrev pub fits : Ptr → Ptr → World PortbGate → Bool
  fits o v w =
      not (o == null)
      && not (v == null)
      && (w.wire o).type == type_of v
      && eq_ℤ (w.wire o).subtype (subtype_of v)

  -- The wire holds the value and its enabled gates were executed with it, in their order.
  abbrev pub supplied : Ptr → Ptr → World PortbGate → World PortbGate
  supplied o v w =
      notify_all execute has_behavior o (w.wire o).type v (items (w.wire o).drivens)
        (taken_value ops execute has_behavior hook o v w)

  abbrev pub output_done : Ptr → Ptr → World PortbGate → World PortbGate
  output_done o v w =
      let w' : World PortbGate = if fits o v w then supplied o v w else w in
      record w' { values = (lxc_unreference_value ops w'.values v).1 }

  -- One output after the other gets its value where that fits, and the value is given up.
  abbrev pub all_supplied : List Ptr → List Ptr → World PortbGate → World PortbGate
  all_supplied [] vs w = w
  all_supplied (o ∷ os) [] w = w
  all_supplied (o ∷ os) (v ∷ vs) w = all_supplied os vs (output_done o v w)

  module _ (g : Ptr)
      (keeps : (h : Ptr) (m : Message) (w : World PortbGate) → Kept g w (execute h m w)) where
    notified-Kept :
        (wire signal value p : Ptr) (w : World PortbGate)
        → Kept g w (notified execute has_behavior wire signal value p w)
    notified-Kept wire signal value p w =
        elim (Bool-cases (w.enabled (w.tokenport p).gate && has_behavior (w.tokenport p).gate)) [
          | inl e ↦ rw e (keeps _ _ w)
          | inr e ↦ rw e (Kept-refl g w)
        ]

    notify_all-Kept :
        (wire signal value : Ptr) (ps : List Ptr) (w : World PortbGate)
        → Kept g w (notify_all execute has_behavior wire signal value ps w)
    notify_all-Kept wire signal value [] w = Kept-refl g w
    notify_all-Kept wire signal value (p ∷ ps) w =
        Kept-trans g w _ _ (notified-Kept wire signal value p w) (
          notify_all-Kept wire signal value ps
            (notified execute has_behavior wire signal value p w))

    taken-Kept :
        (o v : Ptr) (w : World PortbGate)
        → Kept g w (taken_value ops execute has_behavior hook o v w)
    taken-Kept o v w = record {
      drivens =
          λ p. elim (Bool-cases (o == p)) [ inl e ↦ rw (e, eqb→eq o p e) refl | inr e ↦ rw e refl ];
      hooks =
          λ p. elim (Bool-cases (o == p)) [ inl e ↦ rw (e, eqb→eq o p e) refl | inr e ↦ rw e refl ];
      outputs = refl;
    }

    done-Kept : (o v : Ptr) (w : World PortbGate) → Kept g w (output_done o v w)
    done-Kept o v w = elim (Bool-cases (fits o v w)) [
      | inl e ↦ rw e (
          by_parts (
            Kept-trans g w _ _ (taken-Kept o v w) (
              notify_all-Kept o (w.wire o).type v (items (w.wire o).drivens)
                (taken_value ops execute has_behavior hook o v w))))
      | inr e ↦ rw e (by_parts (Kept-refl g w))
    ]
      where
        by_parts :
            {w' : World PortbGate}
            → Kept g w w'
            → Kept g w (record w' { values = (lxc_unreference_value ops w'.values v).1 })
        by_parts k = record { drivens = k.drivens; hooks = k.hooks; outputs = k.outputs }

    publish-supplied :
        (function : List Ptr → List Ptr) (o v : Ptr) (w : World PortbGate)
        → (o ≢ null → ((w.wire o).wire_debug_hooks ≡ none) × IsAllocated (w.wire o).drivens)
        → publish ops execute has_behavior hook type_of subtype_of function g o v w
          ≡ some (if fits o v w then supplied o v w else w)
    unfolding publish
    publish-supplied function o v w h = branch (fits o v w) _ _ w (λ e.
        let (set_o, set_v) =
          both_set o v ((w.wire o).type == type_of v) (eq_ℤ (w.wire o).subtype (subtype_of v)) e in
        (drive-notify_all ops execute has_behavior hook (λ h' m w' p. (keeps h' m w').drivens p) g 0
          o v w set_o set_v ((h set_o).0) ((h set_o).1)).0)

    given_up-done :
        (function : List Ptr → List Ptr) (v : Ptr) (w : World PortbGate)
        → given_up ops execute has_behavior hook type_of subtype_of function v w
          ≡ record w { values = (lxc_unreference_value ops w.values v).1 }
    unfolding lxc_unreference_value lxc_refdiff_value
    given_up-done function v w = elim (Bool-cases (v == null)) [
      | inl e ↦ rw e refl
      | inr e ↦ rw e refl
    ]

    write-supplied :
        (function : List Ptr → List Ptr) (rounds i : ℕ) (out all : List Ptr) (w : World PortbGate)
        → (w.state g).outputs ≡ all
        → i + rounds ≡ length all
        → length out ≡ rounds
        → AreReady w (drop all i)
        → write_outputs ops execute has_behavior hook type_of subtype_of function g rounds i out w
          ≡ some (all_supplied (drop all i) out w)
    unfolding write_outputs
    write-supplied function zero i out all w e n l h = rw (drop_all all i (omega arith)) refl
    write-supplied function (suc rounds) i [] all w e n l h = absurd (omega arith)
    write-supplied function (suc rounds) i (v ∷ out) all w e n l h =
        let o = get_elem?-total all i (omega arith) in
        let ready = subst (λ l. AreReady w l) (drop_at all i (o.0) (o.1)) h in
        let kept = done-Kept (o.0) v w in
        rw
          (
            e,
            o.1,
            drop_at all i (o.0) (o.1),
            publish-supplied function (o.0) v w (ready.0),
            given_up-done function v (if fits (o.0) v w then supplied (o.0) v w else w),
          )
          (write-supplied function rounds (suc i) out all (output_done (o.0) v w) (kept.outputs ∙ e)
            (omega arith) (omega arith)
            (AreReady-Kept g w (output_done (o.0) v w) (drop all (suc i)) kept (ready.1)))

    -- Executing a gate that has a cell for each of its inputs and outputs, whose function gives a cell for each
    -- output, where the output wires have no hooks and allocated drivens, and the execution of gates leaves
    -- the hooks and drivens of all wires and the outputs of this gate, succeeds. Where an input is not wired or has
    -- no value nothing changes. Else one output after the other, with the results of the function for the values of the
    -- inputs in their order: a wire of the type of a result that is no NULL holds it, and then the enabled gates of its
    -- tokenports are executed with it, in their order; and the result is given up.
    pub functional_execute-supplied :
        (function : List Ptr → List Ptr) (w : World PortbGate)
        → length (w.state g).inputs ≡ (w.state g).input_ports.max_size
        → length (w.state g).outputs ≡ (w.state g).output_ports.max_size
        → length (function (values_of w (w.state g).inputs)) ≡ (w.state g).output_ports.max_size
        → AreReady w (w.state g).outputs
        → functional_gate_execute ops execute has_behavior hook type_of subtype_of function g w
          ≡ some (
              if all_present w (w.state g).inputs
              then all_supplied (w.state g).outputs (function (values_of w (w.state g).inputs)) w
              else w)
    functional_execute-supplied function w full outs results ready =
        functional_execute-values ops execute has_behavior hook type_of subtype_of function g w full
        ∙ branch (all_present w (w.state g).inputs) _ _ w (λ e.
          write-supplied function (w.state g).output_ports.max_size 0
            (function (values_of w (w.state g).inputs)) (w.state g).outputs w refl (omega arith)
            results ready)
