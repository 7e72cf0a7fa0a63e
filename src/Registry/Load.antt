-- ===== src/Registry/Load.antt =====
-- lxc_load_library of core/accounting.c. `text` gives the address of a text, and the array of the
-- errors is a fixed array of pointers with `maxlength` as its length.

pub mod Keeps
pub mod Library
use logxcontroll_v.Base.{
  ℕ, zero, suc, Option, none, some, Bool, true, false, List, [], ◌∷◌, if◌then◌else◌, ℤ, pos, negsuc,
  Ptr, ◌>>=◌,
}
use Prim.Native.String.{String}
use logxcontroll_v.Arrays.Tracked.{TrackedArray}
use logxcontroll_v.Arrays.Fix.{array_fix_try_add_last_null}
use logxcontroll_v.Registry.{
  Objects, Registry, lxc_register_gate, lxc_register_signal, lxc_register_constant_value,
  lxc_error_bad_call,
}

-- enum library_operation, as far as it is used
pub data LibraryOperation : Type 0 where
  library_before_load library_after_loaded : LibraryOperation

-- struct lxc_loadable_library; the three NULL terminated arrays are lists, empty for NULL.
pub record LoadableLibrary : Type 0 where
  pub library_operation : Option (LibraryOperation → TrackedArray → ℤ × TrackedArray)
  pub gates : List Ptr
  pub signals : List Ptr
  pub constants : List Ptr

abbrev pub is_zero : ℤ → Bool
is_zero (pos zero) = true
is_zero _ = false

-- Two messages; a message for which the array has no room is lost.
unfoldable pub report : TrackedArray → Ptr → Ptr → Option TrackedArray
report errors what name = array_fix_try_add_last_null errors what >>= λ (b, e).
    array_fix_try_add_last_null e name >>= λ (b', e'). some e'

module _ (junk : Ptr) (o : Objects) (text : Option String → Ptr) where
  unfoldable pub load_gates : List Ptr → Registry → TrackedArray → Option (Registry × TrackedArray)
  unfolding report
  load_gates [] r errors = some (r, errors)
  load_gates (g ∷ gs) r errors = lxc_register_gate junk o r g >>= λ (ret, r').
      (if is_zero ret
        then some errors
        else report errors (text (some "Gate already registered.")) (text (o.gate_name g)))
      >>= λ e. load_gates gs r' e

  -- The first signal that is refused ends the loading.
  unfoldable pub load_signals :
      List Ptr → Registry → TrackedArray → Option (ℤ × Registry × TrackedArray)
  unfolding report
  load_signals [] r errors = some (pos 0, r, errors)
  load_signals (s ∷ ss) r errors = lxc_register_signal junk o r s >>= λ (ret, r').
      if is_zero ret
      then load_signals ss r' errors
      else (report errors (text (some "Signal already registered.")) (text (o.signal_name s))
          >>= λ e. some (ret, r', e))

  unfoldable pub load_constants :
      List Ptr → Registry → TrackedArray → Option (Registry × TrackedArray)
  unfolding report
  load_constants [] r errors = some (r, errors)
  load_constants (c ∷ cs) r errors = lxc_register_constant_value junk o r c >>= λ (ret, r').
      (if is_zero ret
        then some errors
        else report errors (text (some "Constant already registered.")) (text (o.constant_name c)))
      >>= λ e. load_constants cs r' e

  -- The call of the library's operation, 0 where it has none.
  unfoldable pub call_operation :
      LoadableLibrary → LibraryOperation → TrackedArray → ℤ × TrackedArray
  call_operation lib op errors = elim lib.library_operation [
    | none ↦ (pos 0, errors)
    | some f ↦ f op errors
  ]

  -- The part behind the signals.
  unfoldable pub load_rest :
      LoadableLibrary → ℤ × Registry × TrackedArray → Option (ℤ × Registry × TrackedArray)
  unfolding load_constants call_operation
  load_rest lib (ret, r, errors) =
      if is_zero ret
      then (load_constants lib.constants r errors >>= λ (r', e).
          let (ret', e') = call_operation lib library_after_loaded e in some (ret', r', e'))
      else some (ret, r, errors)

  unfoldable pub load_entries :
      LoadableLibrary → Registry → TrackedArray → Option (ℤ × Registry × TrackedArray)
  unfolding load_gates load_signals load_rest
  load_entries lib r errors =
      load_gates lib.gates r errors >>= λ (r', e). load_signals lib.signals r' e >>= load_rest lib

  -- What the operation before the load returns is not looked at.
  unfoldable pub lxc_load_library :
      Option LoadableLibrary → Registry → TrackedArray → Option (ℤ × Registry × TrackedArray)
  unfolding load_entries call_operation
  lxc_load_library none r errors =
      array_fix_try_add_last_null errors (text (some "Library reference is NULL.")) >>= λ (b, e).
      some (lxc_error_bad_call, r, e)
  lxc_load_library (some lib) r errors =
      load_entries lib r (call_operation lib library_before_load errors).1
