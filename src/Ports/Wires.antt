-- ===== src/Ports/Wires.antt =====
-- Wiring a port and reading it back, and two searches that go wrong.
use logxcontroll_v.Base.{
  ℕ, suc, ◌<◌, ◌≤◌, ◌≡◌, ◌≢◌, refl, inl, inr, none, some, false, List, [], ◌∷◌, leb, Bool-cases,
  length, get_elem?-set_self, get_elem?-set_ne, get_elem?-total, set, write-eq-set, ℤ, pos, negsuc,
  Ptr, null, arith,
}
use Prim.Native.String.{String}
use logxcontroll_v.Ports.{
  PortManager, PortName, lxc_port_get_absindex, name_in, lxc_port_check_portname_in_use,
}
use logxcontroll_v.Ports.Access.{
  lxc_port_get_wire, lxc_port_get_wire_safe, lxc_port_wiring, name_index,
  lxc_port_get_absindex_by_name,
}

-- Wiring a port whose absolute index lies within the array of wires returns 0; reading the port then
-- gives that wire, by the checked and by the unchecked function, and reading a port at another
-- absolute index gives what it gave before.
pub wiring-get_wire :
    (m : PortManager) (s s' : Ptr) (u u' : ℤ) (i i' a a' : ℕ) (arr : List Ptr) (w : Ptr)
    → lxc_port_get_absindex m s u i ≡ some (pos a)
    → lxc_port_get_absindex m s' u' i' ≡ some (pos a')
    → a ≢ a'
    → a < length arr
    → (arr' : List Ptr) × (lxc_port_wiring m s u i arr w ≡ some (pos 0, arr'))
      × (lxc_port_get_wire m s u i arr' ≡ some w)
      × (lxc_port_get_wire_safe m s u i arr' (length arr) ≡ some w)
      × (lxc_port_get_wire m s' u' i' arr' ≡ lxc_port_get_wire m s' u' i' arr)
unfolding lxc_port_wiring lxc_port_get_wire lxc_port_get_wire_safe
wiring-get_wire m s s' u u' i i' a a' arr w h h' d inside = (
  set arr a w,
  rw h (rw (write-eq-set arr a w inside) refl),
  rw h (get_elem?-set_self arr a w inside),
  rw h (rw (below (length arr) a inside) (get_elem?-set_self arr a w inside)),
  rw h' (get_elem?-set_ne arr a a' w d),
)
  where
    below : (n k : ℕ) → k < n → leb n k ≡ false
    below n k l = ground arith

-- Where the lookup of a port reads no memory outside of the manager and `port_size` is at most the
-- number of the wires, the checked read reads none outside of the wires.
pub get_wire_safe-total :
    (m : PortManager) (s : Ptr) (u : ℤ) (i : ℕ) (z : ℤ) (arr : List Ptr) (port_size : ℕ)
    → lxc_port_get_absindex m s u i ≡ some z
    → port_size ≤ length arr
    → (w : Ptr) × (lxc_port_get_wire_safe m s u i arr port_size ≡ some w)
unfolding lxc_port_get_wire_safe
get_wire_safe-total m s u i (negsuc n) arr k h l = (null, rw h refl)
get_wire_safe-total m s u i (pos a) arr k h l = elim (Bool-cases (leb k a)) [
  | inl b ↦ (null, rw h (rw b refl))
  | inr b ↦ let (w, e) = get_elem?-total arr a (omega (arith, inside a k b)) in (w, rw h (rw b e))
]
  where
    inside : (x n : ℕ) → leb n x ≡ false → x < n
    inside x n b = ground arith

name_index_missing :
    (ns : List PortName) (name : String) (i : ℕ)
    → name_in ns name ≡ false
    → name_index ns name i ≡ none
unfolding name_in name_index
name_index_missing [] name i h = refl
name_index_missing (n ∷ ns) name i h = ground (arith, h, name_index_missing ns name (suc i))

-- Looking for a port by a name that no port has does not return: it reads behind the names.
by_name_missing :
    (m : PortManager) (name : String)
    → lxc_port_check_portname_in_use m name ≡ false
    → lxc_port_get_absindex_by_name m name ≡ none
unfolding lxc_port_check_portname_in_use lxc_port_get_absindex_by_name
by_name_missing m name h = name_index_missing m.port_names name 0 h
