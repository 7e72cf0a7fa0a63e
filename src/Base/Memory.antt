-- ===== src/Base/Memory.antt =====
-- Memory as the C code sees it: pointers as numbers with NULL as 0, arrays of cells, and accesses
-- that fault (`none`) outside of the cells that are allocated.
use Prim.Native.Nat.{ℕ, zero, suc, ◌<◌}
use mathlib.Core.Path.{◌≡◌, refl, ap}
use mathlib.Core.List.{List, [], ◌∷◌}
use mathlib.Core.Option.{Option, none, some}
use native.Mathlib.Omega.{arith}
use logxcontroll_v.Base.Lists.{length, get_elem?, set}

abbrev pub Ptr : Type 0
Ptr = ℕ

abbrev pub null : Ptr
null = 0

infixl 5 ◌>>=◌ ◌>>◌
abbrev pub ◌>>=◌ {ℓ κ} : {A : Type ℓ} {B : Type κ} → Option A → (A → Option B) → Option B
none >>= f = none
some a >>= f = f a

abbrev pub ◌>>◌ {ℓ} : {B : Type ℓ} → Option (Unit {0}) → Option B → Option B
m >> k = m >>= λ _. k

pub >>=-assoc {ℓ κ μ} :
    {A : Type ℓ} {B : Type κ} {C : Type μ} (o : Option A) (f : A → Option B) (g : B → Option C)
    → ((o >>= f) >>= g) ≡ (o >>= λ a. f a >>= g)
>>=-assoc none f g = refl
>>=-assoc (some a) f g = refl

module _ {ℓ} {A : Type ℓ} where
  -- `a[i] = v`, a fault outside of the array.
  abbrev pub write : List A → ℕ → A → Option (List A)
  write [] i v = none
  write (x ∷ xs) zero v = some (v ∷ xs)
  write (x ∷ xs) (suc i) v = write xs i v >>= λ ys. some (x ∷ ys)

  -- `realloc` to `n` cells: cells that are added hold what the memory held, here `junk`.
  abbrev pub realloc : A → ℕ → List A → List A
  realloc junk zero xs = []
  realloc junk (suc n) [] = junk ∷ realloc junk n []
  realloc junk (suc n) (x ∷ xs) = x ∷ realloc junk n xs

module _ {ℓ} {A : Type ℓ} where
  pub write-eq-set :
      (xs : List A) (i : ℕ) (v : A) → i < length xs → write xs i v ≡ some (set xs i v)
  write-eq-set [] i v h = elim h [ ]
  write-eq-set (x ∷ xs) zero v h = refl
  write-eq-set (x ∷ xs) (suc i) v h = ground (arith, write-eq-set xs i v)

  pub length-realloc : (junk : A) (n : ℕ) (xs : List A) → length (realloc junk n xs) ≡ n
  length-realloc junk zero xs = refl
  length-realloc junk (suc n) [] = ap suc (length-realloc junk n [])
  length-realloc junk (suc n) (x ∷ xs) = ap suc (length-realloc junk n xs)

  pub get_elem?-realloc :
      (junk : A) (n : ℕ) (xs : List A) (i : ℕ)
      → i < n
      → i < length xs
      → get_elem? (realloc junk n xs) i ≡ get_elem? xs i
  get_elem?-realloc junk zero xs i h l = absurd (omega arith)
  get_elem?-realloc junk (suc n) [] i h l = elim l [ ]
  get_elem?-realloc junk (suc n) (x ∷ xs) zero h l = refl
  get_elem?-realloc junk (suc n) (x ∷ xs) (suc i) h l =
      get_elem?-realloc junk n xs i (omega arith) (omega arith)
