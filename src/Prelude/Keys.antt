-- ===== src/Prelude/Keys.antt =====
-- The keys of a map, and lists without repetition.
use Prim.Native.Nat.{ℕ, ◌+◌}
use mathlib.Core.Path.{◌≡◌, refl}
use mathlib.Core.Logic.{inl, inr}
use mathlib.Core.Bool.{true, false, ◌||◌}
use mathlib.Core.List.{List, [], ◌∷◌, ◌++◌}
use mathlib.Core.Option.{none, some}
use native.Mathlib.Omega.{arith}
use stell_aiverse_backend.Prelude.Tests.{◌==◌, if◌then◌else◌, Bool-cases}
use stell_aiverse_backend.Prelude.Lists.{includes, includes-append}
use stell_aiverse_backend.Prelude.Map.{lookup, insert, keys}

abbrev pub Distinct : List ℕ → Type 0
Distinct [] = Unit
Distinct (x ∷ xs) = (includes xs x ≡ false) × Distinct xs

abbrev pub count : ℕ → List ℕ → ℕ
count a [] = 0
count a (x ∷ xs) = (if x == a then 1 else 0) + count a xs

pub count-append :
    (id : ℕ) (front back : List ℕ) → count id (front ++ back) ≡ count id front + count id back
count-append id [] back = omega arith
count-append id (first ∷ front) back = ground (arith, count-append id front back)

pub count-excluded : (a : ℕ) (xs : List ℕ) → includes xs a ≡ false → count a xs ≡ 0
count-excluded a [] h = refl
count-excluded a (x ∷ xs) h = ground (arith, count-excluded a xs)

pub Distinct-append :
    (xs : List ℕ) (a : ℕ) → Distinct xs → includes xs a ≡ false → Distinct (xs ++ a ∷ [])
Distinct-append [] a d h = (refl, tt)
Distinct-append (x ∷ xs) a d h =
    ground (arith, Distinct-append xs a d.1, includes-append xs (a ∷ []) x)

module _ {ℓ} {V : Type ℓ} where
  pub includes-keys :
      (k : ℕ) (v : V) (m : List (ℕ × V)) → lookup k m ≡ some v → includes (keys m) k ≡ true
  unfolding lookup
  includes-keys k v [] h = ground arith
  includes-keys k v ((j, w) ∷ m) h = ground (arith, includes-keys k v m)

  pub lookup-excluded : (k : ℕ) (m : List (ℕ × V)) → includes (keys m) k ≡ false → lookup k m ≡ none
  unfolding lookup
  lookup-excluded k [] h = refl
  lookup-excluded k ((j, w) ∷ m) h = ground (arith, lookup-excluded k m)

  pub lookup-included :
      (k : ℕ) (m : List (ℕ × V)) → includes (keys m) k ≡ true → (v : V) × (lookup k m ≡ some v)
  unfolding lookup
  lookup-included k [] h = ground arith
  lookup-included k ((j, w) ∷ m) h = elim (Bool-cases (j == k)) [
    | inl hit ↦ (w, rw hit)
    | inr miss ↦
        let later : includes (keys m) k ≡ true = ground arith in
        let (v, e) = lookup-included k m later in (v, rw miss e)
  ]

  pub includes-keys-insert :
      (k j : ℕ) (v : V) (m : List (ℕ × V))
      → includes (keys (insert k v m)) j ≡ (k == j || includes (keys m) j)
  unfolding insert
  includes-keys-insert k j v [] = refl
  includes-keys-insert k j v ((i, w) ∷ m) = ground (arith, includes-keys-insert k j v m)

  pub Distinct-insert :
      (k : ℕ) (v : V) (m : List (ℕ × V)) → Distinct (keys m) → Distinct (keys (insert k v m))
  unfolding insert
  Distinct-insert k v [] d = (refl, tt)
  Distinct-insert k v ((j, w) ∷ m) d =
      ground (arith, Distinct-insert k v m d.1, includes-keys-insert k j v m)
