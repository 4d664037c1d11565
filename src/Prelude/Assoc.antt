-- ===== src/Prelude/Assoc.antt =====
-- `std::unordered_map` and `std::map` as association lists: what the code does with them is
-- lookup, insertion, erasure and a walk over the entries. A new key goes to the end.
use mathlib.Core.Path.{◌≡◌, refl, subst}
use mathlib.Core.Logic.{inl, inr}
use mathlib.Core.Logic.{inl, inr}
use mathlib.Core.List.{List, [], ◌∷◌, ◌++◌, map}
use mathlib.Core.Bool.{Bool, true, false, ◌||◌}
use mathlib.Core.Option.{Option, none, some}
use native.Mathlib.Omega.{arith}
use Prim.Native.Nat.{◌≤◌, ◌+◌}
use strixcam.Prelude.Lists.{length}
use strixcam.Prelude.Tests.{Comparable, Bool-cases, ◌==◌, if◌then◌else◌}

abbrev pub Assoc {ℓ κ} : Type ℓ → Type κ → Type (ℓ ⊔ κ)
Assoc K V = List (K × V)

abbrev pub keys {ℓ κ} : {K : Type ℓ} {V : Type κ} → Assoc K V → List K
keys = map (λ e. e.0)

-- `std::list::remove`: every equal element goes.
module _ {ℓ} {K : Type ℓ} ⦃e : Comparable K⦄ where
  unfoldable pub remove : K → List K → List K
  remove k [] = []
  remove k (x ∷ xs) = let rest = remove k xs in if x == k then rest else x ∷ rest

  unfoldable pub contains : K → List K → Bool
  contains k [] = false
  contains k (x ∷ xs) = if x == k then true else contains k xs

module _ {ℓ κ} {K : Type ℓ} {V : Type κ} ⦃e : Comparable K⦄ where
  unfoldable pub lookup : K → Assoc K V → Option V
  lookup k [] = none
  lookup k ((j, v) ∷ m) = if j == k then some v else lookup k m

  -- `m[k] = v`
  unfoldable pub insert : K → V → Assoc K V → Assoc K V
  insert key value [] = (key, value) ∷ []
  insert key value ((i, old) ∷ rest) =
      if i == key then (i, value) ∷ rest else (i, old) ∷ insert key value rest

  unfoldable pub erase : K → Assoc K V → Assoc K V
  erase k [] = []
  erase k ((j, v) ∷ m) = let rest = erase k m in if j == k then rest else (j, v) ∷ rest

  pub lookup-insert :
      (key asked : K) (value : V) (m : Assoc K V)
      → lookup asked (insert key value m) ≡ (if key == asked then some value else lookup asked m)
  unfolding insert lookup
  lookup-insert key asked value [] = refl
  lookup-insert key asked value ((i, old) ∷ rest) = ground (
    arith,
    e.same_iff key asked,
    e.same_iff i key,
    e.same_iff i asked,
    lookup-insert key asked value rest,
  )

  pub lookup-erase :
      (k j : K) (m : Assoc K V) → lookup j (erase k m) ≡ (if k == j then none else lookup j m)
  unfolding lookup erase
  lookup-erase k j [] = ground arith
  lookup-erase k j ((i, w) ∷ m) =
      ground (arith, e.same_iff k j, e.same_iff i k, e.same_iff i j, lookup-erase k j m)

  pub keys-erase : (k : K) (m : Assoc K V) → keys (erase k m) ≡ remove k (keys m)
  unfolding erase remove
  keys-erase k [] = refl
  keys-erase k ((i, w) ∷ m) = ground (arith, keys-erase k m)

  pub keys-insert :
      (k : K) (v : V) (m : Assoc K V)
      → keys (insert k v m) ≡ (if contains k (keys m) then keys m else keys m ++ k ∷ [])
  unfolding insert contains
  keys-insert k v [] = refl
  keys-insert k v ((i, w) ∷ m) = ground (arith, keys-insert k v m)

  pub lookup-none_iff : (k : K) (m : Assoc K V) → lookup k m ≡ none → contains k (keys m) ≡ false
  unfolding lookup contains
  lookup-none_iff k [] h = refl
  lookup-none_iff k ((i, w) ∷ m) h = ground (arith, lookup-none_iff k m)

-- No two elements of a list of keys are equal.
abbrev pub Distinct {ℓ} : {K : Type ℓ} ⦃e : Comparable K⦄ → List K → Type 0
Distinct [] = Unit {0}
Distinct (x ∷ xs) = (contains x xs ≡ false) × Distinct xs

module _ {ℓ} {K : Type ℓ} ⦃e : Comparable K⦄ where
  pub contains-append :
      (k : K) (xs ys : List K) → contains k (xs ++ ys) ≡ (contains k xs || contains k ys)
  unfolding contains
  contains-append k [] ys = refl
  contains-append k (x ∷ xs) ys = ground (arith, contains-append k xs ys)

  pub contains-remove :
      (k j : K) (xs : List K) → contains j (remove k xs) ≡ (if k == j then false else contains j xs)
  unfolding contains remove
  contains-remove k j [] = ground arith
  contains-remove k j (x ∷ xs) =
      ground (arith, e.same_iff k j, e.same_iff x k, e.same_iff x j, contains-remove k j xs)

  pub remove-absent : (k : K) (xs : List K) → contains k xs ≡ false → remove k xs ≡ xs
  unfolding contains remove
  remove-absent k [] h = refl
  remove-absent k (x ∷ xs) h = ground (arith, remove-absent k xs)

  pub remove-Distinct : (k : K) (xs : List K) → Distinct xs → Distinct (remove k xs)
  unfolding remove
  remove-Distinct k [] d = tt
  remove-Distinct k (x ∷ xs) d =
      ground (arith, remove-Distinct k xs d.1, contains-remove k x xs, e.same_iff k x)

  pub append-Distinct :
      (k : K) (xs : List K) → contains k xs ≡ false → Distinct xs → Distinct (xs ++ k ∷ [])
  unfolding contains
  append-Distinct k [] h d = (refl, tt)
  append-Distinct k (x ∷ xs) h d =
      ground
        (arith, append-Distinct k xs, contains-append x xs (k ∷ []), e.same_iff k x, e.same_iff x k)

module _ {ℓ} {K : Type ℓ} ⦃e : Comparable K⦄ where
  pub remove-head : (k : K) (xs : List K) → contains k xs ≡ false → remove k (k ∷ xs) ≡ xs
  unfolding remove
  remove-head k xs h = ground (arith, e.same_iff k k, remove-absent k xs h)

module _ {ℓ κ} {K : Type ℓ} {V : Type κ} ⦃e : Comparable K⦄ where
  pub lookup-some-contains :
      (k : K) (v : V) (m : Assoc K V) → lookup k m ≡ some v → contains k (keys m) ≡ true
  unfolding lookup contains
  lookup-some-contains k v [] h = absurd (ground arith)
  lookup-some-contains k v ((i, w) ∷ m) h = ground (arith, lookup-some-contains k v m)

  pub length-erase-le : (k : K) (m : Assoc K V) → length (erase k m) ≤ length m
  unfolding erase
  length-erase-le k [] = omega arith
  length-erase-le k ((i, w) ∷ m) = ground (arith, length-erase-le k m)

  pub length-insert_new :
      (k : K) (v : V) (m : Assoc K V) → lookup k m ≡ none → length (insert k v m) ≡ length m + 1
  unfolding insert lookup
  length-insert_new k v [] h = omega arith
  length-insert_new k v ((i, w) ∷ m) h = ground (arith, length-insert_new k v m)

  pub length-insert_old :
      (k : K) (v w : V) (m : Assoc K V) → lookup k m ≡ some w → length (insert k v m) ≡ length m
  unfolding insert lookup
  length-insert_old k v w [] h = absurd (ground arith)
  length-insert_old k v w ((i, x) ∷ m) h = ground (arith, length-insert_old k v w m)

  -- What holds of the value written and of the other values holds of all that is found after.
  pub insert_all {μ} :
      (P : V → Type μ) (k j : K) (v w : V) (m : Assoc K V)
      → lookup j (insert k v m) ≡ some w
      → P v
      → (lookup j m ≡ some w → P w)
      → P w
  insert_all P k j v w m h pv pm = elim (Bool-cases (k == j)) [
    | inl same ↦ subst P (ground (arith, lookup-insert k j v m)) pv
    | inr other ↦ pm (ground (arith, lookup-insert k j v m))
  ]

  pub erase-absent : (k : K) (m : Assoc K V) → contains k (keys m) ≡ false → erase k m ≡ m
  unfolding contains erase
  erase-absent k [] h = refl
  erase-absent k ((i, w) ∷ m) h = ground (arith, erase-absent k m)

  pub erase-head :
      (k : K) (v : V) (m : Assoc K V) → contains k (keys m) ≡ false → erase k ((k, v) ∷ m) ≡ m
  unfolding erase
  erase-head k v m h = ground (arith, e.same_iff k k, erase-absent k m h)

  pub lookup-head : (k : K) (v : V) (m : Assoc K V) → lookup k ((k, v) ∷ m) ≡ some v
  unfolding lookup
  lookup-head k v m = ground (arith, e.same_iff k k)
