-- ===== src/Prelude/Maps.antt =====
-- Go's `map[string]V`. The order of the list stands for the order in which `range` visits.
use mathlib.Core.Path.{◌≡◌, refl}
use mathlib.Core.Bool.{Bool, true, false}
use mathlib.Core.Option.{Option, none, some}
use mathlib.Core.List.{List, [], ◌∷◌}
use native.Mathlib.Omega.{arith}
use k8s_deploy_monitor_opera.Prelude.Tests.{if◌then◌else◌, is_some, if_both, Bool-cases}
use k8s_deploy_monitor_opera.Prelude.Lists.{All}
use mathlib.Core.Logic.{inl, inr}
use mathlib.Core.Path.{subst, ap}
use k8s_deploy_monitor_opera.Prelude.Strings.{GoString, ◌==◌, eq_iff, eq_refl}

abbrev pub Map {ℓ} : Type ℓ → Type ℓ
Map V = List (GoString × V)

module _ {ℓ} {V : Type ℓ} where
  -- v, ok := m[k]
  unfoldable pub lookup : GoString → Map V → Option V
  lookup key [] = none
  lookup key ((name, value) ∷ rest) = if name == key then some value else lookup key rest

  -- m[k] = v
  unfoldable pub insert : GoString → V → Map V → Map V
  insert key value [] = (key, value) ∷ []
  insert key value ((name, old) ∷ rest) =
      if name == key then (key, value) ∷ rest else (name, old) ∷ insert key value rest

  -- delete(m, k)
  unfoldable pub remove : GoString → Map V → Map V
  remove k [] = []
  remove k ((j, v) ∷ m) = let rest = remove k m in if j == k then rest else (j, v) ∷ rest

  -- _, ok := m[k]
  unfoldable pub has_key : GoString → Map V → Bool
  has_key k m = is_some (lookup k m)

  pub lookup-insert :
      (key name : GoString) (value : V) (m : Map V)
      → lookup name (insert key value m) ≡ (if key == name then some value else lookup name m)
  unfolding lookup insert
  lookup-insert key name value [] = refl
  lookup-insert key name value ((first, old) ∷ rest) = ground (
    arith,
    lookup-insert key name value rest,
    eq_iff first key,
    eq_iff first name,
    eq_iff key name,
  )

  pub lookup-remove :
      (k j : GoString) (m : Map V) → lookup j (remove k m) ≡ (if k == j then none else lookup j m)
  unfolding lookup remove
  lookup-remove k j [] = ground arith
  lookup-remove k j ((i, w) ∷ m) =
      ground (arith, eq_iff k j, eq_iff i k, eq_iff i j, lookup-remove k j m)

  pub lookup-insert_self : (k : GoString) (v : V) (m : Map V) → lookup k (insert k v m) ≡ some v
  lookup-insert_self k v m = simp (lookup-insert, eq_refl)

  pub lookup-remove_self : (k : GoString) (m : Map V) → lookup k (remove k m) ≡ none
  lookup-remove_self k m = simp (lookup-remove, eq_refl)

  pub has_key-insert :
      (k j : GoString) (v : V) (m : Map V)
      → has_key j (insert k v m) ≡ (if k == j then true else has_key j m)
  unfolding has_key
  has_key-insert k j v m = ground (arith, lookup-insert k j v m)

  pub has_key-remove :
      (k j : GoString) (m : Map V)
      → has_key j (remove k m) ≡ (if k == j then false else has_key j m)
  unfolding has_key
  has_key-remove k j m = ground (arith, lookup-remove k j m)

  pub lookup-nil : (k : GoString) → lookup k [] ≡ none
  unfolding lookup
  lookup-nil k = refl

pub has_key-nil {ℓ} : (V : Type ℓ) (k : GoString) → has_key {V = V} k [] ≡ false
unfolding has_key lookup
has_key-nil V k = refl

module _ {ℓ} {V : Type ℓ} where
  pub has_key-cons :
      (k j : GoString) (v : V) (m : Map V)
      → has_key k ((j, v) ∷ m) ≡ (if j == k then true else has_key k m)
  unfolding has_key lookup
  has_key-cons k j v m = ground arith

-- m[k] on a `map[string]bool`: a missing key reads as false.
unfoldable pub index : Map Bool → GoString → Bool
index m k = elim (lookup k m) [ none ↦ false | some b ↦ b ]

pub index-insert :
    (k j : GoString) (b : Bool) (m : Map Bool)
    → index (insert k b m) j ≡ (if k == j then b else index m j)
unfolding index
index-insert k j b m = ground (arith, lookup-insert k j b m)

pub ruleset map_laws = (
  lookup-nil, lookup-insert, lookup-remove, has_key-insert, has_key-remove, index-insert, eq_refl,
)

-- Every key stands once, as in a Go map.
abbrev pub HasUniqueKeys {ℓ} : {V : Type ℓ} → Map V → Type ℓ
HasUniqueKeys [] = Unit
HasUniqueKeys ((k, v) ∷ m) = (lookup k m ≡ none) × HasUniqueKeys m

pub insert-HasUniqueKeys {ℓ} :
    {V : Type ℓ} (k : GoString) (v : V) (m : Map V) → HasUniqueKeys m → HasUniqueKeys (insert k v m)
unfolding insert
insert-HasUniqueKeys k v [] h = (lookup-nil k, tt)
insert-HasUniqueKeys k v ((j, w) ∷ m) h =
    ground (arith, insert-HasUniqueKeys k v m, lookup-insert k j v m, eq_iff j k, eq_iff k j)

module _ {ℓ κ} {V : Type ℓ} (P : GoString × V → Type κ) where
  pub All-insert : (k : GoString) (v : V) (m : Map V) → P (k, v) → All P m → All P (insert k v m)
  unfolding insert
  All-insert k v [] p h = (p, tt)
  All-insert k v ((j, w) ∷ m) p h =
      if_both (All P) (j == k) _ _ (p, h.1) (h.0, All-insert k v m p h.1)

  pub All-remove : (k : GoString) (m : Map V) → All P m → All P (remove k m)
  unfolding remove
  All-remove k [] h = h
  All-remove k ((j, w) ∷ m) h =
      if_both (All P) (j == k) _ _ (All-remove k m h.1) (h.0, All-remove k m h.1)

  pub All-lookup : (k : GoString) (v : V) (m : Map V) → lookup k m ≡ some v → All P m → P (k, v)
  unfolding lookup
  All-lookup k v [] e h = cc
  All-lookup k v ((j, w) ∷ m) e h = elim (Bool-cases (j == k)) [
    | inl same ↦
        let p : j ≡ k = (eq_iff j k).0 same in
        let q : w ≡ v = ground arith in subst P (λ i. (p i, q i)) h.0
    | inr other ↦ All-lookup k v m (ground arith) h.1
  ]

module _ {ℓ} {V : Type ℓ} (k : GoString) (v : V) where
  -- a key that is not found has no entry
  All-absent : (m : Map V) → lookup k m ≡ none → All (λ e. e.0 == k ≡ true → e.1 ≡ v) m
  unfolding lookup
  All-absent [] e = tt
  All-absent ((j, w) ∷ m) e = (λ h. ground arith, All-absent m (absent_tail j w m e))
    where
      absent_tail :
          (j : GoString) (w : V) (m : Map V) → lookup k ((j, w) ∷ m) ≡ none → lookup k m ≡ none
      absent_tail j w m e = ground arith

  -- In a map every entry of a key has the value that is found under it.
  pub All-eq-lookup :
      (m : Map V) → HasUniqueKeys m → lookup k m ≡ some v → All (λ e. e.0 == k ≡ true → e.1 ≡ v) m
  unfolding lookup
  All-eq-lookup [] u e = cc
  All-eq-lookup ((j, w) ∷ m) u e = elim (Bool-cases (j == k)) [
    | inl same ↦
        (λ h. ground arith, All-absent m (subst (λ i. lookup i m ≡ none) ((eq_iff j k).0 same) u.0))
    | inr other ↦ (λ h. ground arith, All-eq-lookup m u.1 (ground arith))
  ]

pub has_key_of_lookup {ℓ} :
    {V : Type ℓ} (k : GoString) (v : V) (m : Map V) → lookup k m ≡ some v → has_key k m ≡ true
unfolding has_key
has_key_of_lookup k v m e = rw e

pub has_key_same_lookup {ℓ} :
    {V : Type ℓ} (k : GoString) (m m' : Map V)
    → lookup k m ≡ lookup k m'
    → has_key k m ≡ has_key k m'
unfolding has_key
has_key_same_lookup k m m' e = ap is_some e
