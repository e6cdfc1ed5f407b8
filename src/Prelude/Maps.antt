-- ===== src/Prelude/Maps.antt =====
-- Go's maps with string keys, as association lists. A write to a key that is there keeps its place.
use Prim.Native.Nat.{ℕ, ◌+◌}
use Prim.Native.String.{String}
use mathlib.Core.Path.{◌≡◌, refl}
use mathlib.Core.Bool.{Bool, true, false}
use mathlib.Core.Option.{Option, none, some}
use mathlib.Core.List.{List, [], ◌∷◌}
use native.Mathlib.Omega.{arith}
use text.Mathlib.Text.{◌==◌ as str_eq}
use text.Mathlib.TextEquality.{eq_iff}
use opc_platform.Prelude.Tests.{if◌then◌else◌, ltb}
use opc_platform.Prelude.Lists.{hit, count}

abbrev pub Map {ℓ} : Type ℓ → Type ℓ
Map V = List (String × V)

module _ {ℓ} {V : Type ℓ} where
  -- `value, ok := m[key]`
  unfoldable pub lookup : String → Map V → Option V
  lookup key [] = none
  lookup key ((at, value) ∷ more) =
      let later = lookup key more in if str_eq at key then some value else later

  -- `m[key]`, which is the type's zero value where the key is missing.
  abbrev pub lookup_or : String → Map V → V → V
  lookup_or key m zero_value = elim (lookup key m) [ none ↦ zero_value | some value ↦ value ]

  abbrev pub has_key : String → Map V → Bool
  has_key key m = elim (lookup key m) [ none ↦ false | some _ ↦ true ]

  -- `m[key] = value`
  unfoldable pub insert : String → V → Map V → Map V
  insert key value [] = (key, value) ∷ []
  insert key value ((at, old) ∷ more) =
      let later = insert key value more in
      if str_eq at key then (at, value) ∷ more else (at, old) ∷ later

  -- `delete(m, key)`
  unfoldable pub delete : String → Map V → Map V
  delete key [] = []
  delete key ((at, value) ∷ more) =
      let later = delete key more in if str_eq at key then later else (at, value) ∷ later

  unfoldable pub keys : Map V → List String
  keys [] = []
  keys ((j, v) ∷ m) = j ∷ keys m

  -- What is read after a write.
  pub lookup-insert :
      (written read : String) (value : V) (m : Map V)
      → lookup read (insert written value m)
        ≡ (if str_eq written read then some value else lookup read m)
  unfolding insert lookup
  lookup-insert written read value [] = refl
  lookup-insert written read value ((at, old) ∷ more) =
      let later = lookup-insert written read value more in
      ground (arith, later, eq_iff at written, eq_iff written read, eq_iff at read)

  pub lookup_or-insert :
      (k j : String) (v : V) (m : Map V) (d : V)
      → lookup_or j (insert k v m) d ≡ (if str_eq k j then v else lookup_or j m d)
  lookup_or-insert k j v m d = ground (arith, lookup-insert k j v m)

  pub lookup-delete :
      (k j : String) (m : Map V) → lookup j (delete k m) ≡ (if str_eq k j then none else lookup j m)
  unfolding lookup delete
  lookup-delete k j [] = ground arith
  lookup-delete k j ((i, w) ∷ m) =
      ground (arith, eq_iff k j, eq_iff i k, eq_iff i j, lookup-delete k j m)

  -- The keys are what has a value.
  pub has_key-count : (key : String) (m : Map V) → has_key key m ≡ ltb 0 (count key (keys m))
  unfolding lookup keys count
  has_key-count key [] = refl
  has_key-count key ((at, value) ∷ more) = ground (arith, has_key-count key more, eq_iff at key)

  pub count-keys-insert :
      (k j : String) (v : V) (m : Map V)
      → count j (keys (insert k v m)) ≡ count j (keys m) + (if has_key k m then 0 else hit k j)
  unfolding lookup insert keys count
  count-keys-insert k j v [] = ground arith
  count-keys-insert k j v ((i, w) ∷ m) =
      ground (arith, eq_iff k j, eq_iff i k, eq_iff i j, count-keys-insert k j v m)

  pub count-keys-delete :
      (k j : String) (m : Map V)
      → count j (keys (delete k m)) ≡ (if str_eq k j then 0 else count j (keys m))
  unfolding delete keys count
  count-keys-delete k j [] = ground arith
  count-keys-delete k j ((i, w) ∷ m) =
      ground (arith, eq_iff k j, eq_iff i k, eq_iff i j, count-keys-delete k j m)

-- The order in which the n-th `range` over a map visits its keys is the runtime's: it visits each
-- key once, in any order.
pub record MapOrder : Type 0 where
  pub range : ℕ → List String → List String
  pub range_keeps : (n : ℕ) (x : String) (ks : List String) → count x (range n ks) ≡ count x ks
