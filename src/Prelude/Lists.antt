-- ===== src/Prelude/Lists.antt =====
-- Lists measured by native numbers, and lists of names as multisets: `count` is how often a name
-- stands in a list, `has` whether it does, `missing` how many entries of a list another list lacks.
use mathlib.Core.Option.{Option, none, some}
use Prim.Native.Nat.{ℕ, zero, suc, ◌+◌, ◌-◌, ◌≤◌, ◌<◌}
use Prim.Native.String.{String}
use mathlib.Core.Path.{◌≡◌, refl, ap}
use mathlib.Core.Bool.{Bool, true, false, ◌||◌}
use mathlib.Core.List.{List, [], ◌∷◌, ◌++◌, map}
use native.Mathlib.Omega.{arith}
use text.Mathlib.Text.{◌==◌ as str_eq}
use text.Mathlib.TextEquality.{eq_iff}
use text.Mathlib.TextPositions.{eq_refl}
use opc_platform.Prelude.Tests.{if◌then◌else◌, ltb}

module _ {ℓ} {A : Type ℓ} where
  abbrev pub length : List A → ℕ
  length [] = 0
  length (x ∷ xs) = suc (length xs)

  -- A predicate of every entry.
  abbrev pub All {κ} : (A → Type κ) → List A → Type κ
  All P [] = Unit
  All P (x ∷ xs) = P x × All P xs

  abbrev pub keep : (A → Bool) → List A → List A
  keep p [] = []
  keep p (x ∷ xs) = let rest = keep p xs in if p x then x ∷ rest else rest

  -- `xs[i]`, which panics out of range.
  unfoldable pub get_elem? : List A → ℕ → Option A
  get_elem? [] i = none
  get_elem? (x ∷ xs) zero = some x
  get_elem? (x ∷ xs) (suc i) = get_elem? xs i

  pub get_elem?-length : (xs : List A) (i : ℕ) → i < length xs → (x : A) × (get_elem? xs i ≡ some x)
  unfolding get_elem?
  get_elem?-length [] i h = absurd (omega arith)
  get_elem?-length (x ∷ xs) zero h = (x, refl)
  get_elem?-length (x ∷ xs) (suc i) h = get_elem?-length xs i (omega arith)

  unfoldable pub drop : ℕ → List A → List A
  drop zero xs = xs
  drop (suc n) [] = []
  drop (suc n) (x ∷ xs) = drop n xs

  unfoldable pub take : ℕ → List A → List A
  take zero xs = []
  take (suc n) [] = []
  take (suc n) (x ∷ xs) = x ∷ take n xs

  pub take-drop : (n : ℕ) (xs : List A) → take n xs ++ drop n xs ≡ xs
  unfolding take drop
  take-drop zero xs = refl
  take-drop (suc n) [] = refl
  take-drop (suc n) (x ∷ xs) = ap (λ ys. x ∷ ys) (take-drop n xs)

  pub length-drop : (n : ℕ) (xs : List A) → length (drop n xs) ≡ length xs - n
  unfolding drop
  length-drop zero xs = omega arith
  length-drop (suc n) [] = omega arith
  length-drop (suc n) (x ∷ xs) = omega (arith, length-drop n xs)

  pub length-append : (xs ys : List A) → length (xs ++ ys) ≡ length xs + length ys
  length-append [] ys = omega arith
  length-append (x ∷ xs) ys = omega (arith, length-append xs ys)

pub length-map {ℓ κ} :
    {A : Type ℓ} {B : Type κ} (f : A → B) (xs : List A) → length (map f xs) ≡ length xs
length-map f [] = refl
length-map f (x ∷ xs) = omega (arith, length-map f xs)

-- 1 where the two names are equal.
abbrev pub hit : String → String → ℕ
hit x y = if str_eq x y then 1 else 0

unfoldable pub count : String → List String → ℕ
count x [] = 0
count x (y ∷ ys) = hit y x + count x ys

unfoldable pub has : String → List String → Bool
has x [] = false
has x (y ∷ ys) = str_eq y x || has x ys

unfoldable pub missing : List String → List String → ℕ
missing ps [] = 0
missing ps (d ∷ ds) = (if has d ps then 0 else 1) + missing ps ds

pub count-keep :
    (p : String → Bool) (x : String) (ys : List String)
    → count x (keep p ys) ≡ (if p x then count x ys else 0)
unfolding count
count-keep p x [] = ground arith
count-keep p x (y ∷ ys) = ground (arith, count-keep p x ys, eq_iff y x)

pub count-append : (x : String) (ys zs : List String) → count x (ys ++ zs) ≡ count x ys + count x zs
unfolding count
count-append x [] zs = omega arith
count-append x (y ∷ ys) zs = omega (arith, count-append x ys zs)

pub has-append : (x : String) (ys zs : List String) → has x (ys ++ zs) ≡ (has x ys || has x zs)
unfolding has
has-append x [] zs = refl
has-append x (y ∷ ys) zs = ground (arith, has-append x ys zs)

-- A name stands in a list just where its count is positive.
pub has-count : (x : String) (ys : List String) → has x ys ≡ ltb 0 (count x ys)
unfolding has count
has-count x [] = refl
has-count x (y ∷ ys) = ground (arith, has-count x ys)

pub missing-nil : (ds : List String) → missing [] ds ≡ length ds
unfolding missing has
missing-nil [] = refl
missing-nil (d ∷ ds) = omega (arith, missing-nil ds)

pub missing-append :
    (ps ds es : List String) → missing ps (ds ++ es) ≡ missing ps ds + missing ps es
unfolding missing
missing-append ps [] es = omega arith
missing-append ps (d ∷ ds) es = omega (arith, missing-append ps ds es)

-- One more name at hand makes the list lack that much less.
pub missing-cons :
    (x : String) (ps ds : List String)
    → has x ps ≡ false
    → missing (x ∷ ps) ds + count x ds ≡ missing ps ds
unfolding missing has count
missing-cons x ps [] h = omega arith
missing-cons x ps (d ∷ ds) h = ground (arith, missing-cons x ps ds h, eq_iff x d, eq_iff d x)

pub missing-cons_le : (x : String) (ps ds : List String) → missing (x ∷ ps) ds ≤ missing ps ds
unfolding missing has
missing-cons_le x ps [] = omega arith
missing-cons_le x ps (d ∷ ds) = ground (arith, missing-cons_le x ps ds)

-- A list lacks nothing just where each of its entries is at hand.
pub missing_zero :
    (x : String) (ps ds : List String) → missing ps ds ≡ 0 → 0 < count x ds → has x ps ≡ true
unfolding missing count
missing_zero x ps [] h m = absurd (omega arith)
missing_zero x ps (d ∷ ds) h m = ground (arith, missing_zero x ps ds, eq_iff d x)

pub missing_all :
    (ps ds : List String) → ((x : String) → 0 < count x ds → has x ps ≡ true) → missing ps ds ≡ 0
unfolding missing count
missing_all ps [] h = refl
missing_all ps (d ∷ ds) h =
    ground (arith, h d, eq_refl d, missing_all ps ds (λ x m. h x (omega arith)))
