-- ===== src/Dispatcher/Turns.antt =====
-- Round robin over many calls, those of other groups between them.
use native.Mathlib.Nat.{suc-mod, mod-lt, mod-add-mod}
use opc_platform.Prelude.{
  Bool-cases, inl, inr, ℕ, suc, ◌+◌, ◌%◌, ◌<◌, String, ◌≡◌, sym, ap, ◌∙◌, List, [], ◌∷◌, All,
  if◌then◌else◌, arith, str_eq, eq_iff, Map, lookup_or, lookup_or-insert, length, get_elem?,
}
use opc_platform.Dispatcher.{round_robin}

-- The counters after calls for given candidates and groups.
abbrev pub Call : Type 0
Call = List String × String

unfoldable pub after_calls : List Call → Map ℕ → Map ℕ
after_calls [] counters = counters
after_calls ((names, group) ∷ calls) counters =
    after_calls calls (round_robin names group counters).1

unfoldable pub calls_of : String → List Call → ℕ
calls_of group [] = 0
calls_of group ((names, g) ∷ calls) = (if str_eq g group then 1 else 0) + calls_of group calls

-- The calls of the group are for that many candidates.
abbrev pub SizedBy : String → ℕ → Call → Type 0
SizedBy group size (names, g) = g ≡ group → length names ≡ size

suc_mod_mod : (a b n : ℕ) → a % n ≡ b % n → suc a % n ≡ suc b % n
suc_mod_mod a b n e = suc-mod a n ∙ ap (λ x. suc x % n) e ∙ sym (suc-mod b n)

bump : (v size n : ℕ) → size ≡ suc n → suc (v % size) % suc n ≡ (v + 1) % suc n
bump v size n e =
    let one : suc v ≡ v + 1 = omega arith in
    ap (λ k. suc (v % k) % suc n) e ∙ sym (suc-mod v (suc n)) ∙ ap (λ x. x % suc n) one

-- The counter moves up at the calls of its group only.
round_robin-counter :
    (names : List String) (g group : String) (n : ℕ) (counters : Map ℕ)
    → SizedBy group (suc n) (names, g)
    → lookup_or group (round_robin names g counters).1 0 % suc n
      ≡ (lookup_or group counters 0 + (if str_eq g group then 1 else 0)) % suc n
unfolding round_robin
round_robin-counter [] g group n counters sized = elim (Bool-cases (str_eq g group)) [
  | inl same ↦ absurd (ground (arith, sized (ground (arith, eq_iff g group, same))))
  | inr other ↦ rw other (ap (λ x. x % suc n) (omega arith))
]
round_robin-counter (c ∷ cs) g group n counters sized =
    let v = lookup_or g counters 0 in
    let w = lookup_or group counters 0 in
    let read = lookup_or-insert g group (suc (v % suc (length cs))) counters 0 in
    elim (Bool-cases (str_eq g group)) [
      | inl same ↦
          let named : g ≡ group = ground (arith, eq_iff g group, same) in
          ap (λ x. x % suc n) (read ∙ ap (λ b. if b then suc (v % suc (length cs)) else w) same)
          ∙ bump v (suc (length cs)) n (sized named)
          ∙ ap (λ x. (lookup_or x counters 0 + 1) % suc n) named
          ∙ ap (λ b. (w + (if b then 1 else 0)) % suc n) (sym same)
      | inr other ↦
          ap (λ x. x % suc n) (read ∙ ap (λ b. if b then suc (v % suc (length cs)) else w) other)
          ∙ rw other (ap (λ x. x % suc n) (omega arith))
    ]

after_calls-counter :
    (calls : List Call) (group : String) (n : ℕ) (counters : Map ℕ)
    → All (SizedBy group (suc n)) calls
    → lookup_or group (after_calls calls counters) 0 % suc n
      ≡ (lookup_or group counters 0 + calls_of group calls) % suc n
unfolding after_calls calls_of
after_calls-counter [] group n counters sized = ap (λ x. x % suc n) (omega arith)
after_calls-counter ((names, g) ∷ calls) group n counters sized =
    let hit = if str_eq g group then 1 else 0 in
    let later = calls_of group calls in
    let v = lookup_or group counters 0 in
    let w = lookup_or group (round_robin names g counters).1 0 in
    after_calls-counter calls group n (round_robin names g counters).1 sized.1
    ∙ sym (mod-add-mod w (suc n) later)
    ∙ ap (λ x. (x + later) % suc n) (round_robin-counter names g group n counters sized.0)
    ∙ mod-add-mod (v + hit) (suc n) later
    ∙ ap (λ x. x % suc n) (omega arith)

-- Round robin takes the candidates in turn: after any calls, those of other groups among them, the
-- pick stands at the group's starting point and one place on for each of its earlier calls.
pub round_robin-cycles :
    (calls : List Call) (names : List String) (group : String) (counters : Map ℕ)
    → 0 < length names
    → All (SizedBy group (length names)) calls
    → let turn = (lookup_or group counters 0 + calls_of group calls) % length names in
      (turn < length names)
      × ((round_robin names group (after_calls calls counters)).0 ≡ get_elem? names turn)
unfolding round_robin
round_robin-cycles calls [] group counters h sized = absurd (omega arith)
round_robin-cycles calls (c ∷ cs) group counters h sized = (
  mod-lt (lookup_or group counters 0 + calls_of group calls) h,
  ap (get_elem? (c ∷ cs)) (after_calls-counter calls group (length cs) counters sized),
)
