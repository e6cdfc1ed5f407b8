-- ===== src/Federation/Retries/Bounds.antt =====
-- How often the requests of the queue are sent.
use opc_platform.Prelude.{
  ℕ, suc, ◌+◌, ◌-◌, ◌*◌, ◌≤◌, ◌<◌, String, ◌≡◌, List, [], ◌∷◌, arith, ltb, leb, length, All,
  Bool-cases, inl, inr,
}
use mathlib.Core.List.{◌++◌ as append}
use opc_platform.Federation.Retries.{
  RetryEntry, Round, max_retries, enqueue, ready, remaining, tried_again, send_ready, process_once,
}

-- What is called of the queue, in order.
pub data QueueCall : Type 0 where
  enqueues : String → String → String → ℕ → QueueCall
  ticks : Round → QueueCall

unfoldable pub run_queue : List QueueCall → List RetryEntry → List RetryEntry
run_queue [] entries = entries
run_queue (enqueues id url payload now ∷ calls) entries =
    run_queue calls (enqueue id url payload now entries)
run_queue (ticks round ∷ calls) entries = run_queue calls (process_once round entries)

-- How many requests these calls send, and enqueue.
unfoldable pub sends_in : List QueueCall → List RetryEntry → ℕ
sends_in [] entries = 0
sends_in (enqueues id url payload now ∷ calls) entries =
    sends_in calls (enqueue id url payload now entries)
sends_in (ticks round ∷ calls) entries =
    length (ready round.now entries) + sends_in calls (process_once round entries)

unfoldable pub enqueued_in : List QueueCall → ℕ
enqueued_in [] = 0
enqueued_in (enqueues id url payload now ∷ calls) = suc (enqueued_in calls)
enqueued_in (ticks round ∷ calls) = enqueued_in calls

-- How often the entries may still be sent.
abbrev left : List RetryEntry → ℕ
left [] = 0
left (e ∷ es) = (e.max_attempts - e.attempts) + left es

abbrev Pending : List RetryEntry → Type 0
Pending = All (λ e. e.attempts < e.max_attempts)

append-Pending : (xs ys : List RetryEntry) → Pending xs → Pending ys → Pending (append xs ys)
append-Pending [] ys p q = q
append-Pending (x ∷ xs) ys (h, p) q = (h, append-Pending xs ys p q)

left-append : (xs ys : List RetryEntry) → left (append xs ys) ≡ left xs + left ys
left-append [] ys = omega arith
left-append (x ∷ xs) ys = omega (arith, left-append xs ys)

ready-Pending :
    (now : ℕ) (es : List RetryEntry)
    → Pending es
    → Pending (ready now es)
      × Pending (remaining now es)
      × (left (ready now es) + left (remaining now es) ≡ left es)
unfolding ready remaining
ready-Pending now [] p = (tt, tt, omega arith)
ready-Pending now (e ∷ es) (h, p) =
    let rest = ready-Pending now es p in
    elim (Bool-cases (ltb e.next_retry now)) [
      | inl due ↦ rw due ((h, rest.0), rest.1, omega (arith, rest.2))
      | inr early ↦ rw early (rest.0, (h, rest.1), omega (arith, rest.2))
    ]

-- Every entry that is sent takes at least one from what is left.
send_ready-left :
    (round : Round) (es entries : List RetryEntry)
    → Pending es
    → Pending entries
    → Pending (send_ready round es entries)
      × (length es + left (send_ready round es entries) ≤ left es + left entries)
unfolding send_ready
send_ready-left round [] entries p q = (q, omega arith)
send_ready-left round (e ∷ es) entries (h, p) q = elim (Bool-cases (round.accepts e)) [
  | inl sent ↦
      let rest = send_ready-left round es entries p q in rw sent (rest.0, omega (arith, rest.1, h))
  | inr refused ↦ elim (Bool-cases (leb e.max_attempts (suc e.attempts))) [
    | inl exhausted ↦
        let rest = send_ready-left round es entries p q in
        rw (refused, exhausted) (rest.0, omega (arith, rest.1, h))
    | inr more ↦
        let again = tried_again round.later e ∷ [] in
        let below : suc e.attempts < e.max_attempts = ground (arith, more) in
        let rest =
          send_ready-left round es (append entries again) p
            (append-Pending entries again q (below, tt)) in
        rw (refused, more) (rest.0, omega (arith, rest.1, h, below, left-append entries again))
  ]
]

process_once-left :
    (round : Round) (entries : List RetryEntry)
    → Pending entries
    → Pending (process_once round entries)
      × (length (ready round.now entries) + left (process_once round entries) ≤ left entries)
unfolding process_once
process_once-left round entries p =
    let split = ready-Pending round.now entries p in
    let sent =
      send_ready-left round (ready round.now entries) (remaining round.now entries) split.0
        split.1 in
    (sent.0, omega (arith, sent.1, split.2))

sends_in-left :
    (calls : List QueueCall) (entries : List RetryEntry)
    → Pending entries
    → sends_in calls entries + left (run_queue calls entries)
      ≤ left entries + max_retries * enqueued_in calls
unfolding sends_in enqueued_in run_queue enqueue
sends_in-left [] entries p = omega arith
sends_in-left (enqueues id url payload now ∷ calls) entries p =
    let new : List RetryEntry =
      (record {
        entry_id = id;
        url = url;
        payload = payload;
        attempts = 0;
        max_attempts = max_retries;
        next_retry = now + 1;
        created_at = now;
      })
      ∷ [] in
    omega (
      arith,
      left-append entries new,
      sends_in-left calls (append entries new) (append-Pending entries new p (omega arith, tt)),
    )
sends_in-left (ticks round ∷ calls) entries p =
    let once = process_once-left round entries p in
    omega (arith, once.1, sends_in-left calls (process_once round entries) once.0)

-- Whatever is enqueued and however the other side answers, an empty queue sends a request at most ten
-- times for every request that is enqueued.
pub sends_in-max_retries :
    (calls : List QueueCall) → sends_in calls [] ≤ max_retries * enqueued_in calls
sends_in-max_retries calls = omega (arith, sends_in-left calls [] tt)
