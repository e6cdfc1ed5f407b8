-- ===== src/Federation/Retries.antt =====
-- pkg/federation/retry.go: the queue of requests that failed. Times are in seconds; the answers of the
-- other side are a parameter. A round is what `processOnce` does at one tick.
pub mod Bounds
use opc_platform.Prelude.{
  ℕ, suc, ◌+◌, ◌^◌, String, Bool, true, false, List, [], ◌∷◌, if◌then◌else◌, ltb, leb,
}
use mathlib.Core.List.{◌++◌ as append}

pub record RetryEntry : Type 0 where
  pub entry_id : String
  pub url : String
  pub payload : String
  pub attempts : ℕ
  pub max_attempts : ℕ
  pub next_retry : ℕ
  pub created_at : ℕ

abbrev pub max_retries : ℕ
max_retries = 10

unfoldable pub enqueue : String → String → String → ℕ → List RetryEntry → List RetryEntry
enqueue id url payload now entries = append entries (
    (record {
      entry_id = id;
      url = url;
      payload = payload;
      attempts = 0;
      max_attempts = max_retries;
      next_retry = now + 1;
      created_at = now;
    })
    ∷ [])

-- `e.NextRetry.Before(now)`
unfoldable pub ready : ℕ → List RetryEntry → List RetryEntry
ready now [] = []
ready now (e ∷ entries) =
    let rest = ready now entries in if ltb e.next_retry now then e ∷ rest else rest

unfoldable pub remaining : ℕ → List RetryEntry → List RetryEntry
remaining now [] = []
remaining now (e ∷ entries) =
    let rest = remaining now entries in if ltb e.next_retry now then rest else e ∷ rest

-- In seconds, at most five minutes.
unfoldable pub backoff : ℕ → ℕ
backoff attempts = let delay = 2 ^ attempts in if ltb 300 delay then 300 else delay

-- A round: when it begins, when a request that failed is scheduled again, and whether the other side
-- takes a request.
pub record Round : Type 0 where
  pub now : ℕ
  pub later : ℕ
  pub accepts : RetryEntry → Bool

abbrev pub tried_again : ℕ → RetryEntry → RetryEntry
unfolding backoff
tried_again later e = record e {
  attempts = suc e.attempts;
  next_retry = later + backoff (suc e.attempts);
}

-- The loop over the entries that are ready, which are sent one by one.
unfoldable pub send_ready : Round → List RetryEntry → List RetryEntry → List RetryEntry
unfolding backoff
send_ready round [] entries = entries
send_ready round (e ∷ es) entries = send_ready round es (
    if round.accepts e
    then entries
    else if leb e.max_attempts (suc e.attempts)
    then entries
    else append entries (tried_again round.later e ∷ []))

unfoldable pub process_once : Round → List RetryEntry → List RetryEntry
unfolding ready remaining send_ready
process_once round entries =
    send_ready round (ready round.now entries) (remaining round.now entries)
