-- ===== src/Client/Retry/Bounded.antt =====
-- internal/client/api.go: how often a request is sent, how long the client waits, and what it ends with.
use xcloud.Prelude.{
  ℕ, zero, suc, ◌+◌, ◌*◌, ◌≤◌, ◌<◌, String, ◌≡◌, refl, inl, inr, Bool, true, false, ◌||◌, List, [],
  ◌∷◌, Option, none, some, if◌then◌else◌, ltb, ℤ, pos, negsuc, ◌≤ℤ◌, arith, length, Bool-cases,
}
use xcloud.Client.Retry.{
  max_attempts, max_backoff, initial_backoff, doubled, retry_backoff, retry_delay,
  retry_after_delay, should_retry_status, Handled, fine, refused, broken, unclosed, Attempt,
  no_request, unsent, answered, Run, ends, slept, after_body, after_attempt, attempts_from,
  do_with_retry,
}

doubled_bounds :
    (n delay : ℕ)
    → initial_backoff ≤ delay
    → (initial_backoff ≤ doubled n delay) × (doubled n delay ≤ max_backoff)
unfolding doubled
doubled_bounds zero delay h = ground arith
doubled_bounds (suc n) delay h =
    let rest = doubled_bounds n (delay * 2) (omega arith) in ground (arith, rest)

-- The delay is between half a second and eight.
abbrev pub IsDelay : ℤ → Type 0
IsDelay delay = (pos initial_backoff ≤ℤ delay) × (delay ≤ℤ pos max_backoff)

retry_delay-IsDelay : (n : ℕ) (server_delay : ℤ) → IsDelay (retry_delay (n + 1) server_delay)
unfolding retry_delay retry_backoff
retry_delay-IsDelay n (pos s) =
    let bounds = doubled_bounds n initial_backoff (omega arith) in ground (arith, bounds)
retry_delay-IsDelay n (negsuc s) =
    let bounds = doubled_bounds n initial_backoff (omega arith) in ground (arith, bounds)

or_true : (b : Bool) → (b || true) ≡ true
or_true b = ground arith

module _ {E : Type 0} where
  abbrev body_error : Handled E → Option E
  body_error fine = none
  body_error (refused e) = some e
  body_error (broken e) = some e
  body_error (unclosed e) = some e

  -- What an attempt comes to where it is the last one.
  abbrev pub error_of : Attempt E → Option E
  error_of (no_request e) = some e
  error_of (unsent e) = some e
  error_of (answered status header body) = body_error body

  abbrev is_broken : Handled E → Bool
  is_broken fine = false
  is_broken (refused e) = false
  is_broken (broken e) = true
  is_broken (unclosed e) = true

  -- Whether a later attempt may do better.
  abbrev pub is_transient : Attempt E → Bool
  is_transient (no_request e) = false
  is_transient (unsent e) = true
  is_transient (answered status header body) = should_retry_status status || is_broken body

  module _ (until : String → Option ℤ) (attempts : ℕ → Attempt E) where
    -- From an attempt on, every one but the last is transient and is followed by a delay; the last
    -- one's error is the run's, and that one is not transient or the last that is allowed.
    abbrev pub Retries : ℕ → List ℤ → Option E → Type 0
    Retries attempt [] error =
        (error ≡ error_of (attempts attempt))
        × (attempt < max_attempts → is_transient (attempts attempt) ≡ false)
    Retries attempt (delay ∷ sleeps) error =
        (is_transient (attempts attempt) ≡ true)
        × IsDelay delay
        × Retries (attempt + 1) sleeps error

    record IsRun (attempt : ℕ) (run : Run E) : Type 0 where
      short : length run.sleeps + attempt ≤ max_attempts
      retried : Retries attempt run.sleeps run.error

    ended :
        (n : ℕ) (a : Attempt E)
        → attempts (n + 1) ≡ a
        → n + 1 ≤ max_attempts
        → (n + 1 < max_attempts → is_transient a ≡ false)
        → IsRun (n + 1) (ends until attempts (error_of a))
    ended n a h le last = record { short = omega arith; retried = rw h (refl, last) }

    waited :
        (n : ℕ) (a : Attempt E) (server_delay : ℤ) (next : Run E)
        → attempts (n + 1) ≡ a
        → is_transient a ≡ true
        → IsRun (n + 1 + 1) next
        → IsRun (n + 1) (slept until attempts (retry_delay (n + 1) server_delay) next)
    waited n a server_delay next h again r = record {
      short = let le = r.short in omega arith;
      retried = (rw h again, retry_delay-IsDelay n server_delay, r.retried);
    }

    module _ (n : ℕ) (next : Run E) (le : n + 1 ≤ max_attempts)
        (later : n + 1 < max_attempts → IsRun (n + 1 + 1) next) where
      abbrev More : Bool → Type 0
      More m = ltb (n + 1) max_attempts ≡ m

      last_one : More false → (k : n + 1 < max_attempts) → ⊥
      last_one e k = let no : true ≡ false = ground arith in cc

      left : More true → n + 1 < max_attempts
      left e = ground arith

      wait_or_end :
          (m : Bool) (a : Attempt E) (server_delay : ℤ)
          → More m
          → attempts (n + 1) ≡ a
          → is_transient a ≡ true
          → IsRun (n + 1) (
              if m
              then slept until attempts (retry_delay (n + 1) server_delay) next
              else ends until attempts (error_of a))
      wait_or_end true a server_delay m h again =
          waited n a server_delay next h again (later (left m))
      wait_or_end false a server_delay m h again = ended n a h le λ k. absurd (last_one m k)

      body-IsRun :
          (m : Bool) (status : ℕ) (header : String) (body : Handled E)
          → More m
          → attempts (n + 1) ≡ answered status header body
          → (n + 1 < max_attempts → should_retry_status status ≡ false)
          → IsRun (n + 1) (after_body until attempts (n + 1) m body next)
      body-IsRun m status header fine e h calm =
          ended n (answered status header fine) h le λ k. rw (calm k) refl
      body-IsRun m status header (refused x) e h calm =
          ended n (answered status header (refused x)) h le λ k. rw (calm k) refl
      body-IsRun m status header (broken x) e h calm =
          wait_or_end m (answered status header (broken x)) (pos 0) e h (or_true _)
      body-IsRun m status header (unclosed x) e h calm =
          wait_or_end m (answered status header (unclosed x)) (pos 0) e h (or_true _)

      answered-IsRun :
          (m : Bool) (status : ℕ) (header : String) (body : Handled E)
          → More m
          → attempts (n + 1) ≡ answered status header body
          → IsRun
              (n + 1)
              (after_attempt until attempts (n + 1) m (answered status header body) next)
      unfolding after_attempt
      answered-IsRun m status header body e h = elim (Bool-cases (should_retry_status status)) [
        | inr calm ↦ rw calm (body-IsRun m status header body e h λ k. calm)
        | inl busy ↦ rw busy (by_left m e busy)
      ]
        where
          by_left :
              (m : Bool)
              → More m
              → should_retry_status status ≡ true
              → IsRun (n + 1) (
                  if m
                  then slept until attempts
                      (retry_delay (n + 1) (retry_after_delay until header))
                      next
                  else after_body until attempts (n + 1) m body next)
          by_left true e busy =
              waited n (answered status header body) _ next h (rw busy refl) (later (left e))
          by_left false e busy = body-IsRun false status header body e h λ k. absurd (last_one e k)

      after_attempt-IsRun :
          (a : Attempt E)
          → attempts (n + 1) ≡ a
          → IsRun (n + 1) (after_attempt until attempts (n + 1) (ltb (n + 1) max_attempts) a next)
      unfolding after_attempt
      after_attempt-IsRun (no_request e) h = ended n (no_request e) h le λ k. refl
      after_attempt-IsRun (unsent e) h = wait_or_end _ (unsent e) (pos 0) refl h refl
      after_attempt-IsRun (answered status header body) h =
          answered-IsRun _ status header body refl h

    attempts_from-IsRun :
        (left n : ℕ)
        → n + 1 + left ≡ max_attempts
        → IsRun (n + 1) (attempts_from until attempts (suc left) (n + 1))
    unfolding attempts_from
    attempts_from-IsRun zero n sum =
        after_attempt-IsRun n _ (omega arith) (λ k. absurd (omega arith)) (attempts (n + 1)) refl
    attempts_from-IsRun (suc left) n sum =
        let rest = attempts_from-IsRun left (n + 1) (omega arith) in
        after_attempt-IsRun n _ (omega arith) (λ k. rest) (attempts (n + 1)) refl

-- A request is sent at most five times, and always comes to an end: every attempt but the last one
-- came to an error that a later attempt may mend, and was followed by a wait of half a second to
-- eight seconds, whatever the server's Retry-After says; the error, or none, is that of the last
-- attempt, after which nothing is left to mend or no attempt is allowed.
pub do_with_retry_bounded :
    {E : Type 0} (until : String → Option ℤ) (attempts : ℕ → Attempt E)
    → (length (do_with_retry until attempts).sleeps < max_attempts)
      × Retries until attempts 1
          (do_with_retry until attempts).sleeps
          (do_with_retry until attempts).error
unfolding do_with_retry
do_with_retry_bounded until attempts =
    let run = attempts_from-IsRun until attempts 4 0 refl in
    (let le = run.short in omega arith, run.retried)
