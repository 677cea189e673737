-- ===== src/Client/Retry.antt =====
-- internal/client/api.go: the loop that sends a request again, and how long it waits in between.
-- Times are nanoseconds.
pub mod Bounded
mod Tests
use Prim.Native.Nat.{◌^◌}
use xcloud.Prelude.{
  ℕ, zero, suc, ◌+◌, ◌*◌, ◌-◌, ◌%◌, String, Bool, true, false, not, ◌&&◌, ◌||◌, List, [], ◌∷◌,
  Option, none, some, ◌==◌, if◌then◌else◌, ltb, leb, eqb, ℤ, pos, negsuc, leb_ℤ, ltb_ℤ, trim_space,
  atoi,
}

-- apiRetryMaxAttempts, apiRetryInitialBackoff and apiRetryMaxBackoff
abbrev pub max_attempts : ℕ
max_attempts = 5

abbrev pub initial_backoff : ℕ
initial_backoff = 500000000

abbrev pub max_backoff : ℕ
max_backoff = 8000000000

-- The loop of retryBackoff, for as many rounds as the attempt asks for.
unfoldable pub doubled : ℕ → ℕ → ℕ
doubled zero delay = if ltb max_backoff delay then max_backoff else delay
doubled (suc n) delay =
    let more = doubled n (delay * 2) in if leb max_backoff (delay * 2) then max_backoff else more

-- retryBackoff
unfoldable pub retry_backoff : ℕ → ℕ
unfolding doubled
retry_backoff zero = 0
retry_backoff (suc n) = doubled n initial_backoff

-- shouldRetryStatus
abbrev pub should_retry_status : ℕ → Bool
should_retry_status status = eqb status 429 || leb 500 status

-- sleepRetryBackoff: how long it sleeps
unfoldable pub retry_delay : ℕ → ℤ → ℤ
unfolding retry_backoff
retry_delay attempt server_delay =
    let backoff = pos (retry_backoff attempt) in
    let delay = if ltb_ℤ backoff server_delay then server_delay else backoff in
    if ltb_ℤ (pos max_backoff) delay then pos max_backoff else delay

-- An int64 with the given bits.
abbrev int64 : ℕ → ℤ
int64 n = if ltb n (2 ^ 63) then pos n else negsuc (2 ^ 64 - 1 - n)

-- time.Duration(seconds) * time.Second
abbrev seconds_delay : ℤ → Option ℤ
seconds_delay (pos n) = some (int64 (n * 1000000000 % 2 ^ 64))
seconds_delay (negsuc n) = none

abbrev seconds_of : Option ℤ → Option ℤ
seconds_of none = none
seconds_of (some n) = seconds_delay n

abbrev positive_or_zero : Option ℤ → ℤ
positive_or_zero none = pos 0
positive_or_zero (some delay) = if ltb_ℤ (pos 0) delay then delay else pos 0

abbrev or_date : Option ℤ → Option ℤ → ℤ
or_date (some delay) until = delay
or_date none until = positive_or_zero until

-- retryAfterDelay of the header's value; `until` is the time until the date that http.ParseTime
-- reads, if it reads one.
unfoldable pub retry_after_delay : (String → Option ℤ) → String → ℤ
unfolding trim_space atoi
retry_after_delay until header =
    let value = trim_space header in
    if value == "" then pos 0 else or_date (seconds_of (atoi value)) (until value)

-- What handleResponse and closing the body come to.
pub data Handled (E : Type 0) : Type 0 where
  fine : Handled E
  refused broken unclosed : E → Handled E

-- One attempt: no request can be made, it cannot be sent, or it is answered with a status, a
-- Retry-After header and a body.
pub data Attempt (E : Type 0) : Type 0 where
  no_request unsent : E → Attempt E
  answered : ℕ → String → Handled E → Attempt E

-- What a run of the loop comes to: its error or none, and the sleeps before, in turn.
pub record Run (E : Type 0) : Type 0 where
  pub error : Option E
  pub sleeps : List ℤ

module _ {E : Type 0} (until : String → Option ℤ) (attempts : ℕ → Attempt E) where
  abbrev ends : Option E → Run E
  ends error = record { error = error; sleeps = [] }

  abbrev slept : ℤ → Run E → Run E
  slept delay run = record { error = run.error; sleeps = delay ∷ run.sleeps }

  abbrev after_body : ℕ → Bool → Handled E → Run E → Run E
  after_body attempt more fine next = ends none
  after_body attempt more (refused e) next = ends (some e)
  after_body attempt more (broken e) next =
      if more then slept (retry_delay attempt (pos 0)) next else ends (some e)
  after_body attempt more (unclosed e) next =
      if more then slept (retry_delay attempt (pos 0)) next else ends (some e)

  -- One round of the loop; `more` says whether attempts are left, and `next` is what they come to.
  -- Every error of the network is retried (retryableHTTPError).
  unfoldable pub after_attempt : ℕ → Bool → Attempt E → Run E → Run E
  unfolding retry_delay retry_after_delay
  after_attempt attempt more (no_request e) next = ends (some e)
  after_attempt attempt more (unsent e) next =
      if more then slept (retry_delay attempt (pos 0)) next else ends (some e)
  after_attempt attempt more (answered status header body) next =
      if should_retry_status status && more
      then slept (retry_delay attempt (retry_after_delay until header)) next
      else after_body attempt more body next

  -- The loop from an attempt on, with as many attempts left as the number says.
  unfoldable pub attempts_from : ℕ → ℕ → Run E
  attempts_from zero attempt = ends none
  attempts_from (suc left) attempt =
      after_attempt attempt (ltb attempt max_attempts) (attempts attempt)
        (attempts_from left (attempt + 1))

  -- doWithRetry
  unfoldable pub do_with_retry : Run E
  do_with_retry = attempts_from max_attempts 1
