-- ===== src/Client/Retry/Tests.antt =====
-- Runs of doWithRetry, and its theorem at a server that is busy at first.
use xcloud.Prelude.{
  ℕ, String, [], ◌∷◌, ◌≡◌, refl, Option, none, if◌then◌else◌, leb, ℤ, pos, length, ◌<◌,
}
use xcloud.Result.{Error, not_answered}
use xcloud.Client.Retry.{
  Attempt, unsent, answered, fine, max_attempts, do_with_retry, attempts_from, after_attempt,
  retry_delay,
}
use xcloud.Client.Retry.Bounded.{Retries, do_with_retry_bounded}

abbrev no_date : String → Option ℤ
no_date header = none

-- Two attempts are not sent, the later ones are answered.
abbrev busy_at_first : ℕ → Attempt Error
busy_at_first n = if leb n 2 then unsent not_answered else answered 200 "" fine

busy_run : (do_with_retry no_date busy_at_first).sleeps ≡ pos 500000000 ∷ pos 1000000000 ∷ []
unfolding do_with_retry attempts_from after_attempt retry_delay
busy_run = refl

do_with_retry_bounded_example :
    (length (do_with_retry no_date busy_at_first).sleeps < max_attempts)
    × Retries no_date busy_at_first 1
        (do_with_retry no_date busy_at_first).sleeps
        (do_with_retry no_date busy_at_first).error
do_with_retry_bounded_example = do_with_retry_bounded no_date busy_at_first
