-- ===== src/Session/Retry.antt =====
-- execute_with_retry of src/crumbs/session.cpp, over the state that its callback captures.
use anolis_provider_bread.Base.{
  ℕ, zero, suc, ◌+◌, ◌-◌, ◌^◌, max, ℤ, pos, negsuc, eq_ℤ, not, ◌||◌, String, ◌<>◌, ◌==◌,
  if◌then◌else◌, Act,
}
use anolis_provider_bread.Frames.{SessionErrorCode, SessionStatus, is_ok, failure, is_retryable}

-- retry_count + 1 as a 32-bit int: the largest value wraps to the smallest.
abbrev pub next_int : ℤ → ℤ
next_int (pos n) = if n == 2 ^ 31 - 1 then negsuc (2 ^ 31 - 1) else pos (n + 1)
next_int (negsuc zero) = pos 0
next_int (negsuc (suc n)) = negsuc n

abbrev pub at_least_one : ℤ → ℕ
at_least_one (pos n) = max 1 n
at_least_one (negsuc n) = 1

-- std::max(1, options.retry_count + 1)
unfoldable pub max_attempts : ℤ → ℕ
max_attempts retry_count = at_least_one (next_int retry_count)

module _ {S : Type 0} (etimedout : ℤ) (fn : Act S SessionStatus) where
  -- The loop from `attempt` on, with `rounds` attempts left; `last` is the outcome so far.
  unfoldable pub attempt_loop : ℕ → ℕ → SessionStatus → Act S SessionStatus
  attempt_loop zero attempt last s = (last, s)
  attempt_loop (suc rounds) attempt last s =
      let (r, s') = fn s in
      let status : SessionStatus = record r { attempts = attempt } in
      let again = attempt_loop rounds (attempt + 1) status s' in
      if is_ok status
      then (status, s')
      else if not (is_retryable status.code) || eq_ℤ status.native_code etimedout || rounds == 0
      then (status, s')
      else again

  unfoldable pub execute_with_retry : ℤ → String → Act S SessionStatus
  execute_with_retry retry_count operation s =
      attempt_loop (max_attempts retry_count) 1
        (failure SessionErrorCode.transport_error (operation <> " did not run")) s
