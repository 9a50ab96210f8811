-- ===== src/Session/Retries.antt =====
-- What execute_with_retry does, whatever its callback is: which outcome it returns, how often it
-- calls, and when it stops.
use anolis_provider_bread.Base.{
  ℕ, zero, suc, ◌+◌, ◌-◌, ◌^◌, ◌≤◌, ◌<◌, ℤ, pos, negsuc, eq_ℤ, String, ◌<>◌, Bool, true, false, not,
  ◌||◌, ◌⊎◌, inl, inr, ◌∙◌, ◌≡◌, refl, ◌==◌, if◌then◌else◌, Bool-cases, arith, Act,
}
use anolis_provider_bread.Frames.{SessionErrorCode, SessionStatus, is_ok, failure, is_retryable}
use anolis_provider_bread.Session.Retry.{max_attempts, attempt_loop, execute_with_retry}

pub max_attempts_lem : (n : ℕ) → n < 2 ^ 31 - 1 → max_attempts (pos n) ≡ n + 1
unfolding max_attempts
max_attempts_lem n h = ground arith

-- At the largest count the 32-bit sum wraps, and one attempt is left.
pub max_attempts_wraps : max_attempts (pos (2 ^ 31 - 1)) ≡ 1
unfolding max_attempts
max_attempts_wraps = refl

pub max_attempts-suc : (retry_count : ℤ) → (r : ℕ) × (max_attempts retry_count ≡ suc r)
unfolding max_attempts
max_attempts-suc (pos n) = (n - (if n == 2 ^ 31 - 1 then n else 0), ground arith)
max_attempts-suc (negsuc zero) = (0, ground arith)
max_attempts-suc (negsuc (suc n)) = (0, ground arith)

-- An outcome after which no further attempt is made, whatever the count.
abbrev pub is_final : ℤ → SessionStatus → Bool
is_final etimedout status =
    is_ok status || (not (is_retryable status.code) || eq_ℤ status.native_code etimedout)

module _ {S : Type 0} (etimedout : ℤ) (fn : Act S SessionStatus) where
  -- The state after k calls, and the outcome of call k + 1.
  abbrev pub state_after : ℕ → S → S
  state_after zero s = s
  state_after (suc k) s = state_after k (fn s).1

  abbrev pub outcome_at : ℕ → S → SessionStatus
  outcome_at k s = (fn (state_after k s)).0

  -- The loop ended with call k + 1 of at most `rounds` + 1, the first whose outcome is final.
  abbrev pub EndsAt : ℕ → ℕ → ℕ → S → SessionStatus × S → Type 0
  EndsAt k rounds attempt s r =
      (k ≤ rounds)
      × (r ≡ (record (outcome_at k s) { attempts = attempt + k }, state_after (suc k) s))
      × ((j : ℕ) → j < k → is_final etimedout (outcome_at j s) ≡ false)
      × ((is_final etimedout (outcome_at k s) ≡ true) ⊎ (k ≡ rounds))

  attempt_loop-stop :
      (rounds attempt : ℕ) (last : SessionStatus) (s : S)
      → is_final etimedout (fn s).0 ≡ true
      → attempt_loop etimedout fn (suc rounds) attempt last s
        ≡ (record (fn s).0 { attempts = attempt }, (fn s).1)
  unfolding attempt_loop
  attempt_loop-stop rounds attempt last s stop = ground arith

  attempt_loop-again :
      (rounds attempt : ℕ) (last : SessionStatus) (s : S)
      → is_final etimedout (fn s).0 ≡ false
      → attempt_loop etimedout fn (suc (suc rounds)) attempt last s
        ≡ attempt_loop etimedout fn
            (suc rounds)
            (attempt + 1)
            (record (fn s).0 { attempts = attempt })
            (fn s).1
  unfolding attempt_loop
  attempt_loop-again rounds attempt last s go = ground arith

  attempt_loop-last :
      (attempt : ℕ) (last : SessionStatus) (s : S)
      → attempt_loop etimedout fn 1 attempt last s
        ≡ (record (fn s).0 { attempts = attempt }, (fn s).1)
  unfolding attempt_loop
  attempt_loop-last attempt last s = ground arith

  not_before :
      (k : ℕ) (s : S)
      → is_final etimedout (fn s).0 ≡ false
      → ((j : ℕ) → j < k → is_final etimedout (outcome_at j (fn s).1) ≡ false)
      → (j : ℕ) → j < suc k
      → is_final etimedout (outcome_at j s) ≡ false
  not_before k s go later zero h = go
  not_before k s go later (suc j) h = later j (omega arith)

  later_end :
      (rounds attempt : ℕ) (last : SessionStatus) (s : S)
      → is_final etimedout (fn s).0 ≡ false
      → (k : ℕ) × EndsAt k rounds (attempt + 1) (fn s).1 (
          attempt_loop etimedout fn
            (suc rounds)
            (attempt + 1)
            (record (fn s).0 { attempts = attempt })
            (fn s).1)
      → (k : ℕ) × EndsAt k
          (suc rounds)
          attempt
          s
          (attempt_loop etimedout fn (suc (suc rounds)) attempt last s)
  later_end rounds attempt last s go (k, (le, e, earlier, end)) = (
    suc k,
    (
      omega arith,
      attempt_loop-again rounds attempt last s go ∙ e ∙ ground arith,
      not_before k s go earlier,
      ground arith,
    ),
  )

  attempt_loop-EndsAt :
      (rounds attempt : ℕ) (last : SessionStatus) (s : S)
      → (k : ℕ) × EndsAt k rounds attempt s (attempt_loop etimedout fn (suc rounds) attempt last s)
  attempt_loop-EndsAt zero attempt last s = (
    0,
    (
      omega arith,
      attempt_loop-last attempt last s ∙ ground arith,
      λ j h. absurd (omega arith),
      inr refl,
    ),
  )
  attempt_loop-EndsAt (suc rounds) attempt last s =
      elim (Bool-cases (is_final etimedout (fn s).0)) [
        | inl stop ↦ (
          0,
          (
            omega arith,
            attempt_loop-stop (suc rounds) attempt last s stop ∙ ground arith,
            λ j h. absurd (omega arith),
            inl stop,
          ),
        )
        | inr go ↦ later_end rounds attempt last s go (
            attempt_loop-EndsAt rounds (attempt + 1) (record (fn s).0 { attempts = attempt })
              (fn s).1)
      ]

  -- With retry_count = n the callback runs k + 1 times for some k ≤ n: the status returned is that
  -- of call k + 1 with its number in `attempts`, the state is that after it, every earlier outcome
  -- was a retryable failure other than ETIMEDOUT, and call k + 1 was not one or was the last.
  pub execute_with_retry-EndsAt :
      (n : ℕ) (operation : String) (s : S)
      → n < 2 ^ 31 - 1
      → (k : ℕ) × EndsAt k n 1 s (execute_with_retry etimedout fn (pos n) operation s)
  unfolding execute_with_retry
  execute_with_retry-EndsAt n operation s h =
      let e : max_attempts (pos n) ≡ suc n = max_attempts_lem n h ∙ omega arith in
      rw e (
        attempt_loop-EndsAt n 1
          (failure SessionErrorCode.transport_error (operation <> " did not run")) s)

  -- Whatever the count, at least one attempt is made, and `attempts` says so.
  pub execute_with_retry_attempts :
      (retry_count : ℤ) (operation : String) (s : S)
      → 0 < (execute_with_retry etimedout fn retry_count operation s).0.attempts
  unfolding execute_with_retry
  execute_with_retry_attempts retry_count operation s =
      let (rounds, e) = max_attempts-suc retry_count in
      let (k, (_, ends, _, _)) =
        attempt_loop-EndsAt rounds 1
          (failure SessionErrorCode.transport_error (operation <> " did not run")) s in
      rw (e, ends) (omega arith)

  -- A first call that succeeds is the only one, whatever the count.
  pub execute_with_retry-first :
      (retry_count : ℤ) (operation : String) (s : S)
      → is_ok (fn s).0 ≡ true
      → execute_with_retry etimedout fn retry_count operation s
        ≡ (record (fn s).0 { attempts = 1 }, (fn s).1)
  unfolding execute_with_retry
  execute_with_retry-first retry_count operation s good =
      let (rounds, e) = max_attempts-suc retry_count in
      rw e (attempt_loop-stop rounds 1 _ s (rw good refl))
