-- ===== src/Session/Recovery.antt =====
-- What a session keeps about each address is what the history of its calls says.
use anolis_provider_bread.Base.{ℕ, ◌%◌, ◌<◌, inl, inr, ◌≡◌, List, [], ◌∷◌, arith}
use anolis_provider_bread.Frames.{SessionStatus, SessionOptions}
use anolis_provider_bread.Transport.{Transport}
use anolis_provider_bread.Session.State.{Session, u64_mod, or_zero, new_session}
use anolis_provider_bread.Session.{
  send, read, query_read, record_outcome, stats_after, record_rejection, take_recovery, stats_for,
  last_op_failed,
}
use anolis_provider_bread.Session.Guards.{Refused, Guarded, send_cases, exchange_cases}
use anolis_provider_bread.Session.History.{
  Call, sends, reads, queries, rejects, takes, Event, completed, step, run, failing, recovered,
  total, succeeded, did_fail, extra, rejections,
}

-- What the session knows of address `a` after the history `h`; counters are 64 bits wide.
pub record Tracks {W : Type 0} (h : List Event) (s : Session W) (a : ℕ) : Type 0 where
  pub failing_flag : s.last_op_failed a ≡ failing a h
  pub recovery_flag : s.recovery_pending a ≡ recovered a h
  pub ok_count : (or_zero (s.stats a)).ok ≡ total succeeded a h % u64_mod
  pub failed_count : (or_zero (s.stats a)).failed ≡ total did_fail a h % u64_mod
  pub retried_count : (or_zero (s.stats a)).retried_attempts ≡ total extra a h % u64_mod
  pub rejected_count : (or_zero (s.stats a)).rejected ≡ rejections a h % u64_mod

module _ {W : Type 0} (t : Transport W) where
  record_outcome-Tracks :
      (h : List Event) (s : Session W) (w : W) (address : ℕ) (status : SessionStatus) (a : ℕ)
      → 0 < status.attempts
      → Tracks h s a
      → Tracks
          (completed address status ∷ h)
          (record_outcome t address status (record s { world = w }))
          a
  unfolding record_outcome stats_after failing recovered total rejections
  record_outcome-Tracks h s w address status a tried v = ground arith

  -- A refused call made no attempt, so it leaves no trace.
  untouched-Tracks :
      (h : List Event) (s s' : Session W) (address : ℕ) (status : SessionStatus) (a : ℕ)
      → Refused t s status s'
      → Tracks h s a
      → Tracks (completed address status ∷ h) s' a
  unfolding failing recovered total rejections
  untouched-Tracks h s s' address status a (_, none, same) v = ground arith

  completed-Tracks :
      (h : List Event) (s s' : Session W) (address len : ℕ) (ran : SessionStatus × W)
      (status : SessionStatus) (a : ℕ)
      → Guarded t address len s ran status s'
      → Tracks h s a
      → Tracks (completed address status ∷ h) s' a
  completed-Tracks h s s' address len ran status a (inl (_, r)) v =
      untouched-Tracks h s s' address status a r v
  completed-Tracks h s s' address len ran status a (inr (_, _, _, _, tried, _, e)) v =
      rw e (record_outcome-Tracks h s ran.1 address status a tried v)

  step-Tracks :
      (c : Call) (h : List Event) (s : Session W) (a : ℕ)
      → Tracks h s a
      → let (e, s') = step t c s in Tracks (e ∷ h) s' a
  unfolding step read query_read
  step-Tracks (sends b frame) h s a v =
      completed-Tracks h s (send t b frame s).1 b _ _ (send t b frame s).0 a
        (send_cases t b frame s) v
  step-Tracks (reads b frame) h s a v =
      completed-Tracks h s _ b _ _ _ a (exchange_cases t _ "read" b frame s) v
  step-Tracks (queries b opcode frame) h s a v =
      completed-Tracks h s _ b _ _ _ a (exchange_cases t _ "query_read" b frame s) v
  step-Tracks (rejects b) h s a v =
      unfold record_rejection failing recovered total rejections in ground arith
  step-Tracks (takes b) h s a v =
      unfold take_recovery failing recovered total rejections in ground arith

  run-Tracks :
      (cs : List Call) (h : List Event) (s : Session W) (a : ℕ)
      → Tracks h s a
      → let (h', s') = run t cs h s in Tracks h' s' a
  unfolding run
  run-Tracks [] h s a v = v
  run-Tracks (c ∷ cs) h s a v =
      let (e, s') = step t c s in run-Tracks cs (e ∷ h) s' a (step-Tracks c h s a v)

  -- After any sequence of calls on a new session, and for every address: `last_op_failed` says
  -- whether the last operation that reached the bus failed; `take_recovery` answers true exactly
  -- when a failure was followed directly by a success since it was last called for that address;
  -- and the statistics are the numbers of successes, failures, attempts beyond the first and
  -- rejected replies, modulo 2 ^ 64. Operations on other addresses and refused calls count for
  -- nothing.
  pub run-history :
      (cs : List Call) (w : W) (options : SessionOptions) (a : ℕ)
      → let (h, s) = run t cs [] (new_session w options) in
        let stats = stats_for a s in
        (last_op_failed a s ≡ failing a h)
        × ((take_recovery a s).0 ≡ recovered a h)
        × (stats.ok ≡ total succeeded a h % u64_mod)
        × (stats.failed ≡ total did_fail a h % u64_mod)
        × (stats.retried_attempts ≡ total extra a h % u64_mod)
        × (stats.rejected ≡ rejections a h % u64_mod)
  unfolding last_op_failed take_recovery stats_for
  run-history cs w options a =
      let v =
        run-Tracks cs [] (new_session w options) a
          (unfold new_session failing recovered total rejections in ground arith) in
      (
        v.failing_flag, v.recovery_flag, v.ok_count, v.failed_count, v.retried_count,
        v.rejected_count,
      )
