-- ===== src/Tests/SessionRuns.antt =====
-- Runs of the session and of the frames' bytes.
use anolis_provider_bread.Base.{ℕ, suc, pos, ◌≡◌, List, [], ◌∷◌, ◌%◌, arith}
use anolis_provider_bread.Frames.{SessionStatus, success, empty_frame}
use anolis_provider_bread.Session.State.{Session, new_session, u64_mod}
use anolis_provider_bread.Session.Retry.{execute_with_retry}
use anolis_provider_bread.Session.Retries.{EndsAt, execute_with_retry-EndsAt}
use anolis_provider_bread.Session.{
  send, query_attempt, query_read, stats_for, last_op_failed, take_recovery,
}
use anolis_provider_bread.Session.Guards.{Guarded, send_attempts, attempts_of, guarded}
use anolis_provider_bread.Session.History.{
  Call, sends, queries, rejects, run, failing, recovered, total, succeeded, did_fail, extra,
  rejections,
}
use anolis_provider_bread.Session.Recovery.{run-history}
use anolis_provider_bread.Tests.{sample_transport, sample_options, command_frame}

abbrev three_calls : List Call
three_calls = sends 32 (command_frame (1 ∷ [])) ∷ queries 32 128 empty_frame ∷ rejects 32 ∷ []

abbrev fresh : Session ℕ
fresh = new_session 0 sample_options

run-history_example :
    let (h, s) = run sample_transport three_calls [] (new_session 0 sample_options) in
    let stats = stats_for 32 s in
    (last_op_failed 32 s ≡ failing 32 h)
    × ((take_recovery 32 s).0 ≡ recovered 32 h)
    × (stats.ok ≡ total succeeded 32 h % u64_mod)
    × (stats.failed ≡ total did_fail 32 h % u64_mod)
    × (stats.retried_attempts ≡ total extra 32 h % u64_mod)
    × (stats.rejected ≡ rejections 32 h % u64_mod)
run-history_example = run-history sample_transport three_calls 0 sample_options 32

guarded_example :
    let frame = command_frame (1 ∷ []) in
    (let (status, s') = send sample_transport 32 frame fresh in
      Guarded sample_transport 32 1 fresh (send_attempts sample_transport 32 frame fresh) status s')
    × (let ((status, _), s') = query_read sample_transport 32 128 empty_frame fresh in
        Guarded sample_transport 32 1 fresh
          (attempts_of sample_transport
            (query_attempt sample_transport fresh.options 32 128)
            "query_read"
            empty_frame
            fresh)
          status
          s')
guarded_example = guarded sample_transport 32 128 (command_frame (1 ∷ [])) empty_frame fresh

abbrev count_up : ℕ → SessionStatus × ℕ
count_up n = (success, suc n)

execute_with_retry-EndsAt_example :
    (k : ℕ) × EndsAt
      (pos 110)
      count_up
      k
      2
      1
      5
      (execute_with_retry (pos 110) count_up (pos 2) "send" 5)
execute_with_retry-EndsAt_example =
    execute_with_retry-EndsAt (pos 110) count_up 2 "send" 5 (omega arith)
