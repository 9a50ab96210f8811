-- ===== src/SetConfirm/Outcomes.antt =====
-- What a record that is read after a send decides.
use anolis_provider_bread.Base.{ℕ, none, String, true, false, ◌≡◌, refl, some, arith}
use anolis_provider_bread.Frames.{SessionStatus}
use anolis_provider_bread.Contracts.{Contracts, Ack, AckOutcome}
use anolis_provider_bread.Devices.{AdapterCallResult, StatusCode}
use anolis_provider_bread.SetConfirm.{AckRead, ack_read, ack_failed, judge, settle, refusal_for}

module _ (c : Contracts) where
  -- The result that a record gives, by what CRUMBS classifies it as; a record that the device did
  -- not advance gives none.
  abbrev pub Settles : Ack → AckOutcome → AdapterCallResult → Type 0
  Settles after AckOutcome.set_applied result = result.ok ≡ true
  Settles after AckOutcome.set_refused result =
      (result.ok ≡ false) × (result.error_code ≡ (refusal_for c after.reason).1)
  Settles after AckOutcome.set_rejected result =
      (result.ok ≡ false) × (result.error_code ≡ StatusCode.code_internal)
  Settles after AckOutcome.set_not_advanced result = ⊥
  Settles after AckOutcome.ack_mismatch result =
      (result.ok ≡ false) × (result.error_code ≡ StatusCode.code_unavailable)
  Settles after AckOutcome.ack_unknown result =
      (result.ok ≡ false) × (result.error_code ≡ StatusCode.code_unavailable)
  Settles after AckOutcome.other result =
      (result.ok ≡ false) × (result.error_code ≡ StatusCode.code_internal)

  -- What is read after a send decides the result: a failure to read, or a record.
  abbrev pub Decides : ℕ → Ack → AckRead → AdapterCallResult → Type 0
  Decides opcode before (ack_failed why) result =
      (result.ok ≡ false) × (result.error_code ≡ StatusCode.code_unavailable)
  Decides opcode before (ack_read after) result =
      Settles after (c.crumbs.ack_classify before after opcode) result

  abbrev pub NotAdvanced : ℕ → Ack → AckRead → Type 0
  NotAdvanced opcode before r =
      (after : Ack) × (r ≡ ack_read after)
      × (c.crumbs.ack_classify before after opcode ≡ AckOutcome.set_not_advanced)

  settle-Settles :
      (op : String) (after : Ack) (outcome : AckOutcome) (result : AdapterCallResult)
      → settle c op after outcome ≡ some result
      → Settles after outcome result
  unfolding settle
  settle-Settles op after AckOutcome.set_applied result e = ground arith
  settle-Settles op after AckOutcome.set_refused result e = (ground arith, ground arith)
  settle-Settles op after AckOutcome.set_rejected result e = (ground arith, ground arith)
  settle-Settles op after AckOutcome.set_not_advanced result e = ground arith
  settle-Settles op after AckOutcome.ack_mismatch result e = (ground arith, ground arith)
  settle-Settles op after AckOutcome.ack_unknown result e = (ground arith, ground arith)
  settle-Settles op after AckOutcome.other result e = (ground arith, ground arith)

  settle-none :
      (op : String) (after : Ack) (outcome : AckOutcome)
      → settle c op after outcome ≡ none
      → outcome ≡ AckOutcome.set_not_advanced
  unfolding settle
  settle-none op after AckOutcome.set_applied e = ground arith
  settle-none op after AckOutcome.set_refused e = ground arith
  settle-none op after AckOutcome.set_rejected e = ground arith
  settle-none op after AckOutcome.set_not_advanced e = refl
  settle-none op after AckOutcome.ack_mismatch e = ground arith
  settle-none op after AckOutcome.ack_unknown e = ground arith
  settle-none op after AckOutcome.other e = ground arith

  pub judge-Decides :
      (op : String) (opcode : ℕ) (before : Ack) (st : SessionStatus) (r : AckRead)
      (result : AdapterCallResult)
      → judge c op before opcode st r ≡ some result
      → Decides opcode before r result
  unfolding judge
  judge-Decides op opcode before st (ack_failed why) result e = (ground arith, ground arith)
  judge-Decides op opcode before st (ack_read after) result e =
      settle-Settles op after (c.crumbs.ack_classify before after opcode) result e

  pub judge-NotAdvanced :
      (op : String) (opcode : ℕ) (before : Ack) (st : SessionStatus) (r : AckRead)
      → judge c op before opcode st r ≡ none
      → NotAdvanced opcode before r
  unfolding judge
  judge-NotAdvanced op opcode before st (ack_failed why) e = ground arith
  judge-NotAdvanced op opcode before st (ack_read after) e =
      (after, refl, settle-none op after (c.crumbs.ack_classify before after opcode) e)
