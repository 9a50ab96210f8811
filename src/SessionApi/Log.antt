-- ===== src/SessionApi/Log.antt =====
-- A session that also keeps the frames that were sent through it, newest first.
use anolis_provider_bread.Base.{ℕ, zero, suc, List, ◌∷◌, Act}
use anolis_provider_bread.Frames.{RawFrame}
use anolis_provider_bread.SessionApi.{SessionApi}

abbrev pub Sent : Type 0
Sent = List (ℕ × RawFrame)

abbrev beside : {S L A : Type 0} → Act S A → Act (S × L) A
beside m (s, l) = let (a, s') = m s in (a, (s', l))

abbrev pub logged : {S : Type 0} → SessionApi S → SessionApi (S × Sent)
logged api = record {
  scan = λ options out. beside (api.scan options out);
  send = λ address frame (s, l).
      let (status, s') = api.send address frame s in (status, (s', (address, frame) ∷ l));
  query_read = λ address opcode out. beside (api.query_read address opcode out);
  stats_for = λ address (s, l). api.stats_for address s;
  record_rejection = λ address (s, l). (api.record_rejection address s, l);
  take_recovery = λ address. beside (api.take_recovery address);
  last_op_failed = λ address (s, l). api.last_op_failed address s;
}

-- `n` more sends of one frame.
abbrev pub copies : ℕ → ℕ × RawFrame → Sent → Sent
copies zero sent l = l
copies (suc n) sent l = copies n sent (sent ∷ l)

-- A session that also keeps the queries made through it, as address and reply opcode, newest first.
abbrev pub Asked : Type 0
Asked = List (ℕ × ℕ)

abbrev pub asked : {S : Type 0} → SessionApi S → SessionApi (S × Asked)
asked api = record {
  scan = λ options out. beside (api.scan options out);
  send = λ address frame. beside (api.send address frame);
  query_read = λ address opcode out (s, l).
      let (r, s') = api.query_read address opcode out s in (r, (s', (address, opcode) ∷ l));
  stats_for = λ address (s, l). api.stats_for address s;
  record_rejection = λ address (s, l). (api.record_rejection address s, l);
  take_recovery = λ address. beside (api.take_recovery address);
  last_op_failed = λ address (s, l). api.last_op_failed address s;
}
