-- ===== src/Startup/Probes.antt =====
-- What a probe asks the device, and what a supported probe has passed.
use anolis_provider_bread.Base.{
  ℕ, zero, suc, ◌≤◌, ◌<◌, String, true, false, ◌⊎◌, inl, inr, ◌≡◌, ◌≢◌, refl, ap, List, [], ◌∷◌,
  some, ltb, ◌==◌, length, Bool-cases, Option-cases, ==→eq, arith,
}
use anolis_provider_bread.Frames.{SessionStatus, is_ok, RawFrame, success, empty_frame}
use anolis_provider_bread.SessionApi.{SessionApi}
use anolis_provider_bread.SessionApi.Log.{Asked, asked}
use anolis_provider_bread.Contracts.{Contracts}
use anolis_provider_bread.Config.{DeviceType}
use anolis_provider_bread.Devices.{ProbeStatus, ProbeRecord}
use anolis_provider_bread.Compatibility.{
  try_parse_bread_type, expected_module_version, evaluate_module_version,
  evaluate_version_compatibility,
}
use anolis_provider_bread.Startup.{
  VersionStep, probe_ends, probe_goes_on, gate_on, parsed_bytes, version_of, new_probe, gate,
  check_version_payload, check_version, query_reply_loop, query_reply, finish_probe, probe_device,
}

-- `n` more queries of one kind.
abbrev pub repeated : ℕ → ℕ × ℕ → Asked → Asked
repeated zero q l = l
repeated (suc n) q l = repeated n q (q ∷ l)

module _ (c : Contracts) where
  -- Both version checks of the contracts pass for the type.
  abbrev pub Compatible : ProbeRecord → Type 0
  Compatible probe =
      let (major, minor) = expected_module_version c probe.type_id in
      (c.bread.check_crumbs_compat probe.version.crumbs_version ≡ true)
      × (c.bread.check_module_compat probe.version.module_major probe.version.module_minor major
            minor
          ≡ true)

  compatible_lem :
      (probe : ProbeRecord)
      → (evaluate_version_compatibility c probe.type_id probe.version).0 ≡ ProbeStatus.supported
      → Compatible probe
  unfolding evaluate_version_compatibility evaluate_module_version
  compatible_lem probe e = (ground arith, ground arith)

  -- What a step of the version check guarantees.
  abbrev pub Sound : ℕ → VersionStep → Type 0
  Sound address (probe_ends p) = (p.status ≢ ProbeStatus.supported) × (p.address ≡ address)
  Sound address (probe_goes_on type p) =
      (try_parse_bread_type c p.type_id ≡ some type) × Compatible p × (p.address ≡ address)

  gate_on-Sound :
      (type : DeviceType) (probe : ProbeRecord) (status : ProbeStatus) (detail : String)
      → try_parse_bread_type c probe.type_id ≡ some type
      → (status ≡ ProbeStatus.supported → Compatible probe)
      → Sound probe.address (gate_on c type probe (status, detail))
  gate_on-Sound type probe ProbeStatus.supported detail known h = (known, h refl, refl)
  gate_on-Sound type probe ProbeStatus.unsupported_type detail known h = ((λ e. cc), refl)
  gate_on-Sound type probe ProbeStatus.version_read_failed detail known h = ((λ e. cc), refl)
  gate_on-Sound type probe ProbeStatus.incompatible_crumbs_version detail known h =
      ((λ e. cc), refl)
  gate_on-Sound type probe ProbeStatus.incompatible_module_major detail known h = ((λ e. cc), refl)
  gate_on-Sound type probe ProbeStatus.type_mismatch detail known h = ((λ e. cc), refl)

  gate-Sound :
      (type : DeviceType) (probe : ProbeRecord)
      → try_parse_bread_type c probe.type_id ≡ some type
      → Sound probe.address (gate c type probe)
  unfolding gate
  gate-Sound type probe known =
      let (status, detail) = evaluate_version_compatibility c probe.type_id probe.version in
      gate_on-Sound type probe status detail known (compatible_lem probe)

  check_version_payload-Sound :
      (payload : List ℕ) (type : DeviceType) (probe : ProbeRecord)
      → try_parse_bread_type c probe.type_id ≡ some type
      → Sound probe.address (check_version_payload c payload type probe)
  unfolding check_version_payload
  check_version_payload-Sound payload type probe known =
      elim (Bool-cases (ltb (length payload) 5)) [
        | inl short ↦ rw short ((λ h. cc), refl)
        | inr long ↦ elim (Option-cases (c.bread.parse_version (parsed_bytes payload))) [
          | inl bad ↦ rw (long, bad) ((λ h. cc), refl)
          | inr (v, good) ↦
              rw (long, good) (gate-Sound type (record probe { version = version_of v }) known)
        ]
      ]

  check_version-Sound :
      (address : ℕ) (status : SessionStatus) (frame : RawFrame)
      → Sound address (check_version c address status frame)
  unfolding check_version
  check_version-Sound address status frame = elim (Bool-cases (is_ok status)) [
    | inr bad ↦ rw bad ((λ h. cc), refl)
    | inl good ↦ elim (Bool-cases (frame.opcode == 0)) [
      | inr stale ↦ rw (good, stale) ((λ h. cc), refl)
      | inl fresh ↦ elim (Option-cases (try_parse_bread_type c frame.type_id)) [
        | inl foreign ↦ rw (good, fresh, foreign) ((λ h. cc), refl)
        | inr (type, known) ↦
            rw (good, fresh, known)
              (check_version_payload-Sound frame.payload type
                (record (new_probe address) { type_id = frame.type_id }) known)
      ]
    ]
  ]

  module _ {S : Type 0} (api : SessionApi S) where
    -- The frame and the session after `k` queries of one kind, each given the frame of the one before.
    abbrev pub after_queries : ℕ → ℕ → ℕ → RawFrame → S → RawFrame × S
    after_queries address reply_opcode zero out s = (out, s)
    after_queries address reply_opcode (suc k) out s =
        let ((_, frame), s') = api.query_read address reply_opcode out s in
        after_queries address reply_opcode k frame s'

    -- What query `k`, from 0 on, gives.
    abbrev pub answer : ℕ → ℕ → ℕ → RawFrame → S → (SessionStatus × RawFrame) × S
    answer address reply_opcode k out s =
        let (frame, before) = after_queries address reply_opcode k out s in
        api.query_read address reply_opcode frame before

    -- A query succeeds with a reply to another one.
    abbrev pub IsStale : ℕ → (SessionStatus × RawFrame) × S → Type 0
    IsStale reply_opcode ((status, frame), s') =
        (is_ok status ≡ true) × (frame.opcode ≢ reply_opcode)

    -- The loop made k + 1 of the queries and gives what the last of them gave: all before it had stale
    -- replies, and it failed, or had the reply asked for, or was the last query allowed.
    abbrev pub Asks :
        ℕ → ℕ → ℕ → RawFrame → S → Asked → (SessionStatus × RawFrame) × (S × Asked) → Type 0
    Asks address reply_opcode rounds out s l ((status, frame), (s', l')) =
        (k : ℕ) × (k ≤ rounds)
        × (l' ≡ repeated (suc k) (address, reply_opcode) l)
        × (((status, frame), s') ≡ answer address reply_opcode k out s)
        × ((j : ℕ) → j < k → IsStale reply_opcode (answer address reply_opcode j out s))
        × ((is_ok status ≡ false) ⊎ ((frame.opcode ≡ reply_opcode) ⊎ (k ≡ rounds)))

    IsStale-before :
        (address reply_opcode k : ℕ) (out : RawFrame) (s : S)
        → let ((status, frame), s') = api.query_read address reply_opcode out s in
          IsStale reply_opcode ((status, frame), s')
          → ((j : ℕ) → j < k → IsStale reply_opcode (answer address reply_opcode j frame s'))
          → (j : ℕ) → j < suc k
          → IsStale reply_opcode (answer address reply_opcode j out s)
    IsStale-before address reply_opcode k out s first later zero h = first
    IsStale-before address reply_opcode k out s first later (suc j) h = later j (omega arith)

    another_query :
        (address reply_opcode rounds : ℕ) (out : RawFrame) (s : S) (l : Asked)
        (r : (SessionStatus × RawFrame) × (S × Asked))
        → let ((status, frame), s') = api.query_read address reply_opcode out s in
          IsStale reply_opcode ((status, frame), s')
          → Asks address reply_opcode rounds frame s' ((address, reply_opcode) ∷ l) r
          → Asks address reply_opcode (suc rounds) out s l r
    another_query address reply_opcode rounds out s l ((status, frame), (s', l')) stale
          (k, le, sent, given, before, ends) =
        (
          suc k,
          omega arith,
          sent,
          given,
          IsStale-before address reply_opcode k out s stale before,
          elim ends [
            | inl bad ↦ inl bad
            | inr (inl match) ↦ inr (inl match)
            | inr (inr last) ↦ inr (inr (ap suc last))
          ],
        )

    not_equal : (a b : ℕ) → (a == b) ≡ false → a ≢ b
    not_equal a b e = ground arith

    no_query :
        (address reply_opcode : ℕ) (out : RawFrame) (s : S)
        → (j : ℕ) → j < 0
        → IsStale reply_opcode (answer address reply_opcode j out s)
    no_query address reply_opcode out s j h = absurd (omega arith)

    query_reply_loop-Asks :
        (address reply_opcode rounds : ℕ) (st : SessionStatus) (out : RawFrame) (s : S) (l : Asked)
        → Asks address reply_opcode rounds out s l
            (query_reply_loop c (asked api) address reply_opcode (suc rounds) (st, out) (s, l))
    unfolding query_reply_loop
    query_reply_loop-Asks address reply_opcode zero st out s l =
        let ((status, frame), s') = api.query_read address reply_opcode out s in
        let none_before = no_query address reply_opcode out s in
        elim (Bool-cases (is_ok status)) [
          | inr bad ↦ rw bad (0, omega arith, refl, refl, none_before, inl bad)
          | inl good ↦ elim (Bool-cases (frame.opcode == reply_opcode)) [
            | inl match ↦
                rw (good, match)
                  (0, omega arith, refl, refl, none_before, inr (inl (==→eq _ _ match)))
            | inr stale ↦ rw (good, stale) (0, omega arith, refl, refl, none_before, inr (inr refl))
          ]
        ]
    query_reply_loop-Asks address reply_opcode (suc n) st out s l =
        let ((status, frame), s') = api.query_read address reply_opcode out s in
        let none_before = no_query address reply_opcode out s in
        elim (Bool-cases (is_ok status)) [
          | inr bad ↦ rw bad (0, omega arith, refl, refl, none_before, inl bad)
          | inl good ↦ elim (Bool-cases (frame.opcode == reply_opcode)) [
            | inl match ↦
                rw (good, match)
                  (0, omega arith, refl, refl, none_before, inr (inl (==→eq _ _ match)))
            | inr stale ↦
                rw (good, stale)
                  (another_query address reply_opcode n out s l
                    (query_reply_loop c (asked api) address reply_opcode (suc n) (status, frame)
                      (s', (address, reply_opcode) ∷ l))
                    (good, not_equal _ _ stale)
                    (query_reply_loop-Asks address reply_opcode n status frame s'
                      ((address, reply_opcode) ∷ l)))
          ]
        ]

    -- A reply is asked for one to three times, each time with the same opcode from the same device and
    -- nothing else, and the result is that of the last query. Every query before it succeeded with a
    -- reply to another opcode; the last one failed, or had the opcode, or was the third.
    pub query_reply-Asks :
        (address reply_opcode : ℕ) (out : RawFrame) (s : S)
        → Asks address reply_opcode 2 out s []
            (query_reply c (asked api) address reply_opcode out (s, []))
    unfolding query_reply
    query_reply-Asks address reply_opcode out s =
        query_reply_loop-Asks address reply_opcode 2 success out s []

    -- What holds of a probe record made at an address.
    abbrev pub Probed : ℕ → ProbeRecord → Type 0
    Probed address probe =
        (probe.address ≡ address)
        × (probe.status ≡ ProbeStatus.supported
            → ((type : DeviceType) × (try_parse_bread_type c probe.type_id ≡ some type))
              × Compatible probe)

    finish_probe-Probed :
        (address : ℕ) (step : VersionStep) (s : S)
        → Sound address step
        → Probed address (finish_probe c api address step s).0
    unfolding finish_probe
    finish_probe-Probed address (probe_ends p) s (bad, at) = (at, λ good. absurd (bad good))
    finish_probe-Probed address (probe_goes_on type p) s (known, compatible, at) =
        (at, λ _. ((type, known), compatible))

    -- A probe keeps the address it was made at, and it is supported only if its type is one of the
    -- provider's families and its CRUMBS version and module version pass the contracts' checks for
    -- that family.
    pub probe_device-Probed :
        (address : ℕ) (s : S) → Probed address (probe_device c api address s).0
    unfolding probe_device
    probe_device-Probed address s =
        let ((status, frame), s') = query_reply c api address 0 empty_frame s in
        finish_probe-Probed address (check_version c address status frame) s'
          (check_version-Sound address status frame)
