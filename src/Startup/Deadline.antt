-- ===== src/Startup/Deadline.antt =====
-- What a start-up deadline leaves unprobed.
use anolis_provider_bread.Base.{
  ℕ, ◌%◌, ◌^◌, ◌≤◌, ◌<◌, leb, none, some, Option-cases, true, false, ◌⊎◌, inl, inr, ◌≡◌, refl, ap,
  List, [], ◌∷◌, ◌++◌, Option, Bool-cases, arith,
}
use anolis_provider_bread.SessionApi.{SessionApi}
use anolis_provider_bread.Contracts.{Contracts}
use anolis_provider_bread.Devices.{ProbeRecord}
use anolis_provider_bread.Startup.{probe_all, probe_device, out_of_time}

module _ (c : Contracts) {S : Type 0} (api : SessionApi S) (now : S → ℕ) (deadline : Option ℕ) where
  -- The probes of the addresses, one after the other, and the session after them.
  abbrev pub probe_each : List ℕ → S → List ProbeRecord × S
  probe_each [] s = ([], s)
  probe_each (address ∷ addresses) s =
      let (probe, s') = probe_device c api (address % 2 ^ 8) s in
      let (probes, s_end) = probe_each addresses s' in (probe ∷ probes, s_end)

  -- The deadline has passed, or has not, when the clock is read on a session.
  abbrev pub IsLate : S → Type 0
  IsLate s = (d : ℕ) × (deadline ≡ some d) × (d ≤ now s)

  abbrev pub IsEarly : S → Type 0
  IsEarly s = (deadline ≡ none) ⊎ ((d : ℕ) × (deadline ≡ some d) × (now s < d))

  -- Each of the addresses, probed one after the other, starts before the deadline.
  abbrev pub AllEarly : List ℕ → S → Type 0
  AllEarly [] s = Unit
  AllEarly (address ∷ addresses) s =
      IsEarly s × AllEarly addresses (probe_device c api (address % 2 ^ 8) s).1

  abbrev pub Split : List ℕ → S → (List ProbeRecord × List ℕ) × S → Type 0
  Split addresses s ((probes, left), s') =
      (first : List ℕ) × (addresses ≡ first ++ left)
      × (probe_each first s ≡ (probes, s'))
      × AllEarly first s
      × ((left ≡ []) ⊎ IsLate s')

  out_of_time_lem :
      (s : S)
      → ((out_of_time c api now deadline s ≡ true) × IsLate s)
        ⊎ ((out_of_time c api now deadline s ≡ false) × IsEarly s)
  out_of_time_lem s = elim (Option-cases deadline) [
    | inl e ↦ inr (rw e refl, inl e)
    | inr (d, e) ↦ elim (Bool-cases (leb d (now s))) [
      | inl late ↦ inl (rw e late, (d, e, ground arith))
      | inr early ↦ inr (rw e early, inr (d, e, ground arith))
    ]
  ]

  all_skipped :
      (addresses : List ℕ) (s : S)
      → out_of_time c api now deadline s ≡ true
      → probe_all c api now deadline addresses s ≡ (([], addresses), s)
  unfolding probe_all
  all_skipped [] s e = refl
  all_skipped (address ∷ addresses) s e = ground (arith, all_skipped addresses s e)

  probe_step :
      (address : ℕ) (addresses : List ℕ) (s : S)
      → out_of_time c api now deadline s ≡ false
      → probe_all c api now deadline (address ∷ addresses) s ≡ (
          let (probe, s') = probe_device c api (address % 2 ^ 8) s in
          let ((probes, left), s_end) = probe_all c api now deadline addresses s' in
          ((probe ∷ probes, left), s_end))
  unfolding probe_all
  probe_step address addresses s e = rw e refl

  -- The addresses are probed in their order, each one while the clock reads less than the deadline.
  -- The unprobed ones are the rest, and there is a rest only where the clock has reached the deadline.
  pub probe_all-Split :
      (addresses : List ℕ) (s : S) → Split addresses s (probe_all c api now deadline addresses s)
  unfolding probe_all
  probe_all-Split [] s = ([], refl, refl, tt, inl refl)
  probe_all-Split (address ∷ addresses) s = elim (out_of_time_lem s) [
    | inl (late, passed) ↦
        rw (all_skipped (address ∷ addresses) s late) ([], refl, refl, tt, inr passed)
    | inr (early, before) ↦
        let (probe, s') = probe_device c api (address % 2 ^ 8) s in
        let (first, parts, made, in_time, ends) = probe_all-Split addresses s' in
        rw (probe_step address addresses s early) (
          address ∷ first,
          ap (λ l. address ∷ l) parts,
          ap (λ r. (probe ∷ r.0, r.1)) made,
          (before, in_time),
          ends,
        )
  ]
