-- ===== src/Inventory/Partition.antt =====
-- Every probe becomes a device or is excluded, and a configured device is missing exactly when no
-- probe confirms it.
use anolis_provider_bread.Base.{
  ℕ, suc, ◌+◌, String, Bool, true, false, not, ◌||◌, ◌&&◌, inl, inr, ◌≡◌, refl, sym, ap, ◌∙◌, List,
  [], ◌∷◌, Option, none, some, any, map, Bool-cases, if◌then◌else◌, arith,
}
use anolis_provider_bread.Contracts.{Contracts}
use anolis_provider_bread.Config.{DeviceType, DeviceSpec, ProviderConfig, same_type}
use anolis_provider_bread.Devices.{ProbeRecord, InventorySource, InventoryDevice}
use anolis_provider_bread.Inventory.{
  Verdict, excluded, included, Build, new_build, sort_probes, judge_probe, make_device, apply_spec,
  build_device, place, place_all, missing_from, build_inventory_from_probes,
}
use anolis_provider_bread.Inventory.Judgement.{
  one, count, count-append, count-sort_probes, true_last, false_and, or_last, any-sort_probes,
  marks, expected_at, accepts, confirms, judge_probe-Judged, marks-confirms,
}

module _ (c : Contracts) (claim_key : String → ℕ → String) (config : ProviderConfig) where
  make_device-address :
      (source : InventorySource) (p : ProbeRecord) (type : DeviceType)
      (match : Option (ℕ × DeviceSpec)) (index : ℕ)
      → (make_device c claim_key config source p type match index).address ≡ p.address
  unfolding make_device apply_spec build_device
  make_device-address source p type none index = refl
  make_device-address source p type (some (j, spec)) index =
      elim (Bool-cases (same_type type DeviceType.dcmt && not spec.encoders)) [
        | inl bare ↦ rw bare refl
        | inr sensed ↦ rw sensed refl
      ]

  module _ (source : InventorySource) where
    module _ (f : ℕ → Bool) where
      -- The numbers of devices and of unsupported probes whose addresses pass the test.
      abbrev devices_of : List InventoryDevice → ℕ
      devices_of = count (λ d. f d.address)

      abbrev probes_of : List ProbeRecord → ℕ
      probes_of = count (λ p. f p.address)

      abbrev Adds : Bool → Bool → Build → Build → Type 0
      Adds good here b b' =
          (devices_of b'.supported_devices ≡ one (here && good) + devices_of b.supported_devices)
          × (probes_of b'.unsupported_probes
              ≡ one (here && not good) + probes_of b.unsupported_probes)

      place-included :
          (p : ProbeRecord) (type : DeviceType) (match : Option (ℕ × DeviceSpec)) (b : Build)
          → Adds true (f p.address) b (place c claim_key config source p (included type match) b)
      unfolding place
      place-included p DeviceType.rlht match b =
          let device = make_device c claim_key config source p DeviceType.rlht match b.rlht_index in
          let at = make_device-address source p DeviceType.rlht match b.rlht_index in
          (
            count-append (λ d. f d.address) b.supported_devices device
                ∙ ap (λ a. one (f a) + devices_of b.supported_devices) at
                ∙ ap (λ t. one t + devices_of b.supported_devices) (true_last (f p.address)),
            omega (arith, false_and (f p.address)),
          )
      place-included p DeviceType.dcmt match b =
          let device = make_device c claim_key config source p DeviceType.dcmt match b.dcmt_index in
          let at = make_device-address source p DeviceType.dcmt match b.dcmt_index in
          (
            count-append (λ d. f d.address) b.supported_devices device
                ∙ ap (λ a. one (f a) + devices_of b.supported_devices) at
                ∙ ap (λ t. one t + devices_of b.supported_devices) (true_last (f p.address)),
            omega (arith, false_and (f p.address)),
          )

      place-excluded :
          (p q : ProbeRecord) (b : Build)
          → q.address ≡ p.address
          → Adds false (f p.address) b (place c claim_key config source p (excluded q) b)
      unfolding place
      place-excluded p q b at = (
        omega (arith, false_and (f p.address)),
        count-append (λ r. f r.address) b.unsupported_probes q
            ∙ ap (λ a. one (f a) + probes_of b.unsupported_probes) at
            ∙ ap (λ t. one t + probes_of b.unsupported_probes) (true_last (f p.address)),
      )

      place-Adds :
          (p : ProbeRecord) (b : Build)
          → Adds
              (accepts c config p)
              (f p.address)
              b
              (place c claim_key config source p (judge_probe c config p) b)
      place-Adds p b = elim (judge_probe-Judged c config p) [
        | inl (good, (type, e)) ↦ rw (good, e) (place-included p type (expected_at c config p) b)
        | inr (bad, (q, e, at)) ↦ rw (bad, e) (place-excluded p q b at)
      ]

      place_all-Adds :
          (probes : List ProbeRecord) (b : Build)
          → let b' = place_all c claim_key config source probes b in
            (devices_of b'.supported_devices
              ≡ count (λ p. f p.address && accepts c config p) probes
                + devices_of b.supported_devices)
            × (probes_of b'.unsupported_probes
                ≡ count (λ p. f p.address && not (accepts c config p)) probes
                  + probes_of b.unsupported_probes)
      unfolding place_all
      place_all-Adds [] b = (omega arith, omega arith)
      place_all-Adds (p ∷ probes) b =
          let b1 = place c claim_key config source p (judge_probe c config p) b in
          let (more, left) = place-Adds p b in
          let (devices, unsupported) = place_all-Adds probes b1 in
          (omega (arith, more, devices), omega (arith, left, unsupported))

    place-matched :
        (p : ProbeRecord) (v : Verdict) (b : Build) (i : ℕ)
        → (place c claim_key config source p v b).matched i ≡ (marks v i || b.matched i)
    unfolding place
    place-matched p (excluded q) b i = refl
    place-matched p (included DeviceType.rlht none) b i = refl
    place-matched p (included DeviceType.dcmt none) b i = refl
    place-matched p (included DeviceType.rlht (some (j, spec))) b i = ground arith
    place-matched p (included DeviceType.dcmt (some (j, spec))) b i = ground arith

    place_all-matched :
        (probes : List ProbeRecord) (b : Build) (i : ℕ)
        → (place_all c claim_key config source probes b).matched i
          ≡ (any (λ p. marks (judge_probe c config p) i) probes || b.matched i)
    unfolding place_all
    place_all-matched [] b i = refl
    place_all-matched (p ∷ probes) b i =
        let v = judge_probe c config p in
        place_all-matched probes (place c claim_key config source p v b) i
        ∙ ap (λ r. any (λ q. marks (judge_probe c config q) i) probes || r) (place-matched p v b i)
        ∙ or_last (any (λ q. marks (judge_probe c config q) i) probes) (marks v i) (b.matched i)

  -- The ids of the configured devices, with indices from `i` on, that are not found.
  abbrev pub absent : (ℕ → Bool) → ℕ → List DeviceSpec → List String
  absent found i [] = []
  absent found i (spec ∷ specs) =
      if found i then absent found (suc i) specs else spec.id ∷ absent found (suc i) specs

  missing_from-absent :
      (f g : ℕ → Bool)
      → ((i : ℕ) → f i ≡ g i)
      → (i : ℕ) (specs : List DeviceSpec)
      → map (λ spec. spec.id) (missing_from f i specs) ≡ absent g i specs
  unfolding missing_from
  missing_from-absent f g h i [] = refl
  missing_from-absent f g h i (spec ∷ specs) = elim (Bool-cases (f i)) [
    | inl found ↦ rw (found, sym (h i) ∙ found) (missing_from-absent f g h (suc i) specs)
    | inr lost ↦
        rw (lost, sym (h i) ∙ lost)
          (ap (λ ids. spec.id ∷ ids) (missing_from-absent f g h (suc i) specs))
  ]

  -- Some probe, in whatever order the probes come, is of the configured device `i`.
  abbrev pub confirmed : List ProbeRecord → ℕ → Bool
  confirmed probes i = any (confirms c config i) probes

  any-marks :
      (i : ℕ) (probes : List ProbeRecord)
      → any (λ p. marks (judge_probe c config p) i) probes ≡ confirmed probes i
  any-marks i [] = refl
  any-marks i (p ∷ probes) =
      ap (λ b. b || any (λ q. marks (judge_probe c config q) i) probes)
        (marks-confirms c config p i)
      ∙ ap (λ b. confirms c config i p || b) (any-marks i probes)

  false_last : (a : Bool) → (a || false) ≡ a
  false_last a = ground arith

  -- For every test of addresses, as many devices have an address that passes it as there are probes with
  -- such an address that are supported, of a known family, and not at the address of a configured
  -- device of the other family; and as many unsupported probes as there are of the other probes. The
  -- missing devices are those of the configuration, in its order, for which no probe of the first kind
  -- was made at their address. The order of the probes does not matter. Where several configured
  -- devices share an address, the first counts.
  pub build_inventory-partition :
      (probes : List ProbeRecord) (source : InventorySource) (f : ℕ → Bool)
      → let built = build_inventory_from_probes c claim_key config probes source in
        (count (λ d. f d.address) built.supported_devices
          ≡ count (λ p. f p.address && accepts c config p) probes)
        × (count (λ p. f p.address) built.unsupported_probes
            ≡ count (λ p. f p.address && not (accepts c config p)) probes)
        × (built.missing_expected_ids ≡ absent (confirmed probes) 0 config.devices)
  unfolding build_inventory_from_probes
  build_inventory-partition probes source f =
      let sorted = sort_probes probes in
      let (devices, unsupported) = place_all-Adds source f sorted new_build in
      let good = count-sort_probes (λ p. f p.address && accepts c config p) probes in
      let bad = count-sort_probes (λ p. f p.address && not (accepts c config p)) probes in
      (
        omega (arith, devices, good),
        omega (arith, unsupported, bad),
        missing_from-absent (place_all c claim_key config source sorted new_build).matched
            (confirmed probes)
            (λ i.
              place_all-matched source sorted new_build i
              ∙ false_last (any (λ p. marks (judge_probe c config p) i) sorted)
              ∙ any-marks i sorted
              ∙ any-sort_probes (confirms c config i) probes)
            0 config.devices,
      )
