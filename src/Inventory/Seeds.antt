-- ===== src/Inventory/Seeds.antt =====
-- Which devices a configuration seeds.
use anolis_provider_bread.Base.{
  ℕ, String, suc, ◌+◌, Bool, true, ◌&&◌, ◌⊎◌, inl, inr, ◌≡◌, ◌≢◌, refl, sym, ap, ◌∙◌, List, [], ◌∷◌,
  some, ◌==◌, ==→eq, map, All, Bool-cases, arith,
}
use anolis_provider_bread.Contracts.{Contracts}
use anolis_provider_bread.Config.{DeviceType, DeviceSpec, ProviderConfig, same_type}
use anolis_provider_bread.Devices.{ProbeStatus, ProbeRecord, InventorySource}
use anolis_provider_bread.Compatibility.{try_parse_bread_type, bread_type_id}
use anolis_provider_bread.Inventory.{find_config_match_by_address, build_seed_inventory}
use anolis_provider_bread.Inventory.Profiles.{
  build_seed_probes, seeded_version, make_seeded_capability_profile,
}
use anolis_provider_bread.Inventory.Judgement.{
  one, count, accepts, agrees, family_agrees, expected_at,
}
use anolis_provider_bread.Inventory.Partition.{build_inventory-partition}

-- Two configured devices are at different addresses, or of one family.
abbrev pub Apart : DeviceSpec → DeviceSpec → Type 0
Apart a b = (a.address ≢ b.address) ⊎ (a.type ≡ b.type)

same_type_refl : (a b : DeviceType) → a ≡ b → same_type b a ≡ true
same_type_refl DeviceType.rlht b e = rw (sym e) refl
same_type_refl DeviceType.dcmt b e = rw (sym e) refl

module _ (c : Contracts) where
  parse_seeded :
      (type : DeviceType)
      → c.rlht.type_id ≢ c.dcmt.type_id
      → try_parse_bread_type c (bread_type_id c type) ≡ some type
  unfolding try_parse_bread_type bread_type_id
  parse_seeded DeviceType.rlht h = ground arith
  parse_seeded DeviceType.dcmt h = ground arith

  module _ (claim_key : String → ℕ → String) (config : ProviderConfig) where
    abbrev seed : DeviceSpec → ProbeRecord
    seed spec = record {
      address = spec.address;
      type_id = bread_type_id c spec.type;
      status = ProbeStatus.supported;
      version = seeded_version c spec.type;
      capability_profile = make_seeded_capability_profile c spec.type;
      detail = "config-seeded";
    }

    found-agrees :
        (i : ℕ) (spec : DeviceSpec) (specs : List DeviceSpec)
        → All (Apart spec) specs
        → agrees spec.type (find_config_match_by_address i specs spec.address) ≡ true
    unfolding find_config_match_by_address
    found-agrees i spec [] h = refl
    found-agrees i spec (other ∷ specs) (h, hs) =
        elim (Bool-cases (other.address == spec.address)) [
          | inr elsewhere ↦ rw elsewhere (found-agrees (suc i) spec specs hs)
          | inl here ↦ elim h [
            | inl apart ↦ absurd (apart (sym (==→eq _ _ here)))
            | inr same ↦ rw here (same_type_refl spec.type other.type same)
          ]
        ]

    seed-accepts :
        (spec : DeviceSpec)
        → c.rlht.type_id ≢ c.dcmt.type_id
        → All (Apart spec) config.devices
        → accepts c config (seed spec) ≡ true
    seed-accepts spec families h =
        ap (λ t. family_agrees t (expected_at c config (seed spec)))
          (parse_seeded spec.type families)
        ∙ found-agrees 0 spec config.devices h

    true_and : (a b : Bool) → b ≡ true → (a && b) ≡ a
    true_and a b e = ground arith

    seeds_count :
        (f : ℕ → Bool) (specs : List DeviceSpec)
        → c.rlht.type_id ≢ c.dcmt.type_id
        → All (λ spec. All (Apart spec) config.devices) specs
        → count (λ p. f p.address && accepts c config p) (map seed specs)
          ≡ count (λ spec. f spec.address) specs
    seeds_count f [] families h = refl
    seeds_count f (spec ∷ specs) families (h, hs) =
        let good =
          true_and (f spec.address) (accepts c config (seed spec)) (seed-accepts spec families h) in
        ap (λ b. one b + count (λ p. f p.address && accepts c config p) (map seed specs)) good
        ∙ ap (λ n. one (f spec.address) + n) (seeds_count f specs families hs)

    -- Where no two configured devices of different families share an address, the seeded inventory has
    -- as many devices at any choice of addresses as are configured there.
    pub build_seed_inventory-count :
        (f : ℕ → Bool)
        → c.rlht.type_id ≢ c.dcmt.type_id
        → All (λ spec. All (Apart spec) config.devices) config.devices
        → count (λ d. f d.address) (build_seed_inventory c claim_key config)
          ≡ count (λ spec. f spec.address) config.devices
    unfolding build_seed_inventory build_seed_probes
    build_seed_inventory-count f families h =
        let (devices, _, _) =
          build_inventory-partition c claim_key config (map seed config.devices)
            InventorySource.config_seeded f in
        devices ∙ seeds_count f config.devices families h
