-- ===== src/Inventory/Order.antt =====
-- The roster is in the order of the addresses.
use anolis_provider_bread.Base.{
  ℕ, ◌≤◌, String, true, false, inl, inr, ◌≡◌, refl, List, [], ◌∷◌, ◌++◌, Option, none, some,
  Bool-cases, arith,
}
use anolis_provider_bread.Contracts.{Contracts}
use anolis_provider_bread.Config.{DeviceType, DeviceSpec, ProviderConfig}
use anolis_provider_bread.Devices.{ProbeRecord, InventorySource, InventoryDevice}
use anolis_provider_bread.Inventory.{
  Verdict, excluded, included, Build, new_build, comes_before, insert_probe, sort_probes,
  judge_probe, build_device, apply_spec, make_device, place, place_all, build_inventory_from_probes,
}

-- The addresses ascend from `lo` on.
abbrev Ascends : ℕ → List ProbeRecord → Type 0
Ascends lo [] = Unit
Ascends lo (p ∷ probes) = (lo ≤ p.address) × Ascends p.address probes

before_lem : (p q : ProbeRecord) → comes_before q p ≡ true → q.address ≤ p.address
unfolding comes_before
before_lem p q e = ground arith

after_lem : (p q : ProbeRecord) → comes_before q p ≡ false → p.address ≤ q.address
unfolding comes_before
after_lem p q e = ground arith

insert_probe-Ascends :
    (lo : ℕ) (p : ProbeRecord) (probes : List ProbeRecord)
    → lo ≤ p.address
    → Ascends lo probes
    → Ascends lo (insert_probe p probes)
unfolding insert_probe
insert_probe-Ascends lo p [] h a = (h, tt)
insert_probe-Ascends lo p (q ∷ probes) h (k, a) = elim (Bool-cases (comes_before q p)) [
  | inl before ↦ rw before (k, insert_probe-Ascends q.address p probes (before_lem p q before) a)
  | inr after ↦ rw after (h, (after_lem p q after, a))
]

sort_probes-Ascends : (probes : List ProbeRecord) → Ascends 0 (sort_probes probes)
unfolding sort_probes
sort_probes-Ascends [] = tt
sort_probes-Ascends (p ∷ probes) =
    insert_probe-Ascends 0 p (sort_probes probes) (omega arith) (sort_probes-Ascends probes)

-- The addresses of the devices ascend from `lo` to `hi`.
abbrev pub Upward : ℕ → List InventoryDevice → ℕ → Type 0
Upward lo [] hi = lo ≤ hi
Upward lo (d ∷ devices) hi = (lo ≤ d.address) × Upward d.address devices hi

Upward-append :
    (lo hi : ℕ) (devices : List InventoryDevice) (d : InventoryDevice)
    → Upward lo devices hi
    → hi ≤ d.address
    → Upward lo (devices ++ d ∷ []) d.address
Upward-append lo hi [] d u h = (omega arith, omega arith)
Upward-append lo hi (e ∷ devices) d (k, u) h = (k, Upward-append e.address hi devices d u h)

raise_bound :
    (lo hi top : ℕ) (devices : List InventoryDevice)
    → Upward lo devices hi
    → hi ≤ top
    → Upward lo devices top
raise_bound lo hi top [] u h = omega arith
raise_bound lo hi top (d ∷ devices) (k, u) h = (k, raise_bound d.address hi top devices u h)

module _ (c : Contracts) (claim_key : String → ℕ → String) (config : ProviderConfig)
    (source : InventorySource) where
  device_address :
      (p : ProbeRecord) (type : DeviceType) (match : Option (ℕ × DeviceSpec)) (index : ℕ)
      → (make_device c claim_key config source p type match index).address ≡ p.address
  unfolding make_device apply_spec build_device
  device_address p type none index = refl
  device_address p type (some (i, spec)) index = ground arith

  append_device :
      (hi : ℕ) (devices : List InventoryDevice) (p : ProbeRecord) (type : DeviceType)
      (match : Option (ℕ × DeviceSpec)) (index : ℕ)
      → Upward 0 devices hi
      → hi ≤ p.address
      → Upward 0
          (devices ++ make_device c claim_key config source p type match index ∷ [])
          p.address
  append_device hi devices p type match index u h =
      let d = make_device c claim_key config source p type match index in
      let same = device_address p type match index in
      raise_bound 0 d.address p.address (devices ++ d ∷ [])
        (Upward-append 0 hi devices d u (omega (arith, same))) (omega (arith, same))

  place-Upward :
      (hi : ℕ) (p : ProbeRecord) (v : Verdict) (b : Build)
      → Upward 0 b.supported_devices hi
      → hi ≤ p.address
      → Upward 0 (place c claim_key config source p v b).supported_devices p.address
  unfolding place
  place-Upward hi p (excluded q) b u h = raise_bound 0 hi p.address b.supported_devices u h
  place-Upward hi p (included DeviceType.rlht match) b u h =
      append_device hi b.supported_devices p DeviceType.rlht match b.rlht_index u h
  place-Upward hi p (included DeviceType.dcmt match) b u h =
      append_device hi b.supported_devices p DeviceType.dcmt match b.dcmt_index u h

  place_all-Upward :
      (hi : ℕ) (probes : List ProbeRecord) (b : Build)
      → Upward 0 b.supported_devices hi
      → Ascends hi probes
      → (top : ℕ) × Upward 0 (place_all c claim_key config source probes b).supported_devices top
  unfolding place_all
  place_all-Upward hi [] b u a = (hi, u)
  place_all-Upward hi (p ∷ probes) b u (h, a) =
      let v = judge_probe c config p in
      place_all-Upward p.address probes (place c claim_key config source p v b)
        (place-Upward hi p v b u h) a

  -- In whatever order the probes come, the devices of the inventory are in the order of their
  -- addresses.
  pub build_inventory-Upward :
      (probes : List ProbeRecord)
      → let built = build_inventory_from_probes c claim_key config probes source in
        (top : ℕ) × Upward 0 built.supported_devices top
  unfolding build_inventory_from_probes
  build_inventory-Upward probes =
      place_all-Upward 0 (sort_probes probes) new_build (omega arith) (sort_probes-Ascends probes)
