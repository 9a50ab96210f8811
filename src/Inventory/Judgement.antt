-- ===== src/Inventory/Judgement.antt =====
-- Counts of probes, and how a probe is judged.
use anolis_provider_bread.Base.{
  ℕ, ◌+◌, ◌=ₛ◌, Bool, true, false, ◌||◌, ◌&&◌, ◌⊎◌, inl, inr, ◌≡◌, refl, ap, ◌∙◌, List, [], ◌∷◌,
  ◌++◌, Option, none, some, ◌==◌, any, Bool-cases, Option-cases, if◌then◌else◌, arith,
}
use anolis_provider_bread.Contracts.{Contracts}
use anolis_provider_bread.Config.{DeviceType, DeviceSpec, ProviderConfig, same_type}
use anolis_provider_bread.Compatibility.{try_parse_bread_type}
use anolis_provider_bread.Devices.{ProbeStatus, ProbeRecord}
use anolis_provider_bread.Inventory.{
  Verdict, excluded, included, comes_before, insert_probe, sort_probes, judge_probe, type_mismatch,
  is_supported, find_config_match_by_address,
}

-- How many entries pass a test.
abbrev pub one : Bool → ℕ
one b = if b then 1 else 0

abbrev pub count {ℓ} : {A : Type ℓ} → (A → Bool) → List A → ℕ
count f [] = 0
count f (x ∷ xs) = one (f x) + count f xs

pub count-append {ℓ} :
    {A : Type ℓ} (f : A → Bool) (xs : List A) (x : A)
    → count f (xs ++ x ∷ []) ≡ one (f x) + count f xs
count-append f [] x = refl
count-append f (y ∷ xs) x = omega (arith, count-append f xs x)

pub count-insert_probe :
    (f : ProbeRecord → Bool) (p : ProbeRecord) (probes : List ProbeRecord)
    → count f (insert_probe p probes) ≡ one (f p) + count f probes
unfolding insert_probe
count-insert_probe f p [] = refl
count-insert_probe f p (q ∷ probes) = elim (Bool-cases (comes_before q p)) [
  | inr after ↦ rw after refl
  | inl before ↦ rw before (omega (arith, count-insert_probe f p probes))
]

pub count-sort_probes :
    (f : ProbeRecord → Bool) (probes : List ProbeRecord)
    → count f (sort_probes probes) ≡ count f probes
unfolding sort_probes
count-sort_probes f [] = refl
count-sort_probes f (p ∷ probes) =
    omega (arith, count-insert_probe f p (sort_probes probes), count-sort_probes f probes)

pub or_swap : (a b r : Bool) → (a || (b || r)) ≡ (b || (a || r))
or_swap a b r = ground arith

pub true_last : (a : Bool) → a ≡ (a && true)
true_last a = ground arith

pub false_and : (a : Bool) → 0 ≡ one (a && false)
false_and a = ground arith

pub or_last : (a b r : Bool) → (a || (b || r)) ≡ ((b || a) || r)
or_last a b r = ground arith

-- A test of some probe does not depend on the order of the probes.
pub any-insert_probe :
    (f : ProbeRecord → Bool) (p : ProbeRecord) (probes : List ProbeRecord)
    → any f (insert_probe p probes) ≡ (f p || any f probes)
unfolding insert_probe
any-insert_probe f p [] = refl
any-insert_probe f p (q ∷ probes) = elim (Bool-cases (comes_before q p)) [
  | inr after ↦ rw after refl
  | inl before ↦
      rw before
        (ap (λ r. f q || r) (any-insert_probe f p probes) ∙ or_swap (f q) (f p) (any f probes))
]

pub any-sort_probes :
    (f : ProbeRecord → Bool) (probes : List ProbeRecord) → any f (sort_probes probes) ≡ any f probes
unfolding sort_probes
any-sort_probes f [] = refl
any-sort_probes f (p ∷ probes) =
    any-insert_probe f p (sort_probes probes) ∙ ap (λ r. f p || r) (any-sort_probes f probes)

-- Does a verdict mark the configured device `i` as found.
abbrev pub marks : Verdict → ℕ → Bool
marks (excluded p) i = false
marks (included type none) i = false
marks (included type (some (j, spec))) i = j == i

-- A type agrees with what is configured at its address.
abbrev pub agrees : DeviceType → Option (ℕ × DeviceSpec) → Bool
agrees type none = true
agrees type (some (j, spec)) = same_type spec.type type

abbrev pub family_agrees : Option DeviceType → Option (ℕ × DeviceSpec) → Bool
family_agrees none match = false
family_agrees (some type) match = agrees type match

abbrev pub is_at : ℕ → Option (ℕ × DeviceSpec) → Bool
is_at i none = false
is_at i (some (j, spec)) = j == i

module _ (c : Contracts) (config : ProviderConfig) where
  -- The configured device at the address of a probe, with its index.
  abbrev pub expected_at : ProbeRecord → Option (ℕ × DeviceSpec)
  expected_at p = find_config_match_by_address 0 config.devices p.address

  -- A probe is good for a device: it is supported, of a known family, and no device of the other family
  -- is configured at its address.
  abbrev pub accepts : ProbeRecord → Bool
  accepts p =
      is_supported p.status && family_agrees (try_parse_bread_type c p.type_id) (expected_at p)

  -- A probe is of the configured device `i`.
  abbrev pub confirms : ℕ → ProbeRecord → Bool
  confirms i p = accepts p && is_at i (expected_at p)

  -- What the judgement of a probe says.
  abbrev pub Judged : ProbeRecord → Verdict → Type 0
  Judged p v =
      ((accepts p ≡ true) × ((type : DeviceType) × (v ≡ included type (expected_at p))))
      ⊎ ((accepts p ≡ false) × ((q : ProbeRecord) × (v ≡ excluded q) × (q.address ≡ p.address)))

  pub judge_known :
      (p : ProbeRecord) (type : DeviceType)
      → is_supported p.status ≡ true
      → try_parse_bread_type c p.type_id ≡ some type
      → Judged p (judge_probe c config p)
  unfolding judge_probe
  judge_known p type good known = elim (Option-cases (expected_at p)) [
    | inl free ↦ inl (rw (good, known, free) refl, (type, rw (judge_probe, good, known, free) refl))
    | inr ((j, spec), match) ↦ elim (Bool-cases (same_type spec.type type)) [
      | inl same ↦
          inl
            (rw (good, known, match) same, (type, rw (judge_probe, good, known, match, same) refl))
      | inr other ↦ inr (
        rw (good, known, match) other,
        (type_mismatch spec type p, rw (judge_probe, good, known, match, other) refl, refl),
      )
    ]
  ]

  pub judge_probe-Judged : (p : ProbeRecord) → Judged p (judge_probe c config p)
  unfolding judge_probe
  judge_probe-Judged p = elim (Bool-cases (is_supported p.status)) [
    | inr bad ↦ inr (rw bad refl, (p, rw (judge_probe, bad) refl, refl))
    | inl good ↦ elim (Option-cases (try_parse_bread_type c p.type_id)) [
      | inl foreign ↦
          let q = record p {
            status = ProbeStatus.unsupported_type;
            detail = if p.detail =ₛ "" then "unsupported BREAD type id" else p.detail;
          } in
          inr (rw (good, foreign) refl, (q, rw (judge_probe, good, foreign) refl, refl))
      | inr (type, known) ↦ judge_known p type good known
    ]
  ]

  pub marks-confirms : (p : ProbeRecord) (i : ℕ) → marks (judge_probe c config p) i ≡ confirms i p
  marks-confirms p i = elim (judge_probe-Judged p) [
    | inr (bad, (q, e, _)) ↦ rw (e, bad) refl
    | inl (good, (type, e)) ↦ rw (e, good) (marks_at type (expected_at p) i)
  ]
    where
      marks_at :
          (type : DeviceType) (match : Option (ℕ × DeviceSpec)) (i : ℕ)
          → marks (included type match) i ≡ is_at i match
      marks_at type none i = refl
      marks_at type (some (j, spec)) i = refl
