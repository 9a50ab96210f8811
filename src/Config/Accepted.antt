-- ===== src/Config/Accepted.antt =====
-- That load_config keeps the values that the schema accepts, and what it drops before validation.
use anolis_provider_bread.Base.{
  ℕ, ◌≤◌, ◌<◌, ◌%◌, ◌^◌, pos, String, ◌=ₛ◌, Bool, true, false, ◌&&◌, ◌≡◌, refl, ◌⊎◌, inl, inr, List,
  ◌++◌, Option, none, some, All, ltb, Bool-cases, ltb→lt, arith,
}
use anolis_provider_bread.Config.{DeviceType, DiscoveryMode, OutputsOnStartup}
use anolis_provider_bread.Config.Texts.{
  Parsed, parsed, parse_discovery_mode, parse_outputs_on_startup, parse_device_type,
}
use anolis_provider_bread.Config.Load.{Yaml, to_u32, to_i32, to_count, drop_encoders}
use anolis_provider_bread.Config.Schema.{
  Field, Schema, build_schema, outputs_field, mode_field, type_field,
}

abbrev pub all_fields : Schema → List Field
all_fields schema =
    schema.provider.fields
    ++ (schema.hardware.fields ++ (schema.discovery.fields ++ schema.device.fields))

-- The casts of load_config keep every number from `lo` to `hi`.
abbrev pub KeptBetween : Option (ℕ × ℕ) → Type 0
KeptBetween none = Unit
KeptBetween (some (lo, hi)) =
    (v : ℕ)
    → ((v < lo) ⊎ (hi < v))
      ⊎ ((to_i32 (pos v) ≡ pos v) × (to_count (pos v) ≡ v) × (to_u32 (pos v) ≡ v))

kept_up_to :
    (hi : ℕ)
    → hi < 2 ^ 31
    → (v : ℕ) → v ≤ hi
    → (to_i32 (pos v) ≡ pos v) × (to_count (pos v) ≡ v) × (to_u32 (pos v) ≡ v)
kept_up_to hi small v h =
    let e : v % 2 ^ 32 ≡ v = omega arith in
    let low : ltb v (2 ^ 31) ≡ true = ground arith in (rw (e, low) refl, rw (e, low) refl, e)

kept_between : (lo hi : ℕ) → hi < 2 ^ 31 → KeptBetween (some (lo, hi))
kept_between lo hi small v = elim (Bool-cases (ltb hi v)) [
  | inl over ↦ inl (inr (ltb→lt hi v over))
  | inr fits ↦ inr (kept_up_to hi small v (ground arith))
]

-- Every text of an enumeration is parsed.
abbrev pub AllParse : {A : Type 0} → (String → Parsed A) → List String → Type 0
AllParse {A} parse = All (λ text. (a : A) × (parse text ≡ parsed a))

-- What the schema accepts, load_config takes over unchanged: for every field with bounds the casts to
-- int, to a count and to uint32_t keep each number in them, and every text of the enumerations of the
-- outputs policy, the discovery mode and the device type is parsed.
pub schema_kept :
    All (λ f. KeptBetween f.ints) (all_fields build_schema)
    × AllParse parse_outputs_on_startup outputs_field.enum_values
    × AllParse parse_discovery_mode mode_field.enum_values
    × AllParse parse_device_type type_field.enum_values
unfolding build_schema parse_outputs_on_startup parse_discovery_mode parse_device_type
schema_kept = (
  (
    tt,
    (
      tt,
      (
        tt,
        (
          kept_between 1 2147483647 (omega arith),
          (
            kept_between 1 2147483647 (omega arith),
            (
              kept_between 0 2147483647 (omega arith),
              (
                kept_between 1 5000000 (omega arith),
                (tt, (tt, (tt, (tt, (tt, (kept_between 0 65535 (omega arith), (tt, tt))))))),
              ),
            ),
          ),
        ),
      ),
    ),
  ),
  ((OutputsOnStartup.safe, refl), ((OutputsOnStartup.leave, refl), tt)),
  ((DiscoveryMode.scan, refl), ((DiscoveryMode.manual, refl), tt)),
  ((DeviceType.rlht, refl), ((DeviceType.dcmt, refl), tt)),
)

module _ {Y E : Type 0} (yaml : Yaml Y E) where
  open yaml use {get, is_defined, is_map, is_scalar, scalar, remove}

  -- A node that the schema would take for an RLHT.
  abbrev pub is_rlht : Y → Bool
  is_rlht device =
      let type = get device "type" in
      is_map device && (is_defined type && (is_scalar type && scalar type =ₛ "rlht"))

  -- After drop_rlht_encoders no device that is written as an RLHT has the encoders that the schema
  -- forbids there, and a device that is not keeps everything that it has.
  pub drop_encoders-forbidden :
      ((device : Y) → is_defined (get (remove "encoders" device) "encoders") ≡ false)
      → (device : Y)
      → ((is_rlht device ≡ true)
          × (is_defined (get (drop_encoders yaml device) "encoders") ≡ false))
        ⊎ ((is_rlht device ≡ false) × (drop_encoders yaml device ≡ device))
  unfolding drop_encoders
  drop_encoders-forbidden removed device = ground (arith, removed device)
