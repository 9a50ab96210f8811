-- ===== src/Config/Schema.antt =====
-- The schema of src/config/config_schema.cpp, as the data that build_schema gives to the SDK: names,
-- kinds, presence, bounds, patterns, defaults and enumerations. Titles, descriptions and placeholders,
-- which are for forms, are left out.
use anolis_provider_bread.Base.{ℕ, String, Bool, true, false, List, [], ◌∷◌, Option, none, some}

pub data FieldKind : Type 0 where
  string_field integer_field boolean_field i2c_address_field : FieldKind

pub data Default : Type 0 where
  no_default : Default
  default_string : String → Default
  default_int : ℕ → Default
  default_bool : Bool → Default

-- `ints` is the pair of min_int and max_int.
pub record Field : Type 0 where
  pub name : String
  pub kind : FieldKind
  pub required : Bool
  pub unique : Bool
  pub non_empty : Bool
  pub pattern : Option String
  pub ints : Option (ℕ × ℕ)
  pub default : Default
  pub enum_values : List String

abbrev pub field : FieldKind → String → Field
field kind name = record {
  name = name;
  kind = kind;
  required = false;
  unique = false;
  non_empty = false;
  pattern = none;
  ints = none;
  default = no_default;
  enum_values = [];
}

-- when(field, value, require or forbid): where the field has the value, `target` must be there, or must
-- not.
pub record When : Type 0 where
  pub field : String
  pub value : String
  pub forbids : Bool
  pub target : String

pub record ArraySchema : Type 0 where
  pub name : String
  pub item : Field
  pub min_items : ℕ
  pub unique : Bool

pub record ObjectSchema : Type 0 where
  pub fields : List Field
  pub arrays : List ArraySchema
  pub conditions : List When

-- The root has these four, all of them closed objects; hardware and discovery are required.
pub record Schema : Type 0 where
  pub provider : ObjectSchema
  pub hardware : ObjectSchema
  pub discovery : ObjectSchema
  pub device : ObjectSchema

abbrev pub identifier_pattern : String
identifier_pattern = "^[A-Za-z0-9_.-]{1,64}$"

abbrev pub int_max : ℕ
int_max = 2147483647

abbrev pub outputs_field : Field
outputs_field = record (field FieldKind.string_field "outputs_on_startup") {
  enum_values = "safe" ∷ "leave" ∷ [];
  default = default_string "safe";
}

abbrev pub mode_field : Field
mode_field = record (field FieldKind.string_field "mode") {
  required = true;
  enum_values = "scan" ∷ "manual" ∷ [];
  default = default_string "manual";
}

abbrev pub type_field : Field
type_field = record (field FieldKind.string_field "type") {
  required = true;
  enum_values = "rlht" ∷ "dcmt" ∷ [];
}

abbrev int_field : String → ℕ → ℕ → Default → Field
int_field name lo hi default = record (field FieldKind.integer_field name) {
  ints = some (lo, hi);
  default = default;
}

abbrev pub query_delay_field : Field
query_delay_field = int_field "query_delay_us" 1 int_max (default_int 10000)

abbrev pub timeout_field : Field
timeout_field = int_field "timeout_ms" 1 int_max (default_int 100)

abbrev pub retry_field : Field
retry_field = int_field "retry_count" 0 int_max (default_int 2)

abbrev pub max_bus_hz_field : Field
max_bus_hz_field = int_field "max_bus_hz" 1 5000000 no_default

abbrev pub watchdog_field : Field
watchdog_field = int_field "command_watchdog_ms" 0 65535 (default_int 0)

unfoldable pub build_schema : Schema
build_schema = record {
  provider = record {
    fields =
        record (field FieldKind.string_field "name") {
          pattern = some identifier_pattern;
          default = default_string "anolis-provider-bread";
        }
        ∷ outputs_field
        ∷ [];
    arrays = [];
    conditions = [];
  };
  hardware = record {
    fields =
        record (field FieldKind.string_field "bus_path") { required = true; non_empty = true }
        ∷ query_delay_field
        ∷ timeout_field
        ∷ retry_field
        ∷ max_bus_hz_field
        ∷ [];
    arrays = [];
    conditions = [];
  };
  discovery = record {
    fields = mode_field ∷ [];
    arrays =
        record {
          name = "addresses";
          item = field FieldKind.i2c_address_field "address";
          min_items = 1;
          unique = true;
        }
        ∷ [];
    conditions =
        record { field = "mode"; value = "manual"; forbids = false; target = "addresses" }
        ∷ record { field = "mode"; value = "scan"; forbids = true; target = "addresses" }
        ∷ [];
  };
  device = record {
    fields =
        record (field FieldKind.string_field "id") {
          required = true;
          unique = true;
          pattern = some identifier_pattern;
        }
        ∷ type_field
        ∷ record (field FieldKind.string_field "label") { non_empty = true }
        ∷ record (field FieldKind.i2c_address_field "address") { required = true; unique = true }
        ∷ watchdog_field
        ∷ record (field FieldKind.boolean_field "encoders") { default = default_bool true }
        ∷ [];
    arrays = [];
    conditions =
        record { field = "type"; value = "rlht"; forbids = true; target = "encoders" } ∷ [];
  };
}
