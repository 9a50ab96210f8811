-- ===== src/Devices.antt =====
-- The data of the device layer: probe records, capabilities and inventory entries
-- (src/devices/common/bread_compatibility.hpp, inventory.hpp), and the results and argument values of
-- the adapters (adapter_helpers.hpp). A protobuf message is a record of the fields that the provider
-- sets; the descriptions of functions, arguments and signals are left out.
use anolis_provider_bread.Base.{ℕ, ℤ, String, Bool, List}
use anolis_provider_bread.Config.{DeviceType}

pub data ProbeStatus : Type 0 where
  supported unsupported_type version_read_failed incompatible_crumbs_version : ProbeStatus
  incompatible_module_major type_mismatch : ProbeStatus

pub record ModuleVersion : Type 0 where
  pub crumbs_version : ℕ
  pub module_major : ℕ
  pub module_minor : ℕ
  pub module_patch : ℕ

pub data InventorySource : Type 0 where
  config_seeded manual discovered : InventorySource

pub data CapabilitySource : Type 0 where
  seeded queried baseline_fallback : CapabilitySource

pub record CapabilityProfile : Type 0 where
  pub schema : ℕ
  pub level : ℕ
  pub flags : ℕ
  pub source : CapabilitySource

pub record ProbeRecord : Type 0 where
  pub address : ℕ
  pub type_id : ℕ
  pub status : ProbeStatus
  pub version : ModuleVersion
  pub capability_profile : CapabilityProfile
  pub detail : String

pub data ValueType : Type 0 where
  vt_bool vt_int64 vt_uint64 vt_double vt_string : ValueType

pub data Category : Type 0 where
  cat_config cat_actuate : Category

-- The declared range of an argument; that of a double is in tenths.
pub data Bounds : Type 0 where
  unbounded : Bounds
  int64_bounds : ℤ → ℤ → Bounds
  uint64_bounds : ℕ → ℕ → Bounds
  tenths_bounds : ℤ → ℤ → Bounds

pub record ArgSpec : Type 0 where
  pub name : String
  pub type : ValueType
  pub required : Bool
  pub unit : String
  pub allowed_values : List String
  pub bounds : Bounds

pub record FunctionSpec : Type 0 where
  pub function_id : ℕ
  pub name : String
  pub category : Category
  pub args : List ArgSpec

pub record SignalSpec : Type 0 where
  pub signal_id : String
  pub value_type : ValueType
  pub unit : String

pub record CapabilitySet : Type 0 where
  pub functions : List FunctionSpec
  pub signals : List SignalSpec

-- The Device message.
pub record Descriptor : Type 0 where
  pub device_id : String
  pub provider_name : String
  pub label : String
  pub address : String
  pub type_id : String
  pub type_version : String
  pub claims : List String
  pub tags : List (String × String)

pub record InventoryDevice : Type 0 where
  pub descriptor : Descriptor
  pub capabilities : CapabilitySet
  pub type : DeviceType
  pub address : ℕ
  pub source : InventorySource
  pub expected : Bool
  pub version : ModuleVersion
  pub capability_profile : CapabilityProfile
  pub command_watchdog_ms : ℕ
  pub encoders : Bool

-- The ADPP status codes that the provider uses.
pub data StatusCode : Type 0 where
  code_ok code_invalid_argument code_out_of_range code_not_found code_unavailable : StatusCode
  code_deadline_exceeded code_internal code_failed_precondition code_unimplemented : StatusCode

pub record AdapterCallResult : Type 0 where
  pub ok : Bool
  pub error_code : StatusCode
  pub error_message : String

-- A protobuf Value whose type tag is its constructor; `D` is the type of doubles.
pub data Value (D : Type 0) : Type 0 where
  bool_val : Bool → Value D
  int64_val : ℤ → Value D
  uint64_val : ℕ → Value D
  double_val : D → Value D
  string_val : String → Value D

abbrev pub ValueMap : Type 0 → Type 0
ValueMap D = List (String × Value D)

pub data Quality : Type 0 where
  quality_ok quality_fault : Quality

-- A SignalValue; its timestamp, the time of the reply, is left out.
pub record SignalValue (D : Type 0) : Type 0 where
  pub signal_id : String
  pub value : Value D
  pub quality : Quality

pub record AdapterReadResult (D : Type 0) : Type 0 where
  pub ok : Bool
  pub error_code : StatusCode
  pub error_message : String
  pub values : List (SignalValue D)

pub record SafeOutputStep (D : Type 0) : Type 0 where
  pub function_id : ℕ
  pub name : String
  pub args : ValueMap D

abbrev pub zero_version : ModuleVersion
zero_version = record { crumbs_version = 0; module_major = 0; module_minor = 0; module_patch = 0 }

abbrev pub empty_profile : CapabilityProfile
empty_profile = record { schema = 0; level = 0; flags = 0; source = CapabilitySource.seeded }
