-- ===== src/Config.antt =====
-- The resolved configuration (src/config/provider_config.hpp), the device families
-- (src/devices/common/device_type.hpp), and their text forms (src/config/provider_config.cpp).
pub mod Texts
pub mod Load
pub mod Loads
pub mod Schema
pub mod Accepted
use anolis_provider_bread.Base.{ℕ, ℤ, String, ◌<>◌, Bool, List, Option}
use anolis_provider_bread.Base.Text.{to_hex}
use anolis_provider_bread.Frames.{SessionOptions}

pub data DeviceType : Type 0 where
  rlht dcmt : DeviceType

pub data DiscoveryMode : Type 0 where
  scan manual : DiscoveryMode

pub data OutputsOnStartup : Type 0 where
  safe leave : OutputsOnStartup

pub record DeviceSpec : Type 0 where
  pub id : String
  pub type : DeviceType
  pub label : String
  pub address : ℕ
  pub command_watchdog_ms : ℕ
  pub encoders : Bool

pub record ProviderConfig : Type 0 where
  pub config_file_path : String
  pub provider_name : String
  pub outputs_on_startup : OutputsOnStartup
  pub bus_path : String
  pub query_delay_us : ℕ
  pub timeout_ms : ℕ
  pub retry_count : ℤ
  pub max_bus_hz : Option ℕ
  pub discovery_mode : DiscoveryMode
  pub manual_addresses : List ℕ
  pub devices : List DeviceSpec

unfoldable pub device_type_to_string : DeviceType → String
device_type_to_string DeviceType.rlht = "rlht"
device_type_to_string DeviceType.dcmt = "dcmt"

unfoldable pub discovery_mode_to_string : DiscoveryMode → String
discovery_mode_to_string DiscoveryMode.scan = "scan"
discovery_mode_to_string DiscoveryMode.manual = "manual"

unfoldable pub format_i2c_address : ℕ → String
format_i2c_address address = "0x" <> to_hex 2 address

-- make_session_options of src/crumbs/session.cpp; the integers fit their types, which the schema
-- bounds to 1 and above.
unfoldable pub make_session_options : ProviderConfig → SessionOptions
make_session_options config = record {
  bus_path = config.bus_path;
  query_delay_us = config.query_delay_us;
  timeout_ms = config.timeout_ms;
  retry_count = config.retry_count;
}

pub DeviceType-discrete : Discrete DeviceType
DeviceType-discrete = hlevel

abbrev pub same_type : DeviceType → DeviceType → Bool
same_type DeviceType.rlht DeviceType.rlht = Bool.true
same_type DeviceType.dcmt DeviceType.dcmt = Bool.true
same_type _ _ = Bool.false
