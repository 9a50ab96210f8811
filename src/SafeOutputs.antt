-- ===== src/SafeOutputs.antt =====
-- src/devices/common/safe_outputs.hpp and safe_outputs.cpp: the commands that put a device's outputs
-- in their safe state. The proofs are in the module below.
pub mod Drives
use anolis_provider_bread.Base.{
  String, ◌<>◌, ◌=ₛ◌, Bool, true, false, not, List, [], ◌∷◌, Option, none, some, if◌then◌else◌, Act,
}
use anolis_provider_bread.SessionApi.{SessionApi}
use anolis_provider_bread.Contracts.{Contracts, Doubles}
use anolis_provider_bread.Devices.{InventoryDevice, AdapterCallResult, SafeOutputStep}
use anolis_provider_bread.DeviceAdapter.{DeviceAdapter, adapter_for, call}

pub record DriveResult : Type 0 where
  pub ok : Bool
  pub failures : String

abbrev pub new_result : DriveResult
new_result = record { ok = true; failures = "" }

-- The result after one step's call.
unfoldable pub note_step : String → AdapterCallResult → DriveResult → DriveResult
note_step name sent result = if sent.ok then result else record {
  ok = false;
  failures =
      result.failures
      <> (if result.failures =ₛ "" then "" else "; ")
      <> name
      <> ": "
      <> sent.error_message;
}

abbrev or_else : {A : Type 0} → A → Option A → A
or_else a none = a
or_else a (some b) = b

-- The session after a call on it: a call keeps a session that is present.
abbrev pub call_on :
    {S D : Type 0}
    → DeviceAdapter S D
    → InventoryDevice
    → SafeOutputStep D
    → Act S AdapterCallResult
call_on adapter device step s =
    let (sent, session) = call adapter device step.function_id step.args (some s) in
    (sent, or_else s session)

unfoldable pub drive_steps :
    {S D : Type 0}
    → DeviceAdapter S D
    → InventoryDevice
    → List (SafeOutputStep D)
    → DriveResult
    → Act S DriveResult
drive_steps adapter device [] result s = (result, s)
drive_steps adapter device (step ∷ steps) result s =
    let (sent, s') = call_on adapter device step s in
    drive_steps adapter device steps (note_step step.name sent result) s'

module _ (c : Contracts) {D : Type 0} (fl : Doubles D) {S : Type 0} (api : SessionApi S) where
  unfoldable pub drive : InventoryDevice → Act S DriveResult
  drive device s =
      let adapter = adapter_for c fl api device.type in
      drive_steps adapter device adapter.safe_output_steps new_result s

unfoldable pub to_metric : DriveResult → String
to_metric result = if result.ok then "set" else "not set: " <> result.failures
