-- ===== src/DeviceAdapter.antt =====
-- src/devices/common/device_adapter.hpp and device_adapter.cpp: the dispatch on the device type, and
-- a function call. The fallback for a type outside the enum has no counterpart, since the type is
-- closed. The proofs are in the modules below.
pub mod Calls
use anolis_provider_bread.Base.{ℕ, String, List, Option, none, some, if◌then◌else◌, Act}
use anolis_provider_bread.Frames.{RawFrame, empty_frame}
use anolis_provider_bread.SessionApi.{SessionApi}
use anolis_provider_bread.Contracts.{Contracts, Doubles}
use anolis_provider_bread.Config.{DeviceType}
use anolis_provider_bread.Devices.{
  InventoryDevice, StatusCode, AdapterCallResult, AdapterReadResult, ValueMap, SafeOutputStep,
}
use anolis_provider_bread.AdapterHelpers.{call_failed}
use anolis_provider_bread.Rlht
use anolis_provider_bread.Dcmt
use anolis_provider_bread.Rlht.Frame as RlhtFrame
use anolis_provider_bread.Dcmt.Frame as DcmtFrame

-- The operations of one device type, on the session state `S` with doubles `D`.
pub record DeviceAdapter (S D : Type 0) : Type 0 where
  pub read_signals : InventoryDevice → List String → Act S (AdapterReadResult D)
  pub build_frame : ℕ → ValueMap D → RawFrame → AdapterCallResult × RawFrame
  pub transmit : InventoryDevice → RawFrame → Act S AdapterCallResult
  pub safe_output_steps : List (SafeOutputStep D)

abbrev pub no_session : AdapterCallResult
no_session =
    call_failed StatusCode.code_unavailable
      "no hardware session (provider not built with hardware support)"

module _ (c : Contracts) {D : Type 0} (fl : Doubles D) {S : Type 0} (api : SessionApi S) where
  abbrev pub rlht_adapter : DeviceAdapter S D
  rlht_adapter = record {
    read_signals = Rlht.read_signals c fl api;
    build_frame = RlhtFrame.build_frame c fl;
    transmit = Rlht.transmit c api;
    safe_output_steps = Rlht.safe_output_steps fl;
  }

  abbrev pub dcmt_adapter : DeviceAdapter S D
  dcmt_adapter = record {
    read_signals = Dcmt.read_signals c api;
    build_frame = DcmtFrame.build_frame c;
    transmit = Dcmt.transmit c api;
    safe_output_steps = Dcmt.safe_output_steps;
  }

  unfoldable pub adapter_for : DeviceType → DeviceAdapter S D
  adapter_for DeviceType.rlht = rlht_adapter
  adapter_for DeviceType.dcmt = dcmt_adapter

-- A call, on a session that may be absent.
unfoldable pub call :
    {S D : Type 0}
    → DeviceAdapter S D
    → InventoryDevice
    → ℕ
    → ValueMap D
    → Act (Option S) AdapterCallResult
call adapter device function_id args session =
    let (built, frame) = adapter.build_frame function_id args empty_frame in
    if built.ok
    then elim session [
      | none ↦ (no_session, none)
      | some s ↦ let (result, s') = adapter.transmit device frame s in (result, some s')
    ]
    else (built, session)
