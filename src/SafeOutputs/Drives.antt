-- ===== src/SafeOutputs/Drives.antt =====
-- Driving a device safe goes through every step.
use anolis_provider_bread.Base.{String, Bool, true, ◌&&◌, ◌≡◌, refl, ◌∙◌, List, [], ◌∷◌, arith}
use anolis_provider_bread.SessionApi.{SessionApi}
use anolis_provider_bread.Contracts.{Contracts, Doubles}
use anolis_provider_bread.Devices.{InventoryDevice, AdapterCallResult, SafeOutputStep}
use anolis_provider_bread.DeviceAdapter.{DeviceAdapter, adapter_for}
use anolis_provider_bread.SafeOutputs.{
  DriveResult, new_result, note_step, call_on, drive_steps, drive,
}

module _ {S D : Type 0} (adapter : DeviceAdapter S D) (device : InventoryDevice) where
  -- The session after the calls of all the steps, one after the other.
  abbrev pub after_all : List (SafeOutputStep D) → S → S
  after_all [] s = s
  after_all (step ∷ steps) s = after_all steps (call_on adapter device step s).1

  -- Every call succeeds, each on the session that the ones before it leave.
  abbrev pub all_ok : List (SafeOutputStep D) → S → Bool
  all_ok [] s = true
  all_ok (step ∷ steps) s =
      let (sent, s') = call_on adapter device step s in sent.ok && all_ok steps s'

  note_step_lem :
      (name : String) (sent : AdapterCallResult) (result : DriveResult) (rest : Bool)
      → ((note_step name sent result).ok && rest) ≡ (result.ok && (sent.ok && rest))
  unfolding note_step
  note_step_lem name sent result rest = ground arith

  drive_steps_lem :
      (steps : List (SafeOutputStep D)) (result : DriveResult) (s : S)
      → let (after, s') = drive_steps adapter device steps result s in
        (after.ok ≡ (result.ok && all_ok steps s)) × (s' ≡ after_all steps s)
  unfolding drive_steps
  drive_steps_lem [] result s = (ground arith, refl)
  drive_steps_lem (step ∷ steps) result s =
      let (sent, s') = call_on adapter device step s in
      let (ok_lem, state_lem) = drive_steps_lem steps (note_step step.name sent result) s' in
      (ok_lem ∙ note_step_lem step.name sent result (all_ok steps s'), state_lem)

module _ (c : Contracts) {D : Type 0} (fl : Doubles D) {S : Type 0} (api : SessionApi S) where
  -- Driving a device safe makes the call of every step of its family's sequence, in order, whether
  -- or not an earlier one failed: the session is the one after all the calls. The result is ok
  -- exactly when every call succeeded.
  pub drive-all :
      (device : InventoryDevice) (s : S)
      → let adapter = adapter_for c fl api device.type in
        let (result, s') = drive c fl api device s in
        (s' ≡ after_all adapter device adapter.safe_output_steps s)
        × (result.ok ≡ all_ok adapter device adapter.safe_output_steps s)
  unfolding drive
  drive-all device s =
      let adapter = adapter_for c fl api device.type in
      let (ok_lem, state_lem) =
        drive_steps_lem adapter device adapter.safe_output_steps new_result s in
      (state_lem, ok_lem)
