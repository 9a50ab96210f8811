-- ===== src/Watchdog/Arming.antt =====
-- What arming sends, and when.
use anolis_provider_bread.Base.{
  ◌^◌, ◌%◌, ◌<◌, Bool, true, false, not, ◌||◌, leb, ap, Bool-cases, ◌⊎◌, inl, inr, ◌≡◌, refl, [],
  ◌∷◌, some, arith,
}
use anolis_provider_bread.Frames.{RawFrame}
use anolis_provider_bread.SessionApi.{SessionApi}
use anolis_provider_bread.SessionApi.Log.{logged}
use anolis_provider_bread.Contracts.{Contracts}
use anolis_provider_bread.Devices.{InventoryDevice}
use anolis_provider_bread.AdapterHelpers.{read_u16_le}
use anolis_provider_bread.Watchdog.{
  WatchdogStatus, capability_supported, set_watchdog_frame, arm_if_configured, rearm_if_rebooted,
}

module _ (c : Contracts) {S : Type 0} (api : SessionApi S) where
  frame_timeout :
      (device : InventoryDevice)
      → device.command_watchdog_ms < 2 ^ 16
      → ((set_watchdog_frame c device).opcode ≡ c.bread.op_set_watchdog)
        × (read_u16_le (set_watchdog_frame c device).payload 0 ≡ some device.command_watchdog_ms)
  unfolding set_watchdog_frame read_u16_le
  frame_timeout device small = (refl, ap some (omega arith))

  abbrev skips : InventoryDevice → WatchdogStatus → Bool
  skips device status =
      leb device.command_watchdog_ms 0
      || (not (capability_supported c device) || (status.armed || status.tripped))

  rearm_skipped :
      (device : InventoryDevice) (status : WatchdogStatus) (s : S)
      → skips device status ≡ true
      → rearm_if_rebooted c (logged api) device status (s, []) ≡ (false, (s, []))
  unfolding rearm_if_rebooted
  rearm_skipped device status s e = rw e

  rearm_sent :
      (device : InventoryDevice) (status : WatchdogStatus) (s : S)
      → skips device status ≡ false
      → rearm_if_rebooted c (logged api) device status (s, []) ≡ (
        true,
        (
          (api.send (device.address % 2 ^ 8) (set_watchdog_frame c device) s).1,
          (device.address % 2 ^ 8, set_watchdog_frame c device) ∷ [],
        ),
      )
  unfolding rearm_if_rebooted arm_if_configured
  rearm_sent device status s e = ground arith

  -- Health re-arms a device exactly when a timeout is configured, the firmware has the watchdog, and
  -- the device reports neither armed nor tripped. It then sends one SET_WATCHDOG frame to the
  -- device, which carries the configured timeout; in every other case it sends nothing and leaves
  -- the session as it was.
  pub rearm_if_rebooted-sends :
      (device : InventoryDevice) (status : WatchdogStatus) (s : S)
      → device.command_watchdog_ms < 2 ^ 16
      → let (rearmed, (s', l')) = rearm_if_rebooted c (logged api) device status (s, []) in
        ((rearmed ≡ true)
          × (0 < device.command_watchdog_ms)
          × (capability_supported c device ≡ true)
          × (status.armed ≡ false)
          × (status.tripped ≡ false)
          × ((frame : RawFrame) × (l' ≡ (device.address % 2 ^ 8, frame) ∷ [])
              × (frame.opcode ≡ c.bread.op_set_watchdog)
              × (read_u16_le frame.payload 0 ≡ some device.command_watchdog_ms)))
        ⊎ ((rearmed ≡ false)
            × ((device.command_watchdog_ms ≡ 0)
                ⊎ (capability_supported c device ≡ false)
                ⊎ (status.armed ≡ true)
                ⊎ (status.tripped ≡ true))
            × (s' ≡ s)
            × (l' ≡ []))
  rearm_if_rebooted-sends device status s small = elim (Bool-cases (skips device status)) [
    | inl skip ↦ inr (rw (rearm_skipped device status s skip) (refl, ground arith, refl, refl))
    | inr go ↦ inl (
        rw (rearm_sent device status s go) (
          refl,
          ground arith,
          ground arith,
          ground arith,
          ground arith,
          (
            set_watchdog_frame c device,
            refl,
            (frame_timeout device small).0,
            (frame_timeout device small).1,
          ),
        ))
  ]
