-- ===== src/Keepalive/Schedule.antt =====
-- A keep-alive stays on schedule, from its start on.
use anolis_provider_bread.Base.{
  ℕ, ◌≤◌, String, ◌=ₛ◌, not, ◌||◌, inl, inr, refl, List, [], ◌∷◌, All, Option, none, some, leb,
  Bool-cases, arith,
}
use anolis_provider_bread.SessionApi.{SessionApi}
use anolis_provider_bread.Contracts.{Contracts}
use anolis_provider_bread.Devices.{InventoryDevice}
use anolis_provider_bread.Watchdog.{capability_supported}
use anolis_provider_bread.Keepalive.{
  Fed, Keepalive, earliest, fed_devices, new_keepalive, feed, feed_all, tick, contact_all,
  contacted,
}
use anolis_provider_bread.Keepalive.Due.{
  OnTime, IsScheduled, feed_due, feed_all-done, feed_all-live,
}

later-OnTime : (now later : ℕ) (f : Fed) → now ≤ later → OnTime now f → OnTime later f
later-OnTime now later f le (positive, inl over) = (positive, inl over)
later-OnTime now later f le (positive, inr soon) = (positive, inr (omega arith))

pub time_passes :
    (now later : ℕ) (fs : List Fed) → now ≤ later → All (OnTime now) fs → All (OnTime later) fs
time_passes now later [] le h = tt
time_passes now later (f ∷ fs) le (h, hs) =
    (later-OnTime now later f le h, time_passes now later fs le hs)

pub contact_all-OnTime :
    (now : ℕ) (device_id : String) (fs : List Fed)
    → All (OnTime now) fs
    → All (OnTime now) (contact_all device_id fs)
unfolding contact_all
contact_all-OnTime now device_id [] h = tt
contact_all-OnTime now device_id (f ∷ fs) ((positive, soon), hs) =
    elim (Bool-cases (f.done || not (f.device.descriptor.device_id =ₛ device_id))) [
      | inl kept ↦ rw kept ((positive, soon), contact_all-OnTime now device_id fs hs)
      | inr fresh ↦ rw fresh ((positive, inl refl), contact_all-OnTime now device_id fs hs)
    ]

module _ (c : Contracts) where
  pub fed_devices-OnTime :
      (armed_at : ℕ) (devices : List InventoryDevice)
      → All (OnTime armed_at) (fed_devices c armed_at devices)
  unfolding fed_devices
  fed_devices-OnTime armed_at [] = tt
  fed_devices-OnTime armed_at (d ∷ devices) =
      elim (Bool-cases (leb d.command_watchdog_ms 0 || not (capability_supported c d))) [
        | inl skipped ↦ rw skipped (fed_devices-OnTime armed_at devices)
        | inr fed ↦ rw fed ((omega arith, inr (omega arith)), fed_devices-OnTime armed_at devices)
      ]

  module _ {S : Type 0} (api : SessionApi S) where
    feed_all-OnTime :
        (now : ℕ) (next : Option ℕ) (fs : List Fed) (s : S)
        → All (OnTime now) fs
        → All (OnTime now) (feed_all c api now next fs s).0.1
    feed_all-OnTime now next [] s h = unfold feed_all in tt
    feed_all-OnTime now next (f ∷ fs) s (h, hs) = elim (Bool-cases f.done) [
      | inl over ↦
          rw (feed_all-done c api now next f fs s over) (h, feed_all-OnTime now next fs s hs)
      | inr live ↦
          let (f', s') = feed c api now f s in
          let (_, same, _, soon) = feed_due c api now f s live h in
          rw (feed_all-live c api now next f fs s live) (
            (omega (arith, same, h.0), inr soon),
            feed_all-OnTime now (some (earliest next f'.next_due)) fs s' hs,
          )
    ]

    pub tick-OnTime :
        (now : ℕ) (k : Keepalive) (s : S)
        → IsScheduled now k
        → IsScheduled now (tick c api now k s).0.1
    unfolding tick
    tick-OnTime now k s h = elim (Bool-cases k.capped) [
      | inl over ↦ rw over h
      | inr live ↦ elim (Bool-cases (leb k.deadline now)) [
        | inl late ↦ rw (live, late) h
        | inr early ↦ rw (live, early) (feed_all-OnTime now none k.fed s h)
      ]
    ]

    -- A new keep-alive is on schedule, and it stays so: a tick, a contact and the passing of time keep
    -- every device that is not contacted due within one interval, and the intervals positive.
    pub IsScheduled-kept :
        (devices : List InventoryDevice) (cap armed_at now later : ℕ) (device_id : String)
        (k : Keepalive) (s : S)
        → IsScheduled now k
        → now ≤ later
        → IsScheduled armed_at (new_keepalive c devices cap armed_at)
          × IsScheduled later (tick c api now k s).0.1
          × IsScheduled later (contacted device_id k)
    unfolding new_keepalive contacted
    IsScheduled-kept devices cap armed_at now later device_id k s h le = (
      fed_devices-OnTime armed_at devices,
      time_passes now later (tick c api now k s).0.1.fed le (tick-OnTime now k s h),
      time_passes now later (contact_all device_id k.fed) le
          (contact_all-OnTime now device_id k.fed h),
    )
