-- ===== src/Keepalive.antt =====
-- src/devices/common/watchdog_keepalive.hpp and watchdog_keepalive.cpp: armed watchdogs are fed until the runtime's
-- first call. Times are in milliseconds. The mutex makes each method one step; Thread is the thread of
-- start, which ticks at the times that `tick` returns.
pub mod Due
pub mod Feeds
pub mod Schedule
pub mod Thread
use anolis_provider_bread.Base.{
  ℕ, ◌+◌, ◌/◌, max, min, String, ◌=ₛ◌, Bool, true, false, not, ◌&&◌, ◌||◌, List, [], ◌∷◌, Option,
  none, some, leb, if◌then◌else◌, Act,
}
use anolis_provider_bread.SessionApi.{SessionApi}
use anolis_provider_bread.Contracts.{Contracts}
use anolis_provider_bread.Devices.{InventoryDevice}
use anolis_provider_bread.Watchdog.{capability_supported, query_status, new_watchdog_status}

abbrev pub keepalive_cap : ℕ
keepalive_cap = 30000

pub record Fed : Type 0 where
  pub device : InventoryDevice
  pub interval : ℕ
  pub next_due : ℕ
  pub done : Bool

pub record Keepalive : Type 0 where
  pub armed_at : ℕ
  pub deadline : ℕ
  pub fed : List Fed
  pub capped : Bool

-- A quarter of the watchdog timeout, and 1 ms at least.
abbrev pub feed_interval : InventoryDevice → ℕ
feed_interval device = max (device.command_watchdog_ms / 4) 1

-- std::min over an optional.
abbrev pub earliest : Option ℕ → ℕ → ℕ
earliest none due = due
earliest (some next) due = min next due

abbrev pub at_most : ℕ → Option ℕ → Option ℕ
at_most deadline none = none
at_most deadline (some next) = some (min next deadline)

module _ (c : Contracts) where
  unfoldable pub fed_devices : ℕ → List InventoryDevice → List Fed
  fed_devices armed_at [] = []
  fed_devices armed_at (device ∷ devices) =
      let rest = fed_devices armed_at devices in
      if leb device.command_watchdog_ms 0 || not (capability_supported c device)
      then rest
      else record {
        device = device;
        interval = feed_interval device;
        next_due = armed_at + feed_interval device;
        done = false;
      }
        ∷ rest

  -- Keepalive::Keepalive
  unfoldable pub new_keepalive : List InventoryDevice → ℕ → ℕ → Keepalive
  new_keepalive devices cap armed_at = record {
    armed_at = armed_at;
    deadline = armed_at + cap;
    fed = fed_devices armed_at devices;
    capped = false;
  }

  module _ {S : Type 0} (api : SessionApi S) where
    -- The body of tick's loop for one device that is not done.
    unfoldable pub feed : ℕ → Fed → Act S Fed
    feed now f s =
        let asked = (query_status c api f.device new_watchdog_status s).1 in
        if leb f.next_due now then (record f { next_due = now + f.interval }, asked) else (f, s)

    unfoldable pub feed_all : ℕ → Option ℕ → List Fed → Act S (Option ℕ × List Fed)
    feed_all now next [] s = ((next, []), s)
    feed_all now next (f ∷ fs) s =
        let (f', s') = (if f.done then (f, s) else feed now f s) in
        let next' = (if f.done then next else some (earliest next f'.next_due)) in
        let ((last, fs'), s'') = feed_all now next' fs s' in ((last, f' ∷ fs'), s'')

    -- Keepalive::tick
    unfoldable pub tick : ℕ → Keepalive → Act S (Option ℕ × Keepalive)
    tick now k s =
        let ((next, fed'), s') = feed_all now none k.fed s in
        if k.capped
        then ((none, k), s)
        else if leb k.deadline now
        then ((none, record k { capped = true }), s)
        else ((at_most k.deadline next, record k { fed = fed' }), s')

unfoldable pub contact_all : String → List Fed → List Fed
contact_all device_id [] = []
contact_all device_id (f ∷ fs) =
    (if f.done || not (f.device.descriptor.device_id =ₛ device_id)
      then f
      else record f { done = true })
    ∷ contact_all device_id fs

-- Keepalive::contacted
unfoldable pub contacted : String → Keepalive → Keepalive
contacted device_id k = record k { fed = contact_all device_id k.fed }
