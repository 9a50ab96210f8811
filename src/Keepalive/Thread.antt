-- ===== src/Keepalive/Thread.antt =====
-- Keepalive::start and Keepalive::run of src/devices/common/watchdog_keepalive.cpp: the thread that ticks
-- at the times that tick gives. What happens while it waits is an argument: how late it wakes, which
-- devices the runtime contacts, what others do on the bus, and whether the keep-alive is destroyed. Times are
-- whole milliseconds, where the clock of the code is finer.
use anolis_provider_bread.Base.{
  ℕ, zero, suc, ◌+◌, ◌-◌, ◌≤◌, String, Bool, true, false, ◌⊎◌, ◌≡◌, List, [], ◌∷◌, All, Option,
  none, some, if◌then◌else◌, is_empty,
}
use anolis_provider_bread.SessionApi.{SessionApi}
use anolis_provider_bread.Contracts.{Contracts}
use anolis_provider_bread.Keepalive.{Keepalive, tick, contacted}

pub record Meanwhile (S : Type 0) : Type 0 where
  pub late : ℕ
  pub contacts : List String
  pub others : S → S
  pub stopping : Bool

abbrev pub contact_each : List String → Keepalive → Keepalive
contact_each [] k = k
contact_each (device_id ∷ ids) k = contact_each ids (contacted device_id k)

-- How the thread ends: whether it was stopped, the time of its last turn, and what it leaves.
pub record Finished (S : Type 0) : Type 0 where
  pub stopped : Bool
  pub time : ℕ
  pub keepalive : Keepalive
  pub session : S

module _ (c : Contracts) {S : Type 0} (api : SessionApi S) (meanwhile : ℕ → Meanwhile S) where
  -- run, with `rounds` turns of its loop left; `stopping` is whether the keep-alive is being destroyed.
  unfoldable pub run : ℕ → Bool → ℕ → Keepalive → S → Option (Finished S)
  run zero stopping now k s = none
  run (suc rounds) stopping now k s =
      let ((next, k1), s1) = tick c api now k s in
      let m = meanwhile rounds in
      let k2 = contact_each m.contacts k1 in
      let s2 = m.others s1 in
      let ticked : Option (Finished S) = elim next [
        | none ↦ some (record { stopped = false; time = now; keepalive = k1; session = s1 })
        | some at_time ↦ run rounds m.stopping (at_time + m.late) k2 s2
      ] in
      if stopping
      then some (record { stopped = true; time = now; keepalive = k; session = s })
      else ticked

  -- start; the turns are one for each millisecond to the deadline and one more.
  unfoldable pub start : Bool → ℕ → Keepalive → S → Option (Finished S)
  start stopping now k s =
      let ran = run (suc (k.deadline - now)) stopping now k s in
      if is_empty k.fed
      then some (record { stopped = false; time = now; keepalive = k; session = s })
      else ran

  -- The thread ends, and unless it was stopped its last turn is at the deadline or later, or every
  -- device was contacted.
  abbrev pub Ends : ℕ → Option (Finished S) → Type 0
  Ends deadline r =
      (f : Finished S) × (r ≡ some f)
      × ((f.stopped ≡ true) ⊎ ((deadline ≤ f.time) ⊎ All (λ fed. fed.done ≡ true) f.keepalive.fed))
