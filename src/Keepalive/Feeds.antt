-- ===== src/Keepalive/Feeds.antt =====
-- Which devices a tick queries.
use mathlib.Core.List.{reverse, reverse-cons, append_assoc, append-nil}
use anolis_provider_bread.Base.{
  ℕ, ◌<◌, String, ◌=ₛ◌, Bool, false, not, ◌&&◌, ◌≡◌, refl, sym, ap, ◌∙◌, List, [], ◌∷◌, ◌++◌, map,
  keep_if, Option, none, some, leb, if◌then◌else◌, Bool-cases, inl, inr, arith,
}
use anolis_provider_bread.SessionApi.{SessionApi}
use anolis_provider_bread.SessionApi.Log.{Asked, asked}
use anolis_provider_bread.Contracts.{Contracts}
use anolis_provider_bread.Watchdog.{query_status, reject, new_watchdog_status}
use anolis_provider_bread.Keepalive.{
  Fed, Keepalive, earliest, feed, feed_all, tick, contact_all, contacted,
}
use anolis_provider_bread.Keepalive.Due.{feed_all-done, feed_all-live, tick_early}

-- Is the device to be fed.
abbrev pub due : ℕ → Fed → Bool
due now f = not f.done && leb f.next_due now

abbrev pub waits_for : String → Fed → Bool
waits_for device_id f = not (f.device.descriptor.device_id =ₛ device_id)

module _ (c : Contracts) {S : Type 0} (api : SessionApi S) where
  -- The GET_WATCHDOG query of a device.
  abbrev pub request : Fed → ℕ × ℕ
  request f = (f.device.address, c.bread.op_get_watchdog)

  -- The queries of the devices that pass the test, newest first.
  abbrev pub requests : (Fed → Bool) → List Fed → Asked
  requests p fs = reverse (map request (keep_if p fs))

  query_status-asks :
      (f : Fed) (s : S) (l : Asked)
      → (query_status c (asked api) f.device new_watchdog_status (s, l)).1.1 ≡ request f ∷ l
  unfolding query_status reject
  query_status-asks f s l = ground arith

  feed-asks :
      (now : ℕ) (f : Fed) (s : S) (l : Asked)
      → (feed c (asked api) now f (s, l)).1.1 ≡ (if leb f.next_due now then request f ∷ l else l)
  unfolding feed
  feed-asks now f s l = ground (arith, query_status-asks f s l)

  one_more :
      (now : ℕ) (f : Fed) (fs : List Fed) (l : Asked)
      → f.done ≡ false
      → requests (due now) fs ++ (if leb f.next_due now then request f ∷ l else l)
        ≡ requests (due now) (f ∷ fs) ++ l
  one_more now f fs l live = elim (Bool-cases (leb f.next_due now)) [
    | inl e ↦
        rw (live, e)
          (sym (
            ap (λ x. x ++ l) (reverse-cons (request f) (map request (keep_if (due now) fs)))
            ∙ append_assoc (requests (due now) fs) (request f ∷ []) l))
    | inr e ↦ rw (live, e)
  ]

  feed_all-asks :
      (now : ℕ) (next : Option ℕ) (fs : List Fed) (s : S) (l : Asked)
      → (feed_all c (asked api) now next fs (s, l)).1.1 ≡ requests (due now) fs ++ l
  feed_all-asks now next [] s l = unfold feed_all in refl
  feed_all-asks now next (f ∷ fs) s l = elim (Bool-cases f.done) [
    | inl over ↦
        rw (feed_all-done c (asked api) now next f fs (s, l) over)
          (feed_all-asks now next fs s l ∙ ground arith)
    | inr live ↦
        let (f', (s', l')) = feed c (asked api) now f (s, l) in
        rw (feed_all-live c (asked api) now next f fs (s, l) live) (
          feed_all-asks now (some (earliest next f'.next_due)) fs s' l'
          ∙ ap (λ x. requests (due now) fs ++ x) (feed-asks now f s l)
          ∙ one_more now f fs l live)
  ]

  keep_if-contact_all :
      (now : ℕ) (device_id : String) (fs : List Fed)
      → map request (keep_if (due now) (contact_all device_id fs))
        ≡ map request (keep_if (λ f. due now f && waits_for device_id f) fs)
  unfolding contact_all
  keep_if-contact_all now device_id [] = refl
  keep_if-contact_all now device_id (f ∷ fs) = ground (arith, keep_if-contact_all now device_id fs)

  -- A tick before the deadline queries the watchdog status of every device that has not been
  -- contacted and is due, once each and in order, and makes no other query. Once the runtime has
  -- called a device, it is no longer among them, and the others are as before.
  pub tick-asks :
      (now : ℕ) (device_id : String) (k : Keepalive) (s : S)
      → k.capped ≡ false
      → now < k.deadline
      → ((tick c (asked api) now k (s, [])).1.1 ≡ requests (due now) k.fed)
        × ((tick c (asked api) now (contacted device_id k) (s, [])).1.1
            ≡ requests (λ f. due now f && waits_for device_id f) k.fed)
  unfolding contacted
  tick-asks now device_id k s live early = (
    rw (tick_early c (asked api) now k (s, []) live early)
        (feed_all-asks now none k.fed s [] ∙ append-nil (requests (due now) k.fed)),
    rw (tick_early c (asked api) now (contacted device_id k) (s, []) live early) (
        feed_all-asks now none (contact_all device_id k.fed) s []
        ∙ append-nil (requests (due now) (contact_all device_id k.fed))
        ∙ ap reverse (keep_if-contact_all now device_id k.fed)),
  )
