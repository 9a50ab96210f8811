-- ===== src/Keepalive/Due.antt =====
-- When tick wants to be called again, and what it promises for each device.
use anolis_provider_bread.Base.{
  ℕ, ◌+◌, ◌≤◌, ◌<◌, min, true, false, ◌⊎◌, inl, inr, ◌≡◌, refl, List, [], ◌∷◌, All, Option, none,
  some, Bool-cases, arith,
}
use anolis_provider_bread.SessionApi.{SessionApi}
use anolis_provider_bread.Contracts.{Contracts}
use anolis_provider_bread.Keepalive.{Fed, Keepalive, earliest, feed, feed_all, at_most, tick}

-- A device is fed no later than one interval from now, and intervals are positive.
abbrev pub OnTime : ℕ → Fed → Type 0
OnTime now f = (0 < f.interval) × ((f.done ≡ true) ⊎ (f.next_due ≤ now + f.interval))

abbrev pub IsScheduled : ℕ → Keepalive → Type 0
IsScheduled now k = All (OnTime now) k.fed

-- The time to come is after now.
abbrev Ahead : ℕ → Option ℕ → Type 0
Ahead now none = Unit
Ahead now (some n) = now < n

-- The later choice is there and no later, once there is one.
abbrev Upto : Option ℕ → Option ℕ → Type 0
Upto none last = Unit
Upto (some n) last = (m : ℕ) × (last ≡ some m) × (m ≤ n)

-- The device is done, or due after now, within its interval, and not before the time chosen.
abbrev Served : ℕ → Option ℕ → Fed → Type 0
Served now last f =
    (f.done ≡ true)
    ⊎ ((m : ℕ) × (last ≡ some m)
        × (m ≤ f.next_due)
        × (now < f.next_due)
        × (f.next_due ≤ now + f.interval))

module _ (c : Contracts) {S : Type 0} (api : SessionApi S) where
  pub feed_due :
      (now : ℕ) (f : Fed) (s : S)
      → f.done ≡ false
      → OnTime now f
      → let f' = (feed c api now f s).0 in
        (f'.done ≡ false)
        × (f'.interval ≡ f.interval)
        × (now < f'.next_due)
        × (f'.next_due ≤ now + f'.interval)
  unfolding feed
  feed_due now f s live h = ground arith

  Upto-Served :
      (now : ℕ) (f : Fed) (next last : Option ℕ)
      → now < f.next_due
      → f.next_due ≤ now + f.interval
      → Upto (some (earliest next f.next_due)) last
      → Served now last f × Upto next last
  Upto-Served now f none last lo hi (m, e, le) = (inr (m, e, le, lo, hi), tt)
  Upto-Served now f (some n) last lo hi (m, e, le) =
      (inr (m, e, omega arith, lo, hi), (m, e, omega arith))

  Ahead-earliest :
      (now due : ℕ) (next : Option ℕ) → Ahead now next → now < due → now < earliest next due
  Ahead-earliest now due none a h = h
  Ahead-earliest now due (some n) a h = omega arith

  pub feed_all-done :
      (now : ℕ) (next : Option ℕ) (f : Fed) (fs : List Fed) (s : S)
      → f.done ≡ true
      → feed_all c api now next (f ∷ fs) s
        ≡ (let ((last, fs'), s') = feed_all c api now next fs s in ((last, f ∷ fs'), s'))
  unfolding feed_all
  feed_all-done now next f fs s over = ground arith

  pub feed_all-live :
      (now : ℕ) (next : Option ℕ) (f : Fed) (fs : List Fed) (s : S)
      → f.done ≡ false
      → feed_all c api now next (f ∷ fs) s ≡ (
          let (f', s') = feed c api now f s in
          let ((last, fs'), s'') = feed_all c api now (some (earliest next f'.next_due)) fs s' in
          ((last, f' ∷ fs'), s''))
  unfolding feed_all
  feed_all-live now next f fs s live = ground arith

  feed_all-Served :
      (now : ℕ) (next : Option ℕ) (fs : List Fed) (s : S)
      → Ahead now next
      → All (OnTime now) fs
      → let ((last, fs'), _) = feed_all c api now next fs s in
        Ahead now last × Upto next last × All (Served now last) fs'
  feed_all-Served now none [] s a h = unfold feed_all in (tt, tt, tt)
  feed_all-Served now (some n) [] s a h = unfold feed_all in (a, (n, refl, omega arith), tt)
  feed_all-Served now next (f ∷ fs) s a (h, hs) = elim (Bool-cases f.done) [
    | inl over ↦
        let (ahead, upto, rest) = feed_all-Served now next fs s a hs in
        rw (feed_all-done now next f fs s over) (ahead, upto, (inl over, rest))
    | inr live ↦
        let (f', s') = feed c api now f s in
        let (_, _, lo, hi) = feed_due now f s live h in
        let (ahead, upto, rest) =
          feed_all-Served now (some (earliest next f'.next_due)) fs s'
            (Ahead-earliest now f'.next_due next a lo) hs in
        let (served, upto') = Upto-Served now f' next _ lo hi upto in
        rw (feed_all-live now next f fs s live) (ahead, upto', (served, rest))
  ]

  none_left : (now : ℕ) (fs : List Fed) → All (Served now none) fs → All (λ f. f.done ≡ true) fs
  none_left now [] h = tt
  none_left now (f ∷ fs) (inl over, hs) = (over, none_left now fs hs)
  none_left now (f ∷ fs) (inr (m, e, _, _, _), hs) = cc

  at_deadline :
      (now m deadline : ℕ) (fs : List Fed)
      → All (Served now (some m)) fs
      → All
          (λ f.
            (f.done ≡ true)
            ⊎ ((min m deadline ≤ f.next_due)
                × (now < f.next_due)
                × (f.next_due ≤ now + f.interval)))
          fs
  at_deadline now m deadline [] h = tt
  at_deadline now m deadline (f ∷ fs) (inl over, hs) = (inl over, at_deadline now m deadline fs hs)
  at_deadline now m deadline (f ∷ fs) (inr (k, e, le, lo, hi), hs) =
      let same : m ≡ k = cc in (inr (omega arith, lo, hi), at_deadline now m deadline fs hs)

  abbrev pub Chosen : ℕ → ℕ → Option ℕ → List Fed → Type 0
  Chosen now deadline next fs =
      ((next ≡ none) × All (λ f. f.done ≡ true) fs)
      ⊎ ((n : ℕ) × (next ≡ some n)
          × (now < n)
          × (n ≤ deadline)
          × All
              (λ f.
                (f.done ≡ true)
                ⊎ ((n ≤ f.next_due) × (now < f.next_due) × (f.next_due ≤ now + f.interval)))
              fs)

  chosen :
      (now deadline : ℕ) (last : Option ℕ) (fs : List Fed)
      → now < deadline
      → Ahead now last
      → All (Served now last) fs
      → Chosen now deadline (at_most deadline last) fs
  chosen now deadline none fs early a h = inl (refl, none_left now fs h)
  chosen now deadline (some m) fs early a h =
      inr (min m deadline, refl, omega arith, omega arith, at_deadline now m deadline fs h)

  pub tick_early :
      (now : ℕ) (k : Keepalive) (s : S)
      → k.capped ≡ false
      → now < k.deadline
      → tick c api now k s ≡ (
          let ((next, fs'), s') = feed_all c api now none k.fed s in
          ((at_most k.deadline next, record k { fed = fs' }), s'))
  unfolding tick
  tick_early now k s live early = ground arith

  -- A tick before the deadline either finds every device contacted and wants no further call, or
  -- gives a time after now and not after the deadline. Then every device not yet contacted is due
  -- after now, within one interval, and not before the time given.
  pub tick-Due :
      (now : ℕ) (k : Keepalive) (s : S)
      → k.capped ≡ false
      → now < k.deadline
      → IsScheduled now k
      → let ((next, k'), _) = tick c api now k s in Chosen now k.deadline next k'.fed
  tick-Due now k s live early h =
      let (ahead, _, served) = feed_all-Served now none k.fed s tt h in
      rw (tick_early now k s live early) (chosen now k.deadline _ _ early ahead served)

  -- From the deadline on, a tick asks for no further call and touches neither the bus nor the
  -- devices, and so does every later tick.
  pub tick_capped :
      (now later : ℕ) (k : Keepalive) (s : S)
      → k.deadline ≤ now
      → let ((next, k'), s') = tick c api now k s in
        (next ≡ none) × (s' ≡ s) × (k'.fed ≡ k.fed) × (tick c api later k' s ≡ ((none, k'), s))
  unfolding tick
  tick_capped now later k s over = ground arith
