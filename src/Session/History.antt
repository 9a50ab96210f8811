-- ===== src/Session/History.antt =====
-- Sequences of calls on a session, the events that their results show, and what a session promises
-- about them, read from the events alone, newest first. The calls stand for any interleaving of
-- the callers' threads: the mutex orders them.
use anolis_provider_bread.Base.{
  ℕ, ◌+◌, ◌-◌, Bool, false, not, ◌&&◌, ◌||◌, List, [], ◌∷◌, ltb, ◌==◌, if◌then◌else◌,
}
use anolis_provider_bread.Frames.{SessionStatus, is_ok, RawFrame}
use anolis_provider_bread.Transport.{Transport}
use anolis_provider_bread.Session.State.{Session}
use anolis_provider_bread.Session.{send, read, query_read, record_rejection, take_recovery}

pub data Call : Type 0 where
  sends reads : ℕ → RawFrame → Call
  queries : ℕ → ℕ → RawFrame → Call
  rejects takes : ℕ → Call

-- `completed a status`: an operation on address `a` returned `status`.
pub data Event : Type 0 where
  completed : ℕ → SessionStatus → Event
  rejected taken : ℕ → Event

module _ {W : Type 0} (t : Transport W) where
  unfoldable pub step : Call → Session W → Event × Session W
  step (sends a frame) s = let (status, s') = send t a frame s in (completed a status, s')
  step (reads a frame) s = let ((status, _), s') = read t a frame s in (completed a status, s')
  step (queries a opcode frame) s =
      let ((status, _), s') = query_read t a opcode frame s in (completed a status, s')
  step (rejects a) s = (rejected a, record_rejection t a s)
  step (takes a) s = (taken a, (take_recovery a s).1)

  unfoldable pub run : List Call → List Event → Session W → List Event × Session W
  run [] h s = (h, s)
  run (c ∷ cs) h s = let (e, s') = step c s in run cs (e ∷ h) s'

-- An operation on `a` that reached the bus.
abbrev pub reached : ℕ → ℕ → SessionStatus → Bool
reached a b status = b == a && ltb 0 status.attempts

-- Did the last operation on `a` that reached the bus fail.
unfoldable pub failing : ℕ → List Event → Bool
failing a [] = false
failing a (completed b status ∷ h) = if reached a b status then not (is_ok status) else failing a h
failing a (rejected b ∷ h) = failing a h
failing a (taken b ∷ h) = failing a h

-- Has a failure been followed directly by a success since the flag was last taken.
unfoldable pub recovered : ℕ → List Event → Bool
recovered a [] = false
recovered a (completed b status ∷ h) =
    (reached a b status && is_ok status && failing a h) || recovered a h
recovered a (rejected b ∷ h) = recovered a h
recovered a (taken b ∷ h) = if b == a then false else recovered a h

-- The sum over the operations on `a` that reached the bus.
unfoldable pub total : (SessionStatus → ℕ) → ℕ → List Event → ℕ
total f a [] = 0
total f a (completed b status ∷ h) =
    if reached a b status then total f a h + f status else total f a h
total f a (rejected b ∷ h) = total f a h
total f a (taken b ∷ h) = total f a h

abbrev pub succeeded : SessionStatus → ℕ
succeeded status = if is_ok status then 1 else 0

abbrev pub did_fail : SessionStatus → ℕ
did_fail status = if is_ok status then 0 else 1

-- The attempts beyond the first.
abbrev pub extra : SessionStatus → ℕ
extra status = status.attempts - 1

unfoldable pub rejections : ℕ → List Event → ℕ
rejections a [] = 0
rejections a (completed b status ∷ h) = rejections a h
rejections a (rejected b ∷ h) = if b == a then rejections a h + 1 else rejections a h
rejections a (taken b ∷ h) = rejections a h
