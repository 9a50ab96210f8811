-- ===== src/DeviceAdapter/Calls.antt =====
-- A function call validates before it touches the session.
use anolis_provider_bread.Base.{
  ℕ, true, false, ◌⊎◌, inl, inr, ◌≡◌, refl, Option, none, some, Bool-cases, arith,
}
use anolis_provider_bread.Frames.{RawFrame, empty_frame}
use anolis_provider_bread.Devices.{InventoryDevice, AdapterCallResult, StatusCode, ValueMap}
use anolis_provider_bread.DeviceAdapter.{DeviceAdapter, call, no_session}

module _ {S D : Type 0} (adapter : DeviceAdapter S D) (device : InventoryDevice) (function_id : ℕ)
    (args : ValueMap D) where
  abbrev built : AdapterCallResult × RawFrame
  built = adapter.build_frame function_id args empty_frame

  call_invalid :
      (session : Option S)
      → built.0.ok ≡ false
      → call adapter device function_id args session ≡ (built.0, session)
  unfolding call
  call_invalid session e = ground arith

  call_absent : built.0.ok ≡ true → call adapter device function_id args none ≡ (no_session, none)
  unfolding call
  call_absent e = ground arith

  call_present :
      (s : S)
      → built.0.ok ≡ true
      → call adapter device function_id args (some s)
        ≡ (let (result, s') = adapter.transmit device built.1 s in (result, some s'))
  unfolding call
  call_present s e = ground arith

  -- A call with arguments that the frame builder rejects gives the builder's result and leaves the
  -- session as it was, present or absent, so both give the same result. With arguments that it
  -- accepts, a call without a session is unavailable, and one with a session is the transmission
  -- of the frame that was built.
  pub call-validates :
      (s : S)
      → ((built.0.ok ≡ false)
          × (call adapter device function_id args none ≡ (built.0, none))
          × (call adapter device function_id args (some s) ≡ (built.0, some s)))
        ⊎ ((built.0.ok ≡ true)
            × ((call adapter device function_id args none).0.error_code
                ≡ StatusCode.code_unavailable)
            × (call adapter device function_id args (some s)
                ≡ (let (result, s') = adapter.transmit device built.1 s in (result, some s'))))
  call-validates s = elim (Bool-cases built.0.ok) [
    | inr e ↦ inl (e, call_invalid none e, call_invalid (some s) e)
    | inl e ↦ inr (e, rw (call_absent e) refl, call_present s e)
  ]
