-- ===== src/Runtime/Calls.antt =====
-- The ways in which a call through the runtime goes.
use anolis_provider_bread.Base.{
  ℕ, String, true, false, ◌⊎◌, inl, inr, ◌≡◌, refl, sym, ap, ◌∙◌, Option, none, some, Bool-cases,
  Option-cases, arith,
}
use anolis_provider_bread.AdapterHelpers.{call_failed}
use anolis_provider_bread.Frames.{empty_frame}
use anolis_provider_bread.SessionApi.{SessionApi}
use anolis_provider_bread.Contracts.{Contracts, Doubles}
use anolis_provider_bread.Devices.{InventoryDevice, StatusCode, AdapterCallResult, ValueMap}
use anolis_provider_bread.Inventory.{find_device, function_exists}
use anolis_provider_bread.DeviceAdapter
use anolis_provider_bread.DeviceAdapter.{DeviceAdapter, adapter_for, no_session}
use anolis_provider_bread.DeviceAdapter.Calls.{call-validates}
use anolis_provider_bread.Runtime.{Runtime, note_contact, handle_recovery, call_device, call}
use anolis_provider_bread.Runtime.Service.{Recovers, handle_recovery-Recovers}

module _ {D S : Type 0} (c : Contracts) (fl : Doubles D) (api : SessionApi S) (function_id : ℕ)
    (args : ValueMap D) where
  abbrev adapter_of : InventoryDevice → DeviceAdapter S D
  adapter_of device = adapter_for c fl api device.type

  -- The call of the device's adapter on the session of the runtime.
  abbrev adapter_call : InventoryDevice → Option S → AdapterCallResult × Option S
  adapter_call device session =
      DeviceAdapter.call (adapter_of device) device function_id args session

  unknown_function :
      (device : InventoryDevice) (r : Runtime S)
      → function_exists device function_id "" ≡ false
      → let (result, r') = call_device c fl api device function_id args r in
        (result.ok ≡ false) × (result.error_code ≡ StatusCode.code_not_found) × (r' ≡ r)
  unfolding call_device
  unknown_function device r e = rw e (refl, refl, refl)

  call_failed_lem :
      (device : InventoryDevice) (r : Runtime S)
      → function_exists device function_id "" ≡ true
      → (adapter_call device r.session).0.ok ≡ false
      → let (result, session) = adapter_call device r.session in
        call_device c fl api device function_id args r ≡ (result, record r { session = session })
  unfolding call_device
  call_failed_lem device r e bad = ground arith

  call_succeeded_lem :
      (device : InventoryDevice) (r : Runtime S)
      → function_exists device function_id "" ≡ true
      → (adapter_call device r.session).0.ok ≡ true
      → let (result, session) = adapter_call device r.session in
        call_device c fl api device function_id args r
        ≡ (result, handle_recovery c fl api device r.state.config (record r { session = session }))
  unfolding call_device
  call_succeeded_lem device r e good = ground arith

  -- The call names no device, or no function that the device offers: nothing happens but that the
  -- keep-alive counts the contact with a known device.
  abbrev pub NotFound : String → Runtime S → AdapterCallResult × Runtime S → Type 0
  NotFound device_id r (result, r') =
      (result.ok ≡ false)
      × (result.error_code ≡ StatusCode.code_not_found)
      × (((find_device r.state.devices device_id ≡ none) × (r' ≡ r))
          ⊎ ((device : InventoryDevice) × (find_device r.state.devices device_id ≡ some device)
              × (function_exists device function_id "" ≡ false)
              × (r' ≡ note_contact device_id r)))

  abbrev pub Failed : String → Runtime S → AdapterCallResult × Runtime S → Type 0
  Failed device_id r (result, r') =
      (device : InventoryDevice) × (find_device r.state.devices device_id ≡ some device)
      × (function_exists device function_id "" ≡ true)
      × (result ≡ (adapter_call device r.session).0)
      × (result.ok ≡ false)
      × (r'.state ≡ r.state)
      × (r'.session ≡ (adapter_call device r.session).1)

  abbrev pub Succeeded : String → Runtime S → AdapterCallResult × Runtime S → Type 0
  Succeeded device_id r (result, r') =
      (device : InventoryDevice) × (s s' : S) × (find_device r.state.devices device_id
        ≡ some device)
      × (function_exists device function_id "" ≡ true)
      × (r.session ≡ some s)
      × (result.ok ≡ true)
      × (adapter_call device (some s) ≡ (result, some s'))
      × Recovers c fl api device r.state.config s' r'

  call_unknown :
      (device_id : String) (r : Runtime S)
      → find_device r.state.devices device_id ≡ none
      → call c fl api device_id function_id args r
        ≡ (call_failed StatusCode.code_not_found "unknown device_id", r)
  unfolding call
  call_unknown device_id r e = ground arith

  call_known :
      (device_id : String) (r : Runtime S) (device : InventoryDevice)
      → find_device r.state.devices device_id ≡ some device
      → call c fl api device_id function_id args r
        ≡ call_device c fl api device function_id args (note_contact device_id r)
  unfolding call
  call_known device_id r device e = ground arith

  -- A call that succeeds had a session, and transmitted on it.
  present :
      (device : InventoryDevice) (session : Option S)
      → (adapter_call device session).0.ok ≡ true
      → (s s' : S) × (session ≡ some s)
        × (adapter_call device (some s) ≡ ((adapter_call device session).0, some s'))
  unfolding DeviceAdapter.call
  present device none good = ground arith
  present device (some s) good =
      elim (call-validates (adapter_of device) device function_id args s) [
        | inl (bad, _, e) ↦ cc (ap (λ r. r.0.ok) e)
        | inr (_, _, e) ↦
            let s' =
              ((adapter_of device).transmit device
                ((adapter_of device).build_frame function_id args empty_frame).1 s).1 in
            (s, s', refl, e ∙ ap (λ a. (a, some s')) (sym (ap (λ r. r.0) e)))
      ]

  device_call :
      (device_id : String) (r : Runtime S) (device : InventoryDevice)
      → find_device r.state.devices device_id ≡ some device
      → let reached = note_contact device_id r in
        let out = call_device c fl api device function_id args reached in
        NotFound device_id r out ⊎ (Failed device_id r out ⊎ Succeeded device_id r out)
  device_call device_id r device found =
      let reached = note_contact device_id r in
      let (result, session) = adapter_call device r.session in
      elim (Bool-cases (function_exists device function_id "")) [
        | inr missing ↦
            let (bad, code, same) = unknown_function device reached missing in
            inl (bad, code, inr (device, found, missing, same))
        | inl offered ↦ elim (Bool-cases result.ok) [
          | inr bad ↦ inr (
              inl (
                rw (call_failed_lem device reached offered bad)
                  (device, found, offered, refl, bad, refl, refl)))
          | inl good ↦
              let (s, s', was, made) = present device r.session good in
              inr (
                inr (
                  rw (call_succeeded_lem device reached offered good) (
                    device,
                    s,
                    s',
                    found,
                    offered,
                    was,
                    good,
                    made,
                    handle_recovery-Recovers c fl api device r.state.config s'
                        (record reached { session = session })
                        (ap (λ o. (adapter_call device o).1) was ∙ ap (λ q. q.1) made),
                  )))
        ]
      ]

  -- A call through the runtime goes in one of three ways. It is NOT_FOUND only where the device is
  -- unknown, and then nothing changes, or does not offer the function, and then only the keep-alive
  -- notes the contact. For a function that the device offers it may fail with the result of the
  -- device's adapter, and the snapshot stays as it was. Or it succeeds on a session that is present, for a function that the
  -- device offers, and then a pending recovery of the device is taken: if there is one, the outputs
  -- are handled as the configuration says and the watchdog is armed.
  pub call-cases :
      (device_id : String) (r : Runtime S)
      → let out = call c fl api device_id function_id args r in
        NotFound device_id r out ⊎ (Failed device_id r out ⊎ Succeeded device_id r out)
  call-cases device_id r = elim (Option-cases (find_device r.state.devices device_id)) [
    | inl unknown ↦ inl (rw (call_unknown device_id r unknown) (refl, refl, inl (unknown, refl)))
    | inr (device, found) ↦
        rw (call_known device_id r device found) (device_call device_id r device found)
  ]
