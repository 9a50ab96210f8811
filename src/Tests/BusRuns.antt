-- ===== src/Tests/BusRuns.antt =====
-- Runs of the transport and of the canned bus.
use anolis_provider_bread.Base.{
  ℕ, pos, negsuc, true, false, not, ◌&&◌, ◌⊎◌, inl, ◌≡◌, refl, [], ◌∷◌, some, replicate, arith,
}
use anolis_provider_bread.Frames.{success, is_ok, empty_frame}
use anolis_provider_bread.AdapterHelpers.{read_i16_le}
use anolis_provider_bread.Session.State.{Session, new_session}
use anolis_provider_bread.Session.{send, query_read, last_op_failed}
use anolis_provider_bread.CrumbsTransport
use anolis_provider_bread.CrumbsTransport.{CrumbsTransport, crumbs_transport, populate_message}
use anolis_provider_bread.CrumbsTransport.Messages.{IsFrame}
use anolis_provider_bread.CrumbsTransport.Replies.{wire_of, frame_round_trip}
use anolis_provider_bread.CrumbsTransport.Failures.{says_timeout, read-fails}
use anolis_provider_bread.CrumbsTransport.Link.{
  sends, link, link_after, after, bus_opens, after-link,
}
use anolis_provider_bread.Wire.{I2cBus, is_timeout, Message}
use anolis_provider_bread.CannedBus.Device.{build_watchdog_payload}
use anolis_provider_bread.CannedBus.{CannedBus, receive, is_positive}
use anolis_provider_bread.CannedBus.Commands.{
  is_staging, Lost, Rejected, Applied, receive-cases, receive_all, receive_all-trip,
}
use anolis_provider_bread.CannedBus.EndToEnd.{IsContract, open_loop_frame, open_loop-seen}
use anolis_provider_bread.CannedBus.Port.{canned_i2c, canned_reply}
use anolis_provider_bread.CannedBus.Answers.{staged}
use anolis_provider_bread.CannedBus.Sessions.{query_read-canned}
use anolis_provider_bread.Tests.{sample_contracts, sample_options, command_frame}
use anolis_provider_bread.Tests.SampleBus.{
  sample_statuses, sample_status_laws, sample_codec, sample_laws, sample_constants, canned_dcmt,
  tripped_dcmt, open_link, open_link-IsReady, no_scan,
}

abbrev sample_i2c : I2cBus CannedBus
sample_i2c = canned_i2c sample_contracts sample_constants sample_codec sample_statuses

abbrev live : Session (CrumbsTransport CannedBus ℕ)
live = new_session open_link sample_options

-- GET_WATCHDOG of a DCMT that is not armed.
query_read-canned_example :
    let t = crumbs_transport sample_i2c sample_codec no_scan (λ bus. (7, bus)) (pos 110) in
    let ((status, frame), s') = query_read t 32 113 empty_frame live in
    (status ≡ record success { attempts = 1 })
    × (frame ≡ record { type_id = 2; opcode = 113; payload = build_watchdog_payload 0 false 0 })
    × (s'.world.bus.devices 32 ≡ some (staged 113 canned_dcmt))
    × (last_op_failed 32 s' ≡ false)
unfolding canned_reply new_session
query_read-canned_example =
    query_read-canned sample_contracts sample_constants sample_codec sample_laws sample_statuses
      sample_status_laws no_scan (λ bus. (7, bus)) (pos 110) 32 113 empty_frame live canned_dcmt
      (staged 113 canned_dcmt) (build_watchdog_payload 0 false 0) (λ bus. refl)
      (omega arith, omega arith) (omega arith) open_link-IsReady refl

-- A bus that answers every read with the frame 2, 1, 1 byte 7, and padding.
abbrev echo_i2c : I2cBus ℕ
echo_i2c = record {
  open_bus = λ b. (sample_statuses.done, b);
  close = λ b. b;
  write = λ address bytes b. (sample_statuses.done, b);
  read = λ address buffer timeout b.
      ((sample_statuses.done, (2 ∷ 1 ∷ 1 ∷ 7 ∷ replicate 27 255, 31)), b);
  delay_us = λ us b. b;
}

abbrev echo_link : CrumbsTransport ℕ ℕ
echo_link = record { bus = 0; has_bus = true; ctx = 0; scan_timeout_us = 2000; is_open = true }

one_byte-IsFrame : IsFrame (command_frame (7 ∷ []))
one_byte-IsFrame = record {
  type_fits = omega arith;
  opcode_fits = omega arith;
  bytes_fit = omega arith;
  fits = omega arith;
}

frame_round_trip_example :
    (let (written, b) =
        echo_i2c.write 32 (wire_of echo_i2c sample_codec sample_laws (command_frame (7 ∷ []))) 0 in
      let (status, t') =
        CrumbsTransport.send echo_i2c sample_codec 32 (command_frame (7 ∷ [])) echo_link in
      (t' ≡ record echo_link { bus = b }) × (is_ok status ≡ written.ok))
    × (let ((status, frame'), t') =
          CrumbsTransport.read echo_i2c sample_codec 32 empty_frame 100000 echo_link in
        (status ≡ success) × (frame' ≡ command_frame (7 ∷ [])))
unfolding populate_message
frame_round_trip_example =
    frame_round_trip echo_i2c sample_codec sample_laws 32 100000 echo_link (command_frame (7 ∷ []))
      empty_frame (replicate 27 255) 31 refl one_byte-IsFrame (refl, refl, refl, omega arith)

after-link_example :
    link (after sample_i2c sample_codec no_scan (sends 32 (command_frame (7 ∷ []))) open_link)
    ≡ link_after
        (sends 32 (command_frame (7 ∷ [])))
        (bus_opens sample_i2c sample_codec no_scan open_link)
        (link open_link)
after-link_example =
    after-link sample_i2c sample_codec no_scan (sends 32 (command_frame (7 ∷ []))) open_link

read-fails_example :
    let ((bus_status, _), b) = echo_i2c.read 32 (replicate 31 0) 100000 0 in
    let ((status, frame), t') =
      CrumbsTransport.read echo_i2c sample_codec 32 empty_frame 100000 echo_link in
    (t'.bus ≡ b)
    × ((is_ok status ≡ true) ⊎ (frame ≡ empty_frame))
    × (says_timeout status.code ≡ (not bus_status.ok && is_timeout bus_status.code))
read-fails_example = read-fails echo_i2c sample_codec 32 empty_frame 100000 echo_link refl

-- SET_OPEN_LOOP of -50 and 75.
abbrev drive_message : Message
drive_message = record {
  type_id = 2;
  opcode = 1;
  data_len = 4;
  bytes = 206 ∷ 255 ∷ 75 ∷ 0 ∷ replicate 23 0;
}

receive-cases_example :
    ((is_staging drive_message ≡ true)
      × (receive sample_constants sample_contracts drive_message canned_dcmt
          ≡ staged 206 canned_dcmt))
    ⊎ ((is_staging drive_message ≡ false)
        × (Lost sample_constants sample_contracts drive_message canned_dcmt
              (receive sample_constants sample_contracts drive_message canned_dcmt)
            ⊎ (Rejected sample_constants sample_contracts drive_message canned_dcmt
                  (receive sample_constants sample_contracts drive_message canned_dcmt)
                ⊎ Applied sample_constants sample_contracts drive_message canned_dcmt
                    (receive sample_constants sample_contracts drive_message canned_dcmt))))
receive-cases_example = receive-cases sample_constants sample_contracts drive_message canned_dcmt

-- SET_WATCHDOG of 2000 ms.
abbrev arm_message : Message
arm_message = record { type_id = 2; opcode = 112; data_len = 2; bytes = 208 ∷ 7 ∷ replicate 25 0 }

receive_all-trip_example :
    (receive_all sample_constants sample_contracts
      (drive_message ∷ arm_message ∷ [])
      tripped_dcmt).watchdog_tripped
    ≡ true
receive_all-trip_example =
    receive_all-trip sample_constants sample_contracts (drive_message ∷ arm_message ∷ [])
      tripped_dcmt (inl (omega arith), (inl (omega arith), tt)) refl

sample-IsContract : IsContract sample_contracts
sample-IsContract = record {
  type_fits = omega arith;
  open_loop_fits = omega arith;
  get_state_fits = omega arith;
  families = omega arith;
  no_staging = omega arith;
}

open_loop-seen_example :
    let t = crumbs_transport sample_i2c sample_codec no_scan (λ bus. (7, bus)) (pos 110) in
    let (status, s1) = send t 32 (open_loop_frame sample_contracts (negsuc 49) (pos 75)) live in
    let ((read_status, reply), s2) = query_read t 32 128 empty_frame s1 in
    (is_ok status ≡ true)
    × (is_ok read_status ≡ true)
    × (read_i16_le reply.payload 1 ≡ some (negsuc 49))
    × (read_i16_le reply.payload 3 ≡ some (pos 75))
unfolding is_positive new_session
open_loop-seen_example =
    open_loop-seen sample_contracts sample_constants sample_codec sample_laws sample_statuses
      sample_status_laws no_scan (λ bus. (7, bus)) (pos 110) (λ bus. refl) (omega arith) 32
      (negsuc 49) (pos 75) canned_dcmt empty_frame live sample-IsContract (omega arith, omega arith)
      (omega arith, omega arith) (omega arith, omega arith) refl (refl, refl) open_link-IsReady
