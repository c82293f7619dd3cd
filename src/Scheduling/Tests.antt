-- ===== src/Scheduling/Tests.antt =====
-- The theorems on tokens and slots, applied to small inputs.
use signmons_calldesk_backen.Base.{
  ◌+◌, ◌≤◌, none, some, if◌then◌else◌, ok, err, List, [], ◌∷◌, All, length, ◌≡◌, refl, arith, map,
}
use signmons_calldesk_backen.Base.Text.{codes, text_eq}
use signmons_calldesk_backen.Base.Json.{Json, null}
use signmons_calldesk_backen.Data.Store.{list_client, store_effects}
use signmons_calldesk_backen.Scheduling.{
  JobRecord, map_job, residential, diagnostic, is_instant_booking_eligible,
}
use signmons_calldesk_backen.Scheduling.Tokens.{
  slot_json, sign_slot, management_json, sign_management_token, management_ttl_ms, slot_ttl_ms,
  verify_management_token, invalid_appointment_link, is_expected,
}
use signmons_calldesk_backen.Scheduling.Tokens.Separation.{
  Reads, verify_management-sign_management, verify_management-sign_slot,
}
use signmons_calldesk_backen.Scheduling.Calendar.{fetch_busy, world_effects, overlaps_busy}
use signmons_calldesk_backen.Scheduling.Slots.{
  Candidate, build_candidates, slot_of, available_slots, free_candidates, AppointmentSlot,
}
use signmons_calldesk_backen.Scheduling.Slots.Offers.{
  read_choice-slot_of, available_slots-IsOffer, IsOffer, InRange, range_start, range_end, reported,
}
use signmons_calldesk_backen.Scheduling.Reschedule.{read_choice}
use signmons_calldesk_backen.Scheduling.Samples.{
  cancelled_job, codec_of, google, joins, settings, world_of,
}

codec_of-Reads : (payload : Json) → Reads (codec_of payload) payload
codec_of-Reads payload = record {
  encoded =
      (refl, (refl, (refl, (refl, (refl, (refl, (refl, (refl, (refl, (refl, (refl, tt)))))))))));
  signed = (refl, (refl, (refl, (refl, (refl, tt)))));
  decoded = refl;
}

abbrev one_slot : Candidate
one_slot = record { start = 28_800_000; end = 39_600_000; label = codes "Thu, Jan 1, 8–11 AM" }

abbrev slot_payload : Json
slot_payload =
    slot_json (codes "t1") (codes "job-1") (28_800_000 ∷ []) (39_600_000 ∷ []) (1000 + slot_ttl_ms)

verify_management-sign_management_example :
    verify_management_token
      (codec_of (management_json (codes "t1") (codes "job-1") (1000 + management_ttl_ms)))
      5000
      (some (codes "t2"))
      (sign_management_token
        (codec_of (management_json (codes "t1") (codes "job-1") (1000 + management_ttl_ms)))
        1000
        (codes "t1")
        (codes "job-1"))
    ≡ (if is_expected (some (codes "t2")) (codes "t1")
        then ok (record { tenant_id = codes "t1"; job_id = codes "job-1" })
        else err invalid_appointment_link)
verify_management-sign_management_example =
    verify_management-sign_management
      (codec_of (management_json (codes "t1") (codes "job-1") (1000 + management_ttl_ms))) 1000 5000
      (some (codes "t2")) (codes "t1") (codes "job-1")
      (codec_of-Reads (management_json (codes "t1") (codes "job-1") (1000 + management_ttl_ms)))
      (omega arith)

verify_management-sign_slot_example :
    verify_management_token
      (codec_of slot_payload)
      5000
      none
      (sign_slot (codec_of slot_payload) slot_payload)
    ≡ err invalid_appointment_link
verify_management-sign_slot_example =
    verify_management-sign_slot (codec_of slot_payload) 5000 (1000 + slot_ttl_ms) none (codes "t1")
      (codes "job-1") (28_800_000 ∷ []) (39_600_000 ∷ []) (codec_of-Reads slot_payload)

read_choice-slot_of_example :
    read_choice settings
      (codec_of slot_payload)
      5000
      cancelled_job
      (slot_of
        (codec_of slot_payload)
        settings
        1000
        (map_job (joins cancelled_job) cancelled_job)
        one_slot).token
    ≡ ok (record { start = 28_800_000; end = 39_600_000 })
unfolding map_job
read_choice-slot_of_example =
    read_choice-slot_of (codec_of slot_payload) settings 1000 5000
      (map_job (joins cancelled_job) cancelled_job) cancelled_job one_slot refl refl (omega arith)
      (omega arith) (codec_of-Reads slot_payload) refl refl

abbrev visit : JobRecord
visit = record (map_job (joins cancelled_job) cancelled_job) {
  property_type = residential;
  service_intent = diagnostic;
}

abbrev offered : List AppointmentSlot
offered = map (slot_of (codec_of null) settings 1000 visit) (build_candidates settings 1000)

in_range :
    All
      (InRange
        (range_start (build_candidates settings 1000))
        (range_end (build_candidates settings 1000)))
      (build_candidates settings 1000)
unfolding build_candidates
in_range =
    ((omega arith, omega arith), ((omega arith, omega arith), ((omega arith, omega arith), tt)))

not_busy :
    reported list_client google
      (codec_of null)
      settings
      (build_candidates settings 1000)
      (world_of cancelled_job none)
    ≡ ok []
unfolding fetch_busy
not_busy = refl

three_offered :
    (available_slots list_client google
      (codec_of null)
      settings
      1000
      visit
      (world_of cancelled_job none)).0
    ≡ ok offered
unfolding available_slots build_candidates free_candidates is_instant_booking_eligible map_job
    text_eq slot_of store_effects world_effects overlaps_busy
three_offered = refl

available_slots-IsOffer_example :
    (length offered ≤ 8) × All (IsOffer settings 1000 (codes "t1") [] (cancelled_job ∷ [])) offered
unfolding map_job
available_slots-IsOffer_example =
    available_slots-IsOffer list_client google (codec_of null) settings 1000 visit
      (world_of cancelled_job none) in_range not_busy three_offered
