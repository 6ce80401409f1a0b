-- ===== src/Submit/Tests.antt =====
-- Runs of the classification of submit.rs.
use polyrust.Prelude.{◌<◌, ◌≤◌, ◌≡◌, ◌≢◌, ◌⊎◌, refl, false, some, none, Option, [], and_then}
use polyrust.Prelude.Text.{codes, text_eq}
use polyrust.Prelude.Json.{Value, Fields, get_field}
use polyrust.Submit.{
  SubmitOutcome, http_status_of, classify, shallow, extract_order_id, extract_error_field,
  success_of, error_of, is_transport_error,
}
use polyrust.Submit.Classes.{NamesCause, accepted_sound, rejected_sound}

abbrev filled : Option Value
filled =
    some
      (Value.object (Fields.field (codes "orderID") (Value.string (codes "0x1")) Fields.no_fields))

filled_accepted : classify 200 filled ≡ SubmitOutcome.accepted (codes "0x1") 200
unfolding classify extract_order_id extract_error_field shallow get_field text_eq
filled_accepted = refl

accepted_sound_example :
    (http_status_of (SubmitOutcome.accepted (codes "0x1") 200) ≡ 200)
    × (0 < 200)
    × (200 < 400)
    × (success_of filled ≢ some false)
    × (and_then filled extract_order_id ≡ some (codes "0x1"))
    × (codes "0x1" ≢ [])
accepted_sound_example = accepted_sound 200 200 filled (codes "0x1") filled_accepted

refused_rejected : classify 400 none ≡ SubmitOutcome.rejected 400 none
unfolding classify
refused_rejected = refl

rejected_sound_example :
    (http_status_of (SubmitOutcome.rejected 400 none) ≡ 400)
    × (none ≡ error_of none)
    × (0 < 400)
    × (is_transport_error (error_of none) ≡ false)
    × (((400 ≤ 400) × (400 < 500))
        ⊎ ((400 < 400) × (success_of none ≡ some false))
        ⊎ ((500 ≤ 400) × (success_of none ≡ some false) × NamesCause (error_of none)))
rejected_sound_example = rejected_sound 400 400 none none refused_rejected
