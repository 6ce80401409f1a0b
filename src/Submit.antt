-- ===== src/Submit.antt =====
-- submit.rs: the outcome of a submit, and how a response is classified. The body arrives as the JSON
-- value that the parser of serde_json makes of it, or none.
pub mod Classes
mod Tests
use polyrust.Prelude.{
  ℕ, Bool, false, not, ◌&&◌, ◌||◌, Option, none, some, [], ◌∷◌, and_then, is_some_and, leb, ◌==◌,
  if◌then◌else◌,
}
use polyrust.Prelude.Text.{Text, codes, text_eq, contains, to_ascii_lowercase}
use polyrust.Prelude.Json.{Value, Fields, get, get_str, as_bool}

pub data SubmitOutcome : Type 0 where
  accepted : (order_id : Text) (http_status : ℕ) → SubmitOutcome
  rejected unknown : (http_status : ℕ) (error : Option Text) → SubmitOutcome

-- `SubmitOutcome::http_status` and `SubmitOutcome::error_text`.
abbrev pub http_status_of : SubmitOutcome → ℕ
http_status_of (SubmitOutcome.accepted _ s) = s
http_status_of (SubmitOutcome.rejected s _) = s
http_status_of (SubmitOutcome.unknown s _) = s

abbrev pub error_text : SubmitOutcome → Option Text
error_text (SubmitOutcome.accepted _ _) = none
error_text (SubmitOutcome.rejected _ e) = e
error_text (SubmitOutcome.unknown _ e) = e

-- A text that is not empty.
abbrev pub nonempty : Option Text → Option Text
nonempty none = none
nonempty (some []) = none
nonempty (some (c ∷ s)) = some (c ∷ s)

abbrev pub first_of {ℓ} : {A : Type ℓ} → Option A → Option A → Option A
first_of (some a) rest = some a
first_of none rest = rest

abbrev pub get_id : Value → Text → Option Text
get_id v key = nonempty (get_str v key)

-- `shallow` of `extract_order_id`.
unfoldable pub shallow : Value → Option Text
shallow v = first_of (get_id v (codes "orderID")) (
    first_of (get_id v (codes "orderId")) (
      first_of (get_id v (codes "order_id"))
        (and_then (get v (codes "order")) (λ o. get_id o (codes "id")))))

unfoldable mutual
  pub extract_order_id : Value → Option Text
  extract_order_id (Value.object fields) = first_of (shallow (Value.object fields)) (
      first_of (extract_in fields (codes "data")) (
        first_of (extract_in fields (codes "result"))
          (first_of (extract_in fields (codes "response")) (extract_in fields (codes "payload")))))
  extract_order_id v = shallow v

  -- `value.get(key)` and the recursive call on it.
  pub extract_in : Fields → Text → Option Text
  extract_in Fields.no_fields key = none
  extract_in (Fields.field k v rest) key =
      let here = extract_order_id v in
      let later = extract_in rest key in if text_eq k key then here else later

-- `extract_error_field`.
unfoldable pub extract_error_field : Value → Option Text
extract_error_field v =
    first_of (nonempty (get_str v (codes "error"))) (nonempty (get_str v (codes "errorMsg")))

abbrev pub is_false : Option Bool → Bool
is_false none = false
is_false (some b) = not b

abbrev pub is_transport_error : Option Text → Bool
is_transport_error e = is_some_and e (λ s. text_eq s (codes "transport_error"))

abbrev pub success_of : Option Value → Option Bool
success_of body = and_then body (λ v. and_then (get v (codes "success")) as_bool)

abbrev pub error_of : Option Value → Option Text
error_of body = and_then body extract_error_field

abbrev pub definitive_reject : Option Bool → Option Text → Bool
definitive_reject success error =
    is_false success
    && is_some_and error (λ e. not (contains (to_ascii_lowercase e) (codes "transport")))

abbrev pub accepted_or_unknown : ℕ → Option Text → SubmitOutcome
accepted_or_unknown http_status (some (c ∷ s)) = SubmitOutcome.accepted (c ∷ s) http_status
accepted_or_unknown http_status _ =
    SubmitOutcome.unknown http_status (some (codes "accepted_missing_order_id"))

unfoldable pub classify : ℕ → Option Value → SubmitOutcome
classify http_status body =
    let success = success_of body in
    let error = error_of body in
    if http_status == 0 || is_transport_error error
    then SubmitOutcome.unknown http_status error
    else if leb 500 http_status
    then if definitive_reject success error
      then SubmitOutcome.rejected http_status error
      else SubmitOutcome.unknown http_status error
    else if leb 400 http_status
    then SubmitOutcome.rejected http_status error
    else if is_false success
    then SubmitOutcome.rejected http_status error
    else accepted_or_unknown http_status (and_then body extract_order_id)
