-- ===== src/Submit/Classes.antt =====
-- What the classification of submit.rs promises of each outcome.
use polyrust.Prelude.{
  ℕ, ◌<◌, ◌≤◌, ◌≡◌, refl, ◌≢◌, ◌⊎◌, inl, inr, Bool, true, false, Option, none, some, [], ◌∷◌,
  and_then, arith,
}
use polyrust.Prelude.Text.{Text, codes, contains, to_ascii_lowercase}
use polyrust.Prelude.Json.{Value}
use polyrust.Submit.{
  SubmitOutcome, http_status_of, classify, success_of, error_of, is_transport_error,
  definitive_reject, extract_order_id, accepted_or_unknown,
}

-- An outcome keeps the status of its response.
status_kept : (s : ℕ) (id : Option Text) → http_status_of (accepted_or_unknown s id) ≡ s
status_kept s none = refl
status_kept s (some []) = refl
status_kept s (some (c ∷ r)) = refl

accepted_id :
    (s n : ℕ) (o : Option Text) (id : Text)
    → accepted_or_unknown s o ≡ SubmitOutcome.accepted id n
    → (o ≡ some id) × (id ≢ []) × (n ≡ s)
accepted_id s n none id e = absurd (ground arith)
accepted_id s n (some []) id e = absurd (ground arith)
accepted_id s n (some (c ∷ r)) id e = (ground arith, ground arith, ground arith)

not_rejected :
    (s n : ℕ) (o : Option Text) (x : Option Text)
    → accepted_or_unknown s o ≢ SubmitOutcome.rejected n x
not_rejected s n none x e = ground arith
not_rejected s n (some []) x e = ground arith
not_rejected s n (some (c ∷ r)) x e = ground arith

-- A response is taken for accepted only if its status is from 1 to 399, its body does not say that
-- it failed, and its body has an order id, which is not empty.
pub accepted_sound :
    (s n : ℕ) (body : Option Value) (id : Text)
    → classify s body ≡ SubmitOutcome.accepted id n
    → (n ≡ s)
      × (0 < s)
      × (s < 400)
      × (success_of body ≢ some false)
      × (and_then body extract_order_id ≡ some id)
      × (id ≢ [])
unfolding classify
accepted_sound s n body id e = ground (arith, accepted_id s n (and_then body extract_order_id) id)

-- An error is named, and the transport has no part in it.
abbrev pub NamesCause : Option Text → Type 0
NamesCause error =
    (e : Text) × (error ≡ some e) × (contains (to_ascii_lowercase e) (codes "transport") ≡ false)

definitive_lem :
    (success : Option Bool) (error : Option Text)
    → definitive_reject success error ≡ true
    → (success ≡ some false) × NamesCause error
definitive_lem success none h = absurd (ground arith)
definitive_lem success (some e) h = (ground arith, (e, refl, ground arith))

rejected_class :
    (s n : ℕ) (body : Option Value) (x : Option Text)
    → classify s body ≡ SubmitOutcome.rejected n x
    → ((400 ≤ s) × (s < 500))
      ⊎ ((s < 400) × (success_of body ≡ some false))
      ⊎ ((500 ≤ s) × (definitive_reject (success_of body) (error_of body) ≡ true))
unfolding classify
rejected_class s n body x e = ground (arith, not_rejected s n (and_then body extract_order_id) x)

-- A response is taken for rejected, which frees the token, only if its status is from 400 to 499;
-- or its status is from 1 to 399 and its body says that it failed; or its status is 500 or more,
-- its body says that it failed, and it names an error without the word transport in any case of
-- letters. In no case is the error exactly transport_error.
pub rejected_sound :
    (s n : ℕ) (body : Option Value) (x : Option Text)
    → classify s body ≡ SubmitOutcome.rejected n x
    → (n ≡ s)
      × (x ≡ error_of body)
      × (0 < s)
      × (is_transport_error (error_of body) ≡ false)
      × (((400 ≤ s) × (s < 500))
          ⊎ ((s < 400) × (success_of body ≡ some false))
          ⊎ ((500 ≤ s) × (success_of body ≡ some false) × NamesCause (error_of body)))
unfolding classify
rejected_sound s n body x e =
    let other = not_rejected s n (and_then body extract_order_id) x in
    (
      ground (arith, other),
      ground (arith, other),
      ground (arith, other),
      ground (arith, other),
      elim (rejected_class s n body x e) [
        | inl client ↦ inl client
        | inr (inl failed) ↦ inr (inl failed)
        | inr (inr (server, definitive)) ↦
            let (said, cause) = definitive_lem (success_of body) (error_of body) definitive in
            inr (inr (server, said, cause))
      ],
    )
