-- ===== src/Http/Phrase/Known.antt =====
-- Which numbers have a reason phrase, and how the classes divide the codes.
use obmc_webapp.Prelude.{
  ℕ, String, ◌≡◌, refl, ◌≢◌, ◌↔◌, false, List, [], ◌∷◌, ◌==◌, ==_iff, ◌⊎◌, ◌∙◌, sym, subst, ap, map,
  All-map, Bool-cases, inl, inr, All, str_eq, str_eq_iff,
}
use mathlib.Core.Bool.{false≢true}
use obmc_webapp.Http.Status.{
  Code, continue, switching_protocols, processing, early_hints, ok, created, accepted,
  non_authoritative_information, no_content, reset_content, partial_content, multi_status,
  already_reported, im_used, multiple_choices, moved_permanently, found, see_other, not_modified,
  use_proxy, temporary_redirect, permanent_redirect, bad_request, unauthorized, payment_required,
  forbidden, not_found, method_not_allowed, not_acceptable, proxy_authentication_required,
  request_timeout, conflict, gone, length_required, precondition_failed, payload_too_large,
  uri_too_long, unsupported_media_type, range_not_satisfiable, expectation_failed, im_a_teapot,
  unprocessable_entity, locked, failed_dependency, upgrade_required, precondition_required,
  too_many_requests, request_header_fields_too_large, unavailable_for_legal_reasons,
  internal_server_error, not_implemented, bad_gateway, service_unavailable, gateway_timeout,
  http_version_not_supported, variant_also_negotiates, insufficient_storage, loop_detected,
  not_extended, network_authentication_required, to_int,
}
use obmc_webapp.Http.Phrase.{phrases, case_of, reason_phrase_int, reason_phrase}

abbrev IsCode : ℕ → Type 0
IsCode n = (c : Code) × (to_int c ≡ n)

case_of-IsCode :
    (n : ℕ) (cases : List (ℕ × String))
    → All (λ e. IsCode e.0) cases
    → (case_of n cases ≡ "") ⊎ IsCode n
unfolding case_of
case_of-IsCode n [] _ = inl refl
case_of-IsCode n ((m, phrase) ∷ cases) (here, later) = elim (Bool-cases (m == n)) [
  | inl same ↦ inr (here.0, here.1 ∙ (==_iff m n).0 same)
  | inr other ↦ rw other (case_of-IsCode n cases later)
]

abbrev codes : List Code
codes =
    continue ∷ switching_protocols ∷ processing ∷ early_hints ∷ ok ∷ created ∷ accepted
    ∷ non_authoritative_information ∷ no_content ∷ reset_content ∷ partial_content ∷ multi_status
    ∷ already_reported ∷ im_used ∷ multiple_choices ∷ moved_permanently ∷ found ∷ see_other
    ∷ not_modified ∷ use_proxy ∷ temporary_redirect ∷ permanent_redirect ∷ bad_request
    ∷ unauthorized ∷ payment_required ∷ forbidden ∷ not_found ∷ method_not_allowed ∷ not_acceptable
    ∷ proxy_authentication_required ∷ request_timeout ∷ conflict ∷ gone ∷ length_required
    ∷ precondition_failed ∷ payload_too_large ∷ uri_too_long ∷ unsupported_media_type
    ∷ range_not_satisfiable ∷ expectation_failed ∷ im_a_teapot ∷ unprocessable_entity ∷ locked
    ∷ failed_dependency ∷ upgrade_required ∷ precondition_required ∷ too_many_requests
    ∷ request_header_fields_too_large ∷ unavailable_for_legal_reasons ∷ internal_server_error
    ∷ not_implemented ∷ bad_gateway ∷ service_unavailable ∷ gateway_timeout
    ∷ http_version_not_supported ∷ variant_also_negotiates ∷ insufficient_storage ∷ loop_detected
    ∷ not_extended ∷ network_authentication_required ∷ []

-- The `switch` has one case for each status code.
phrases-eq-map : phrases ≡ map (λ c. (to_int c, reason_phrase c)) codes
unfolding reason_phrase
phrases-eq-map = refl

phrases-IsCode : All (λ e. IsCode e.0) phrases
phrases-IsCode = subst (All (λ e. IsCode e.0)) (sym phrases-eq-map) (
    All-map (λ (e : ℕ × String). IsCode e.0) (λ c. (to_int c, reason_phrase c)) (λ c. (c, refl))
      codes)

has_phrase : (c : Code) → str_eq (reason_phrase_int (to_int c)) "" ≡ false
unfolding reason_phrase_int to_int
has_phrase continue = refl
has_phrase _ = refl

-- A number has a reason phrase, other than the empty text, exactly when it is the number of a
-- status code.
pub reason_phrase_iff : (n : ℕ) → (reason_phrase_int n ≢ "") ↔ ((c : Code) × (to_int c ≡ n))
reason_phrase_iff n = (known, named)
  where
    known : reason_phrase_int n ≢ "" → IsCode n
    known h = elim (case_of-IsCode n phrases phrases-IsCode) [
      | inl e ↦ absurd (h (unfold reason_phrase_int in e))
      | inr c ↦ c
    ]

    named : IsCode n → reason_phrase_int n ≢ ""
    named (c, e) blank =
        false≢true (sym (has_phrase c) ∙ (str_eq_iff _ _).1 (ap reason_phrase_int e ∙ blank))
