-- ===== src/Terminal/Rewritten.antt =====
-- A rewritten capacity error is a valid terminal event (src/responses_terminal.rs).
use codex_api.Common.{
  ℕ, ◌≡◌, refl, subst, inl, inr, Bool, true, none, some, List, [], ◌∷◌, ok, Bool-cases,
  Option-cases, arith,
}
use codex_api.Json.{object, Json}
use codex_api.Json.Access.{
  as_object, as_str, get_field, index, is_object, json_object, json_string, set_index,
}
use codex_api.Json.Objects.{get_field-object, as_str-json_string}
use codex_api.Terminal.Kind.{failed, error, from_name, response_status}
use codex_api.Terminal.Event.{
  parse_terminal_payload, parse_kind, parse_response, parse_usage, missing_usage,
}
use codex_api.Terminal.Capacity.{
  upstream_error, is_capacity, retry_after, advised_headers, wrap_error, rewrite,
  retryable_capacity_payload,
}

module _ ⦃J : Json⦄ where
  open J use {
    Value, Fields, view, view-make, make, get, insert, get-insert, empty, get-empty, remove,
  }

  abbrev failed_response : Value → Value
  failed_response advised = json_object (("status", json_string "failed") ∷ ("error", advised) ∷ [])

  failed_response-is_object : (advised : Value) → is_object (failed_response advised) ≡ true
  unfolding is_object json_object
  failed_response-is_object advised =
      rw
        (
          view-make
              (object (insert (insert empty "status" (json_string "failed")) "error" advised)),
          is_object,
        )
        refl

  failed_response-status :
      (advised : Value) → get_field (failed_response advised) "status" ≡ some (json_string "failed")
  unfolding json_object
  failed_response-status advised = simp (get_field-object, get-insert)

  failed_response-usage : (advised : Value) → get_field (failed_response advised) "usage" ≡ none
  unfolding json_object
  failed_response-usage advised = simp (get_field-object, get-insert, get-empty)

  -- What makes a payload a failed event without usage.
  parse-failed :
      (payload response : Value)
      → get_field payload "type" ≡ some (json_string "response.failed")
      → get_field payload "response" ≡ some response
      → is_object response ≡ true
      → get_field response "status" ≡ some (json_string "failed")
      → get_field response "usage" ≡ none
      → parse_terminal_payload payload
        ≡ ok (some (record { kind = failed; payload = payload; usage = none }))
  unfolding parse_terminal_payload parse_kind parse_response parse_usage missing_usage from_name
      response_status
  parse-failed payload response t r o s u =
      ground
        (arith, t, r, o, s, u, as_str-json_string "response.failed", as_str-json_string "failed")

  wrapped : Fields → Value → Value
  wrapped fields advised = make (
      object (
        insert (insert (remove fields "error") "type" (json_string "response.failed")) "response"
          (failed_response advised)))

  parse-wrapped :
      (fields : Fields) (advised : Value)
      → parse_terminal_payload (wrapped fields advised)
        ≡ ok (some (record { kind = failed; payload = wrapped fields advised; usage = none }))
  unfolding wrapped
  parse-wrapped fields advised =
      parse-failed (wrapped fields advised) (failed_response advised)
        (simp (get_field-object, get-insert)) (simp (get_field-object, get-insert))
        (failed_response-is_object advised) (failed_response-status advised)
        (failed_response-usage advised)

  wrap_error-wrapped :
      (payload advised result : Value)
      → wrap_error payload advised ≡ some (some result)
      → (fields : Fields) × (wrapped fields advised ≡ result)
  unfolding wrap_error wrapped
  wrap_error-wrapped payload advised result h = elim (Option-cases (as_object payload)) [
    | inl p ↦ absurd (cc (rw (p, wrap_error) at h))
    | inr (fields, p) ↦ (fields, cc (rw (p, wrap_error) at h))
  ]

  module _ (is_http_date : List ℕ → Bool) where
    rewrite-wrapped :
        (payload upstream result : Value)
        → rewrite is_http_date error payload upstream ≡ some (some result)
        → (fields : Fields) × (advised : Value) × (wrapped fields advised ≡ result)
    unfolding rewrite
    rewrite-wrapped payload upstream result h =
        let new =
          make (object (advised_headers upstream (retry_after is_http_date upstream payload))) in
        elim (Option-cases (set_index upstream "headers" new)) [
          | inl q ↦ absurd (cc (rw (q, rewrite) at h))
          | inr (advised, q) ↦
              let (fields, e) = wrap_error-wrapped payload advised result (rw (q, rewrite) at h) in
              (fields, advised, e)
        ]

    -- A bare error that is rewritten as a capacity failure is a well-formed `response.failed` event
    -- without usage: parsing the new payload gives exactly that.
    pub retryable_capacity_payload-parses :
        (payload result : Value)
        → retryable_capacity_payload is_http_date
            (record { kind = error; payload = payload; usage = none })
          ≡ some (some result)
        → parse_terminal_payload result
          ≡ ok (some (record { kind = failed; payload = result; usage = none }))
    unfolding retryable_capacity_payload
    retryable_capacity_payload-parses payload result h =
        elim (Option-cases
          (upstream_error (record { kind = error; payload = payload; usage = none }))) [
            | inl p ↦ absurd (cc (rw (p, retryable_capacity_payload) at h))
            | inr (upstream, p) ↦ elim (Bool-cases (is_capacity (as_str (index upstream "code")))) [
              | inr q ↦ absurd (cc (rw (p, q, retryable_capacity_payload) at h))
              | inl q ↦
                  let (fields, advised, e) =
                    rewrite-wrapped payload upstream result
                      (rw (p, q, retryable_capacity_payload) at h) in
                  subst
                    (λ v.
                      parse_terminal_payload v
                      ≡ ok (some (record { kind = failed; payload = v; usage = none })))
                    e (parse-wrapped fields advised)
            ]
          ]
