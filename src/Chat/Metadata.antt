-- ===== src/Chat/Metadata.antt =====
-- What a Chat stream (src/chat.rs) says of its response.
use codex_api.Common.{
  ◌≡◌, subst, inl, inr, Option, none, some, [], ◌∷◌, String, str_eq, Result, ok, err, Option-cases,
  Result-cases, Bool-cases, and_then, arith,
}
use codex_api.Json.{Json, number}
use codex_api.Json.Access.{as_object, as_str, get_field, index, json_object, json_string}
use codex_api.Json.Objects.{index-insert, as_str-json_string}
use codex_api.Chat.Upstream.{ChatError}
use codex_api.Chat.Stream.{
  ChatStreamConverter, StreamMetadata, choices_value, metadata, metadata_of, chunk_value, chunk,
  capture_metadata, created_chunk, delta_chunk, convert_event,
}

module _ ⦃J : Json⦄ where
  open J use {Value, Fields, make, from_i64}

  -- The converter has captured the metadata, and a chunk names its response and its model.
  abbrev pub Names : Value → ChatStreamConverter → Type 0
  Names value c =
      (m : StreamMetadata) × (c.id ≡ some m.id)
      × (c.created ≡ some m.created)
      × (c.model ≡ some m.model)
      × (as_str (index value "id") ≡ some m.id)
      × (as_str (index value "model") ≡ some m.model)
      × (as_str (index value "object") ≡ some "chat.completion.chunk")
      × (index value "created" ≡ make (number (from_i64 m.created)))

  metadata-ok :
      (c : ChatStreamConverter) (m : StreamMetadata)
      → metadata c ≡ ok m
      → (c.id ≡ some m.id) × (c.created ≡ some m.created) × (c.model ≡ some m.model)
  unfolding metadata metadata_of
  metadata-ok c m h = ground (arith, h)

  chunk_value-names :
      (m : StreamMetadata) (choices : Value)
      → (as_str (index (chunk_value m (("choices", choices) ∷ [])) "id") ≡ some m.id)
        × (as_str (index (chunk_value m (("choices", choices) ∷ [])) "model") ≡ some m.model)
        × (as_str (index (chunk_value m (("choices", choices) ∷ [])) "object")
            ≡ some "chat.completion.chunk")
        × (index (chunk_value m (("choices", choices) ∷ [])) "created"
            ≡ make (number (from_i64 m.created)))
  unfolding chunk_value json_object
  chunk_value-names m choices = (
    simp (index-insert, as_str-json_string),
    simp (index-insert, as_str-json_string),
    simp (index-insert, as_str-json_string),
    simp index-insert,
  )

  chunk-Names :
      (c : ChatStreamConverter) (delta value : Value) (reason : Option String)
      → chunk c delta reason ≡ ok value
      → Names value c
  unfolding chunk
  chunk-Names c delta value reason h = elim (Result-cases (metadata c)) [
    | inl (e, p) ↦ absurd (cc (rw (p, chunk) at h))
    | inr (m, p) ↦
        let (i, t, k) = metadata-ok c m p in
        let q = rw (p, chunk) at h in
        let names = chunk_value-names m (choices_value delta reason) in
        let e : chunk_value m (("choices", choices_value delta reason) ∷ []) ≡ value = cc in
        (m, i, t, k, rw (← e) names.0, rw (← e) names.1, rw (← e) names.2, rw (← e) names.3)
  ]

  created_chunk-Names :
      (captured : Result ChatError (Unit {0}) × ChatStreamConverter) (after : ChatStreamConverter)
      (value : Value)
      → created_chunk captured ≡ (ok (some value), after)
      → Names value after
  unfolding created_chunk
  created_chunk-Names (err e, c) after value h = absurd cc
  created_chunk-Names (ok _, c) after value h =
      let delta =
        json_object (("role", json_string "assistant") ∷ ("content", json_string "") ∷ []) in
      elim (Result-cases (chunk c delta none)) [
        | inl (e, p) ↦ absurd (cc (rw (p, created_chunk) at h))
        | inr (v, p) ↦
            let q = rw (p, created_chunk) at h in
            let n = chunk-Names c delta v none p in
            let same : c ≡ after = cc in
            let value_same : v ≡ value = cc in
            subst (λ d. Names value d) same (subst (λ w. Names w c) value_same n)
      ]

  delta_chunk-Names :
      (c : ChatStreamConverter) (event value : Value)
      → delta_chunk c event ≡ ok (some value)
      → Names value c
  unfolding delta_chunk
  delta_chunk-Names c event value h =
      elim (Option-cases (and_then (get_field event "delta") as_str)) [
        | inl p ↦ absurd (cc (rw (p, delta_chunk) at h))
        | inr (text, p) ↦
            let delta = json_object (("content", json_string text) ∷ []) in
            elim (Result-cases (chunk c delta none)) [
              | inl (e, q) ↦ absurd (cc (rw (p, q, delta_chunk) at h))
              | inr (v, q) ↦
                  let r = rw (p, q, delta_chunk) at h in
                  let value_same : v ≡ value = cc in
                  subst (λ w. Names w c) value_same (chunk-Names c delta v none q)
            ]
      ]

  -- When the converter emits a chunk for an event, it has captured the identifier, the time of
  -- creation and the model of the response, and the chunk, an object of the kind
  -- `chat.completion.chunk`, names this identifier, this time and this model: no content is emitted
  -- before the metadata.
  pub convert_event-Names :
      (event value : Value) (c after : ChatStreamConverter)
      → convert_event event c ≡ (ok (some value), after)
      → Names value after
  unfolding convert_event
  convert_event-Names event value c after h =
      elim (Option-cases (and_then (get_field event "type") as_str)) [
        | inl p ↦ absurd (cc (rw (p, convert_event) at h))
        | inr (name, p) ↦ elim (Bool-cases (str_eq name "response.created")) [
          | inl q ↦ elim (Option-cases (and_then (get_field event "response") as_object)) [
            | inl r ↦ absurd (cc (rw (p, q, r, convert_event) at h))
            | inr (response, r) ↦
                created_chunk-Names (capture_metadata response c) after value
                  (rw (p, q, r, convert_event) at h)
          ]
          | inr q ↦ elim (Bool-cases (str_eq name "response.output_text.delta")) [
            | inl r ↦
                let k = rw (p, q, r, convert_event) at h in
                let same : c ≡ after = cc in
                subst (λ d. Names value d) same (delta_chunk-Names c event value cc)
            | inr r ↦ absurd (cc (rw (p, q, r, convert_event) at h))
          ]
        ]
      ]
