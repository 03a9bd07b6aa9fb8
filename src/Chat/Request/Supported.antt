-- ===== src/Chat/Request/Supported.antt =====
-- The fields that src/chat.rs accepts in a Chat request.
use codex_api.Common.{
  ◌≡◌, ◌∙◌, refl, inl, inr, Bool, true, false, some, List, [], ◌∷◌, String, str_eq, ok, any,
  Bool-cases, List-cases,
}
use codex_api.Json.{Json}
use codex_api.Json.Access.{as_object}
use codex_api.Chat.Request.Fields.{reject_unknown_request_fields}
use codex_api.Chat.Request.Convert.{ConvertedRequest, untaken, optional_fields, convert_request}
use codex_api.Chat.Request.Sent.{request_fields-Accepted, request_fields_of}

abbrev pub one_of : List String → String → Bool
one_of names field = any (λ name. str_eq name field) names

module _ ⦃J : Json⦄ where
  open J use {Value, Fields, get, remove, get-remove, entries, entries-nil}

  -- The fields of the documented subset.
  abbrev pub supported_fields : List String
  supported_fields = "model" ∷ "messages" ∷ optional_fields

  rejects_none :
      (m : Fields) (context : String)
      → reject_unknown_request_fields m context ≡ ok tt
      → entries m ≡ []
  unfolding reject_unknown_request_fields
  rejects_none m context h = elim (List-cases (entries m)) [
    | inl p ↦ p
    | inr (x, xs, p) ↦ absurd (cc (rw (p, reject_unknown_request_fields) at h))
  ]

  untaken-others :
      (names : List String) (m : Fields) (k : String)
      → one_of names k ≡ false
      → get (untaken names m) k ≡ get m k
  untaken-others [] m k h = refl
  untaken-others (name ∷ names) m k h = elim (Bool-cases (str_eq name k)) [
    | inl p ↦ absurd (cc (rw p at h))
    | inr p ↦ untaken-others names (remove m name) k (rw p at h) ∙ rw (get-remove m name k, p) refl
  ]

  -- A request that `convert_request` accepts has no field outside the supported ones.
  pub accepts_only_supported :
      (value : Value) (out : ConvertedRequest) (request : Fields) (field : String) (v : Value)
      → convert_request value ≡ ok out
      → as_object value ≡ some request
      → get request field ≡ some v
      → one_of supported_fields field ≡ true
  accepts_only_supported value out request field v h r g =
      let (f, _, _, p, _) = request_fields_of value out h in
      let (m, q, accepted) = request_fields-Accepted value f p in
      let same : m ≡ request = cc in
      elim (Bool-cases (one_of supported_fields field)) [
        | inl found ↦ found
        | inr missing ↦
            let left = rejects_none _ "request" accepted.nothing_left in
            let gone = untaken-others supported_fields m field missing in
            let nothing = entries-nil _ left field in absurd cc
      ]
