-- ===== src/Http/Normalized.antt =====
-- What src/http_api.rs sends upstream for a Responses request.
use codex_api.Common.{
  ◌≡◌, ◌∙◌, refl, sym, ap, inl, inr, not, true, false, Option, none, some, is_some, ok, ok_or,
  String, str_eq, Option-cases, arith, bind-ok, ensure, ensure-ok, ok-injective, unwrap_or,
}
use codex_api.Json.{Json, View, null, bool, number, string, array, object}
use codex_api.Json.Access.{as_bool, as_str, as_object, index, get_field}
use codex_api.Json.Objects.{index-object, get_field-object, index-insert}
use codex_api.Chat.Request.Sent.{as_bool-make}
use codex_api.Http.Normalize.{
  require_stream, refuse_flag, input_message, wrap_view, wrap_input, normalize_responses_request,
}

module _ ⦃J : Json⦄ where
  open J use {Value, Fields, Number, view, make, view-make, get, insert, get-insert}

  require_stream_ok :
      (found : Option Value)
      → require_stream found ≡ ok tt
      → as_bool (unwrap_or found (make null)) ≡ some true
  unfolding require_stream as_bool
  require_stream_ok none h = absurd cc
  require_stream_ok (some value) h = ground (arith, h)

  pub is_none : (found : Option Value) → not (is_some found) ≡ true → found ≡ none
  is_none none h = refl
  is_none (some value) h = absurd cc

  wrap_view-others :
      (w : View Value Fields Number) (request : Fields) (k : String)
      → str_eq "input" k ≡ false
      → get (wrap_view w request) k ≡ get request k
  wrap_view-others null request k h = refl
  wrap_view-others (bool b) request k h = refl
  wrap_view-others (number n) request k h = refl
  wrap_view-others (array xs) request k h = refl
  wrap_view-others (object m) request k h = refl
  wrap_view-others (string s) request k h =
      rw (get-insert request "input" k (input_message s), h) refl

  pub wrap_input-others :
      (found : Option Value) (request : Fields) (k : String)
      → str_eq "input" k ≡ false
      → get (wrap_input found request) k ≡ get request k
  unfolding wrap_input
  wrap_input-others none request k h = refl
  wrap_input-others (some value) request k h = wrap_view-others (view value) request k h

  -- The text that a view shows.
  abbrev text_in : View Value Fields Number → Option String
  text_in (string s) = some s
  text_in _ = none

  as_str-text_in : (v : Value) → as_str v ≡ text_in (view v)
  unfolding as_str
  as_str-text_in v = refl

  as_str-make : (w : View Value Fields Number) → as_str (make w) ≡ text_in w
  as_str-make w = as_str-text_in (make w) ∙ ap text_in (view-make w)

  wrap_view-str :
      (w : View Value Fields Number) (request : Fields) (v : Value)
      → get request "input" ≡ some v
      → view v ≡ w
      → as_str (unwrap_or (get (wrap_view w request) "input") (make null)) ≡ none
  unfolding input_message
  wrap_view-str (string s) request v g h =
      rw (get-insert request "input" "input" (input_message s)) (as_str-make (array _))
  wrap_view-str null request v g h = rw (g, as_str-text_in v, h) refl
  wrap_view-str (bool b) request v g h = rw (g, as_str-text_in v, h) refl
  wrap_view-str (number n) request v g h = rw (g, as_str-text_in v, h) refl
  wrap_view-str (array xs) request v g h = rw (g, as_str-text_in v, h) refl
  wrap_view-str (object m) request v g h = rw (g, as_str-text_in v, h) refl

  -- The input is a text no more.
  pub wrap_input-str :
      (request : Fields)
      → as_str (unwrap_or (get (wrap_input (get request "input") request) "input") (make null))
        ≡ none
  unfolding wrap_input
  wrap_input-str request = elim (Option-cases (get request "input")) [
    | inl p ↦ rw (p, wrap_input, p, as_str-make null) refl
    | inr (v, p) ↦ rw (p, wrap_input) (wrap_view-str (view v) request v p refl)
  ]

  get_sent :
      (request : Fields) (k : String)
      → str_eq "store" k ≡ false
      → index
          (make (
            object (insert (wrap_input (get request "input") request) "store" (make (bool false)))))
          k
        ≡ unwrap_or (get (wrap_input (get request "input") request) k) (make null)
  get_sent request k h =
      index-object _ k
      ∙ rw (get-insert (wrap_input (get request "input") request) "store" k (make (bool false)), h)
          refl

  -- What `normalize_responses_request` returns for a request: an upstream request that streams, is
  -- not stored, has no limit on its output, and has no plain text as its input.
  pub normalize_responses_request_sends :
      (value out : Value)
      → normalize_responses_request value ≡ ok out
      → (as_bool (index out "stream") ≡ some true)
        × (as_bool (index out "store") ≡ some false)
        × (get_field out "max_output_tokens" ≡ none)
        × (as_str (index out "input") ≡ none)
  unfolding normalize_responses_request
  normalize_responses_request_sends value out h =
      let (request, _, h1) = bind-ok (ok_or (as_object value) _) _ out h in
      let (tt, p, h2) = bind-ok (require_stream (get request "stream")) _ out h1 in
      let (_, _, h3) =
        bind-ok (refuse_flag "store" "stored responses are not supported" (get request "store")) _
          out h2 in
      let (_, _, h4) =
        bind-ok
          (refuse_flag "background" "background responses are not supported"
            (get request "background"))
          _ out h3 in
      let (u, q, h5) =
        bind-ok (ensure (not (is_some (get request "max_output_tokens"))) _) _ out h4 in
      let wrapped = wrap_input (get request "input") request in
      let e = sym (ok-injective _ out h5) in
      (
        ap (λ o. as_bool (index o "stream")) e
            ∙ ap as_bool (get_sent request "stream" refl)
            ∙ ap (λ (o : Option Value). as_bool (unwrap_or o (make null)))
                (wrap_input-others (get request "input") request "stream" refl)
            ∙ require_stream_ok (get request "stream") p,
        ap (λ o. as_bool (index o "store")) e
            ∙ ap as_bool (index-insert wrapped "store" "store" (make (bool false)))
            ∙ as_bool-make false,
        ap (λ o. get_field o "max_output_tokens") e
            ∙ get_field-object (insert wrapped "store" (make (bool false))) "max_output_tokens"
            ∙ get-insert wrapped "store" "max_output_tokens" (make (bool false))
            ∙ wrap_input-others (get request "input") request "max_output_tokens" refl
            ∙ is_none (get request "max_output_tokens") (ensure-ok _ _ u q),
        ap (λ o. as_str (index o "input")) e
            ∙ ap as_str (get_sent request "input" refl)
            ∙ wrap_input-str request,
      )
