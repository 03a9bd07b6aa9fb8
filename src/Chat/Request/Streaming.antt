-- ===== src/Chat/Request/Streaming.antt =====
-- src/chat.rs: lemmas on the Chat requests that are accepted.
use codex_api.Common.{
  not, ◌&&◌, ◌≡◌, ◌∙◌, refl, sym, inl, inr, Bool, true, false, Option, none, some, is_some, String,
  ok, Option-cases, bind-ok, ensure-ok, ensure, ok-injective, ap,
}
use codex_api.Json.{Json}
use codex_api.Chat.Request.Fields.{
  request_bool, validate_n, validate_ignored_completion_limit, convert_reasoning_effort,
  convert_response_format, reject_unknown_request_fields, convert_stream, convert_stream_options,
  convert_option, flag_or_false,
}
use codex_api.Chat.Request.Tools.{convert_tools, convert_tool_choice}
use codex_api.Chat.Request.Convert.{
  ToolFields, RequestFields, convert_tool_fields, convert_stream_fields, optional_parts, untaken,
  optional_fields,
}

module _ ⦃J : Json⦄ where
  open J use {Value, Fields, get}

  convert_stream_options_ok :
      (stream usage : Bool) (value : Value)
      → convert_stream_options stream value ≡ ok usage
      → stream ≡ true
  unfolding convert_stream_options
  convert_stream_options_ok true usage value h = refl
  convert_stream_options_ok false usage value h = absurd cc

  usage_streams :
      (stream : Bool) (options : Option Value) (usage : Option Bool)
      → convert_option (convert_stream_options stream) options ≡ ok usage
      → flag_or_false usage ≡ true
      → stream ≡ true
  usage_streams stream none none h u = absurd cc
  usage_streams stream none (some b) h u = absurd cc
  usage_streams stream (some value) usage h u =
      let (b, p, _) = bind-ok (convert_stream_options stream value) (λ c. ok (some c)) usage h in
      convert_stream_options_ok stream b value p

  convert_stream_fields_ok :
      (request : Fields) (stream usage : Bool)
      → convert_stream_fields request ≡ ok (stream, usage)
      → usage ≡ true
      → stream ≡ true
  unfolding convert_stream_fields
  convert_stream_fields_ok request stream usage h u =
      let (s, p, k) = bind-ok (convert_stream (get request "stream")) _ (stream, usage) h in
      let (o, q, e) =
        bind-ok (convert_option (convert_stream_options s) (get request "stream_options")) _
          (stream, usage) k in
      let same : s ≡ stream = cc in
      rw (← same) (usage_streams s (get request "stream_options") o q cc)

  convert_tool_fields_ok :
      (stream : Bool) (request : Fields) (out : ToolFields)
      → convert_tool_fields stream request ≡ ok out
      → stream ≡ true
      → out.tools ≡ none
  unfolding convert_tool_fields
  convert_tool_fields_ok stream request out h s =
      let (tools, p, k) = bind-ok (convert_option convert_tools (get request "tools")) _ out h in
      let (u, q, l) = bind-ok (ensure (not (stream && is_some tools)) _) _ out k in
      let b = ensure-ok (not (stream && is_some tools)) _ u q in
      let (choice, r, m) =
        bind-ok (convert_option convert_tool_choice (get request "tool_choice")) _ out l in
      let (parallel, t, e) =
        bind-ok
          (convert_option (λ v. request_bool v "parallel_tool_calls")
            (get request "parallel_tool_calls"))
          _ out m in
      let same : tools ≡ out.tools = cc in
      elim (Option-cases tools) [ inl n ↦ cc | inr (v, n) ↦ absurd (cc (rw (s, n) at b)) ]

  -- What a request that is accepted keeps to.
  pub record Accepted (rest : Fields) (f : RequestFields) : Type 0 where
    pub usage_streams : f.include_usage ≡ true → f.stream ≡ true
    pub no_tools : f.stream ≡ true → f.tool_fields.tools ≡ none
    pub nothing_left :
        reject_unknown_request_fields (untaken optional_fields rest) "request" ≡ ok tt

  pub optional_parts-Accepted :
      (model : String) (messages : Value) (rest : Fields) (f : RequestFields)
      → optional_parts model messages rest ≡ ok f
      → Accepted rest f
  unfolding optional_parts
  optional_parts-Accepted model messages rest f h =
      let ((stream, usage), p, h1) = bind-ok (convert_stream_fields rest) _ f h in
      let (_, _, h2) = bind-ok (validate_n (get rest "n")) _ f h1 in
      let (tools, q, h3) = bind-ok (convert_tool_fields stream rest) _ f h2 in
      let (_, _, h4) = bind-ok (convert_reasoning_effort (get rest "reasoning_effort")) _ f h3 in
      let (_, _, h5) =
        bind-ok
          (validate_ignored_completion_limit "max_completion_tokens"
            (get rest "max_completion_tokens"))
          _ f h4 in
      let (_, _, h6) =
        bind-ok (validate_ignored_completion_limit "max_tokens" (get rest "max_tokens")) _ f h5 in
      let (_, _, h7) = bind-ok (convert_response_format (get rest "response_format")) _ f h6 in
      let (tt, left, h8) =
        bind-ok (reject_unknown_request_fields (untaken optional_fields rest) "request") _ f h7 in
      let e = ok-injective _ f h8 in
      let same = ap (λ (g : RequestFields). g.stream) e in
      record {
        usage_streams = λ u.
            sym same
            ∙ convert_stream_fields_ok rest stream usage p
                (ap (λ (g : RequestFields). g.include_usage) e ∙ u);
        no_tools = λ s.
            sym (ap (λ (g : RequestFields). g.tool_fields.tools) e)
            ∙ convert_tool_fields_ok stream rest tools q (same ∙ s);
        nothing_left = left;
      }
