-- ===== src/Chat/Request/Sent.antt =====
-- The request that src/chat.rs sends upstream for a Chat request.
use codex_api.Common.{
  ◌≡◌, ◌∙◌, refl, sym, ap, subst, ensure, and_then, not, ◌||◌, Bool, true, false, Option, none,
  some, List, String, str_eq, ok, ok_or, arith, bind-ok, ok-injective,
}
use codex_api.Json.{Json, View, bool, object}
use codex_api.Json.Access.{as_bool, as_str, as_object, index, get_field, json_string}
use codex_api.Json.Objects.{index-object, get_field-object, as_str-json_string}
use codex_api.Chat.Request.Fields.{into_request_object, take_request_string, take_required}
use codex_api.Chat.Request.Messages.{convert_messages}
use codex_api.Chat.Request.Convert.{
  RequestFields, ConvertedRequest, request_fields, insert_some, effort_value, bool_value,
  string_value, required_upstream, upstream_fields, convert_request,
}
use codex_api.Chat.Request.Streaming.{Accepted, optional_parts-Accepted}

module _ ⦃J : Json⦄ where
  open J use {
    Value, Fields, Number, view, make, view-make, get, insert, remove, get-insert, get-empty,
  }

  pub get-insert_some :
      (key k : String) (found : Option Value) (m : Fields)
      → str_eq key k ≡ false
      → get (insert_some key found m) k ≡ get m k
  get-insert_some key k none m p = refl
  get-insert_some key k (some v) m p = rw (get-insert m key k v, p) refl

  get-upstream_fields :
      (f : RequestFields) (instructions : Option String) (input : List Value) (k : String)
      → str_eq "text" k ≡ false
      → str_eq "reasoning" k ≡ false
      → str_eq "parallel_tool_calls" k ≡ false
      → str_eq "tool_choice" k ≡ false
      → str_eq "tools" k ≡ false
      → str_eq "instructions" k ≡ false
      → get (upstream_fields f instructions input) k ≡ get (required_upstream f.model input) k
  unfolding upstream_fields
  get-upstream_fields f instructions input k a b c d e g =
      get-insert_some "text" k f.text _ a
      ∙ get-insert_some "reasoning" k (effort_value f.reasoning_effort) _ b
      ∙ get-insert_some "parallel_tool_calls" k (bool_value f.tool_fields.parallel_tool_calls) _ c
      ∙ get-insert_some "tool_choice" k f.tool_fields.tool_choice _ d
      ∙ get-insert_some "tools" k f.tool_fields.tools _ e
      ∙ get-insert_some "instructions" k (string_value instructions) _ g

  get-required_upstream :
      (model : String) (input : List Value)
      → (get (required_upstream model input) "stream" ≡ some (make (bool true)))
        × (get (required_upstream model input) "store" ≡ some (make (bool false)))
        × (get (required_upstream model input) "model" ≡ some (json_string model))
        × (get (required_upstream model input) "tools" ≡ none)
  unfolding required_upstream
  get-required_upstream model input =
      (simp get-insert, simp get-insert, simp get-insert, simp (get-insert, get-empty))

  implies : (a b : Bool) → (a ≡ true → b ≡ true) → (not a || b) ≡ true
  implies true b f = f refl
  implies false b f = refl

  pub as_bool-make : (b : Bool) → as_bool (make (bool b)) ≡ some b
  unfolding as_bool
  as_bool-make b =
      ap (λ (w : View Value Fields Number). elim w [ bool c ↦ some c | _ ↦ none ])
        (view-make (bool b))

  index-some :
      (m : Fields) (k : String) (v : Value) → get m k ≡ some v → index (make (object m)) k ≡ v
  index-some m k v h = rw (index-object m k, h) refl

  into_request_object-ok :
      (value : Value) (param : String) (m : Fields)
      → into_request_object value param ≡ ok m
      → as_object value ≡ some m
  unfolding into_request_object
  into_request_object-ok value param m h = ground (arith, h)

  take_request_string-rest :
      (fields rest : Fields) (field param text : String)
      → take_request_string fields field param ≡ ok (text, rest)
      → remove fields field ≡ rest
  unfolding take_request_string
  take_request_string-rest fields rest field param text h =
      let (v, p, e) = bind-ok (ok_or (and_then (get fields field) as_str) _) _ (text, rest) h in
      ap (λ (x : String × Fields). x.1) (ok-injective _ (text, rest) e)

  take_required-rest :
      (fields rest : Fields) (field param : String) (value : Value)
      → take_required fields field param ≡ ok (value, rest)
      → remove fields field ≡ rest
  unfolding take_required
  take_required-rest fields rest field param value h =
      let (v, p, e) = bind-ok (ok_or (get fields field) _) _ (value, rest) h in
      ap (λ (x : Value × Fields). x.1) (ok-injective _ (value, rest) e)

  pub request_fields-Accepted :
      (value : Value) (f : RequestFields)
      → request_fields value ≡ ok f
      → (m : Fields) × (as_object value ≡ some m)
        × Accepted (remove (remove m "model") "messages") f
  unfolding request_fields
  request_fields-Accepted value f h =
      let (m, p, h1) = bind-ok (into_request_object value "request") _ f h in
      let ((model, unmodelled), q, h2) = bind-ok (take_request_string m "model" "model") _ f h1 in
      let (_, _, h3) = bind-ok (ensure (not (str_eq model "")) _) _ f h2 in
      let ((messages, rest), r, h4) =
        bind-ok (take_required unmodelled "messages" "messages") _ f h3 in
      let a = take_request_string-rest m unmodelled "model" "model" model q in
      let b = take_required-rest unmodelled rest "messages" "messages" messages r in
      (
        m,
        into_request_object-ok value "request" m p,
        subst (λ n. Accepted n f) (sym (ap (λ n. remove n "messages") a ∙ b))
            (optional_parts-Accepted model messages rest f h4),
      )

  pub request_fields_of :
      (value : Value) (out : ConvertedRequest)
      → convert_request value ≡ ok out
      → (f : RequestFields) × (instructions : Option String) × (input : List Value)
        × (request_fields value ≡ ok f)
        × (record {
          upstream_request = make (object (upstream_fields f instructions input));
          model = f.model;
          reasoning_effort = f.reasoning_effort;
          stream = f.stream;
          include_usage = f.include_usage;
        }
            ≡ out)
  unfolding convert_request
  request_fields_of value out h =
      let (f, p, k) = bind-ok (request_fields value) _ out h in
      let ((instructions, input), q, l) = bind-ok (convert_messages f.messages) _ out k in
      (f, instructions, input, p, ok-injective _ out l)

  -- What `convert_request` returns for a request: the upstream request streams and is not stored,
  -- it names the model that the conversion reports, and the usage is included only in a stream.
  pub convert_request_sends :
      (value : Value) (out : ConvertedRequest)
      → convert_request value ≡ ok out
      → (as_bool (index out.upstream_request "stream") ≡ some true)
        × (as_bool (index out.upstream_request "store") ≡ some false)
        × (as_str (index out.upstream_request "model") ≡ some out.model)
        × ((not out.include_usage || out.stream) ≡ true)
  convert_request_sends value out h =
      let (f, instructions, input, p, e) = request_fields_of value out h in
      let (m, q, accepted) = request_fields-Accepted value f p in
      let (a, b, c, _) = get-required_upstream f.model input in
      let up = get-upstream_fields f instructions input in
      subst
        (λ (o : ConvertedRequest).
          (as_bool (index o.upstream_request "stream") ≡ some true)
          × (as_bool (index o.upstream_request "store") ≡ some false)
          × (as_str (index o.upstream_request "model") ≡ some o.model)
          × ((not o.include_usage || o.stream) ≡ true))
        e
        (
          ap as_bool (index-some _ "stream" _ (up "stream" refl refl refl refl refl refl ∙ a))
              ∙ as_bool-make true,
          ap as_bool (index-some _ "store" _ (up "store" refl refl refl refl refl refl ∙ b))
              ∙ as_bool-make false,
          ap as_str (index-some _ "model" _ (up "model" refl refl refl refl refl refl ∙ c))
              ∙ as_str-json_string f.model,
          implies f.include_usage f.stream accepted.usage_streams,
        )

  get_tools :
      (f : RequestFields) (instructions : Option String) (input : List Value)
      → f.tool_fields.tools ≡ none
      → get (upstream_fields f instructions input) "tools" ≡ none
  unfolding upstream_fields
  get_tools f instructions input t =
      get-insert_some "text" "tools" f.text _ refl
      ∙ get-insert_some "reasoning" "tools" (effort_value f.reasoning_effort) _ refl
      ∙ get-insert_some "parallel_tool_calls" "tools" (bool_value f.tool_fields.parallel_tool_calls)
          _ refl
      ∙ get-insert_some "tool_choice" "tools" f.tool_fields.tool_choice _ refl
      ∙ ap
          (λ n.
            get
              (insert_some "tools" n (
                insert_some "instructions" (string_value instructions)
                  (required_upstream f.model input)))
              "tools")
          t
      ∙ get-insert_some "instructions" "tools" (string_value instructions) _ refl
      ∙ (let (_, _, _, none_there) = get-required_upstream f.model input in none_there)

  -- A streaming Chat request that is accepted sends no tools upstream.
  pub streams_without_tools :
      (value : Value) (out : ConvertedRequest)
      → convert_request value ≡ ok out
      → out.stream ≡ true
      → get_field out.upstream_request "tools" ≡ none
  streams_without_tools value out h s =
      let (f, instructions, input, p, e) = request_fields_of value out h in
      let (m, q, accepted) = request_fields-Accepted value f p in
      let streams : f.stream ≡ true = ap (λ (o : ConvertedRequest). o.stream) e ∙ s in
      ap (λ (o : ConvertedRequest). get_field o.upstream_request "tools") (sym e)
      ∙ get_field-object (upstream_fields f instructions input) "tools"
      ∙ get_tools f instructions input (accepted.no_tools streams)
