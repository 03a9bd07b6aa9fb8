-- ===== src/Upstream/Warmed.antt =====
-- What the warmup of src/upstream_ws.rs shares with the request that follows it.
use codex_api.Common.{
  not, ◌&&◌, ◌≡◌, ◌∙◌, refl, sym, ap, inl, inr, Bool, true, false, none, some, is_none, List, [],
  String, str_eq, ok, ok_or, and_then, Option-cases, bind-ok, ok-injective, unwrap_or,
}
use codex_api.Json.{Json, bool, array, object}
use codex_api.Json.Access.{as_object, as_array, as_str, get_field, json_object, json_string}
use codex_api.Upstream.Lite.{
  or_insert, change_object, lite_metadata, fixed_fields, normalize_responses_lite_fields,
  has_inline_tools, prewarm_of, prewarm_input, nonempty_array, route_marker_tools, taken_from,
  responses_lite_prewarm,
}

module _ ⦃J : Json⦄ where
  open J use {Value, Fields, make, get, insert, remove, get-insert, get-remove}

  get-or_insert_other :
      (key k : String) (v : Value) (m : Fields)
      → str_eq key k ≡ false
      → get (or_insert key v m) k ≡ get m k
  get-or_insert_other key k v m h = elim (Option-cases (get m key)) [
    | inl p ↦ rw (p, or_insert) (rw (get-insert m key k v, h) refl)
    | inr (_, p) ↦ rw (p, or_insert) refl
  ]

  get-change_object_other :
      (key k : String) (change : Fields → Fields) (m : Fields)
      → str_eq key k ≡ false
      → get (change_object key change m) k ≡ get m k
  get-change_object_other key k change m h = elim (Option-cases (and_then (get m key) as_object)) [
    | inl p ↦ rw (p, change_object) refl
    | inr (o, p) ↦
        rw (p, change_object) (rw (get-insert m key k (make (object (change o))), h) refl)
  ]

  -- The fields that depend on the request are five.
  get-normalized :
      (request_key k : String) (disable_tools : Bool) (m : Fields)
      → str_eq "client_metadata" k ≡ false
      → str_eq "reasoning" k ≡ false
      → str_eq "text" k ≡ false
      → str_eq "prompt_cache_key" k ≡ false
      → str_eq "include" k ≡ false
      → get (normalize_responses_lite_fields request_key disable_tools m) k
        ≡ get (fixed_fields disable_tools m) k
  unfolding normalize_responses_lite_fields
  get-normalized request_key k disable_tools m a b c d e =
      get-change_object_other "client_metadata" k (lite_metadata request_key) _ a
      ∙ get-or_insert_other "client_metadata" k (json_object []) _ a
      ∙ get-change_object_other "reasoning" k _ _ b
      ∙ get-or_insert_other "reasoning" k _ _ b
      ∙ get-or_insert_other "text" k _ _ c
      ∙ get-or_insert_other "prompt_cache_key" k (json_string request_key) _ d
      ∙ get-or_insert_other "include" k _ (fixed_fields disable_tools m) e

  get-fixed :
      (disable_tools : Bool) (m : Fields)
      → (get (fixed_fields disable_tools (taken_from m)) "tools" ≡ none)
        × (get (fixed_fields disable_tools (taken_from m)) "instructions" ≡ none)
        × (get (fixed_fields disable_tools (taken_from m)) "input" ≡ get m "input")
        × (get (fixed_fields disable_tools (taken_from m)) "store" ≡ some (make (bool false)))
        × (get (fixed_fields disable_tools (taken_from m)) "stream" ≡ some (make (bool true)))
  unfolding fixed_fields
  get-fixed true m = (
    simp (get-insert, get-remove),
    simp (get-insert, get-remove),
    simp (get-insert, get-remove),
    simp get-insert,
    simp get-insert,
  )
  get-fixed false m = (
    simp (get-insert, get-remove),
    simp (get-insert, get-remove),
    simp (get-insert, get-remove),
    simp get-insert,
    simp get-insert,
  )

  get-prewarm_of :
      (kept : Fields) (input : List Value) (k : String)
      → str_eq "input" k ≡ false
      → str_eq "generate" k ≡ false
      → str_eq "tool_choice" k ≡ false
      → get (prewarm_of kept input) k ≡ get kept k
  unfolding prewarm_of
  get-prewarm_of kept input k a b c =
      rw
        (
          get-insert _ "tool_choice" k (json_string "auto"),
          c,
          get-insert _ "generate" k (make (bool false)),
          b,
          get-insert kept "input" k (make (array input)),
          a,
        )
        refl

  get-generate :
      (kept : Fields) (input : List Value)
      → get (prewarm_of kept input) "generate" ≡ some (make (bool false))
  unfolding prewarm_of
  get-generate kept input = simp get-insert

  -- The warmup that `responses_lite_prewarm` makes, and the request that is left after it: they
  -- share every field but the input, `generate` and `tool_choice`; the request keeps the client's
  -- input, loses its tools and instructions, is not stored and streams; the warmup generates
  -- nothing.
  pub responses_lite_prewarm_shares :
      (value model : Value) (request_key k : String) (request warm kept : Fields)
      → as_object value ≡ some request
      → responses_lite_prewarm value model request_key ≡ ok (warm, kept)
      → str_eq "input" k ≡ false
      → str_eq "generate" k ≡ false
      → str_eq "tool_choice" k ≡ false
      → (get warm k ≡ get kept k)
        × (get kept "input" ≡ get request "input")
        × (get kept "tools" ≡ none)
        × (get kept "instructions" ≡ none)
        × (get kept "store" ≡ some (make (bool false)))
        × (get kept "stream" ≡ some (make (bool true)))
        × (get warm "generate" ≡ some (make (bool false)))
  unfolding responses_lite_prewarm
  responses_lite_prewarm_shares value model request_key k request warm kept r h a b c =
      let out : Fields × Fields = (warm, kept) in
      let (m, p, h1) = bind-ok (ok_or (as_object value) _) _ out h in
      let same : m ≡ request = cc (rw r at p) in
      let (base, _, h2) =
        bind-ok (ok_or (and_then (get_field model "base_instructions") as_str) _) _ out h1 in
      let tools = nonempty_array (and_then (get m "tools") as_array) in
      let disable = is_none tools && not (has_inline_tools (remove m "tools")) in
      let client = and_then (get (remove m "tools") "instructions") as_str in
      let left = normalize_responses_lite_fields request_key disable (taken_from m) in
      let input = prewarm_input (unwrap_or tools route_marker_tools) base client in
      let e = ok-injective _ out h2 in
      let kept_e : left ≡ kept = ap (λ (x : Fields × Fields). x.1) e in
      let warm_e : prewarm_of left input ≡ warm = ap (λ (x : Fields × Fields). x.0) e in
      let fixed = λ (j : String). get-normalized request_key j disable (taken_from m) in
      let (f0, f1, f2, f3, f4) = get-fixed disable m in
      let at = λ (j : String). ap (λ n. get n j) (sym kept_e) in
      (
        ap (λ n. get n k) (sym warm_e)
            ∙ get-prewarm_of left input k a b c
            ∙ ap (λ n. get n k) kept_e,
        at "input" ∙ fixed "input" refl refl refl refl refl ∙ f2 ∙ ap (λ n. get n "input") same,
        at "tools" ∙ fixed "tools" refl refl refl refl refl ∙ f0,
        at "instructions" ∙ fixed "instructions" refl refl refl refl refl ∙ f1,
        at "store" ∙ fixed "store" refl refl refl refl refl ∙ f3,
        at "stream" ∙ fixed "stream" refl refl refl refl refl ∙ f4,
        ap (λ n. get n "generate") (sym warm_e) ∙ get-generate left input,
      )
