-- ===== src/Upstream/Passthrough.antt =====
-- src/upstream_headers.rs: the headers that are passed on to the upstream.
use codex_api.Common.{
  not, ◌&&◌, Option, none, some, List, [], ◌∷◌, String, str_eq, and_then, filter_option,
  if◌then◌else◌,
}
use codex_api.Json.{Json}
use codex_api.Json.Access.{get_field, as_str}
use codex_api.Auth.Headers.{Headers, get_header, has_header}

abbrev pub codex_originator : String
codex_originator = "codex_cli_rs"

abbrev pub codex_version : String
codex_version = "0.159.2"

abbrev pub codex_user_agent : String
codex_user_agent = "codex_cli_rs/0.159.2 (codex-api)"

abbrev pub codex_passthrough_names : List String
codex_passthrough_names =
    "originator" ∷ "session_id" ∷ "thread_id" ∷ "session-id" ∷ "thread-id" ∷ "x-client-request-id"
    ∷ "user-agent" ∷ "x-codex-beta-features" ∷ "x-codex-turn-state" ∷ "x-codex-turn-metadata"
    ∷ "x-codex-window-id" ∷ "x-codex-parent-thread-id" ∷ "x-codex-image-turn-id"
    ∷ "x-openai-subagent" ∷ "x-openai-memgen-request" ∷ "x-responsesapi-include-timing-metrics"
    ∷ "x-openai-internal-codex-responses-lite" ∷ []

module _ ⦃H : Headers⦄ where
  open H use {HeaderMap, HeaderValue, no_headers, insert_header, from_text}

  -- The loop over the names, with the headers so far.
  unfoldable pub copy_headers : HeaderMap → List String → HeaderMap → HeaderMap
  copy_headers source [] headers = headers
  copy_headers source (name ∷ names) headers =
      copy_headers source names (elim (get_header source name) [
        | none ↦ headers
        | some value ↦ insert_header headers name value
      ])

  unfoldable pub codex_passthrough_headers : HeaderMap → HeaderMap
  codex_passthrough_headers source = copy_headers source codex_passthrough_names no_headers

module _ ⦃J : Json⦄ ⦃H : Headers⦄ where
  open J use {Value}
  open H use {HeaderMap, HeaderValue, insert_header, from_text}

  unfoldable pub cache_key : Value → Option HeaderValue
  cache_key body =
      and_then
        (filter_option (λ key. not (str_eq key ""))
          (and_then (get_field body "prompt_cache_key") as_str))
        from_text

  unfoldable pub codex_request_headers : HeaderMap → Value → HeaderMap
  codex_request_headers source body =
      let headers = codex_passthrough_headers source in
      if not (has_header headers "session_id") && not (has_header headers "session-id")
      then elim (cache_key body) [
        | none ↦ headers
        | some session_id ↦ insert_header headers "session_id" session_id
      ]
      else headers
