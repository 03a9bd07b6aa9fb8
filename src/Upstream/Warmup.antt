-- ===== src/Upstream/Warmup.antt =====
-- src/upstream_ws.rs: `send_responses_prewarm` and `prepare_responses_lite`.
use codex_api.Common.{
  not, Bool, true, false, Option, none, some, List, [], ◌∷◌, String, str_eq, Result, ok, err, ◌>>=◌,
  ◌>>◌, ensure, ok_or, and_then, if◌then◌else◌,
}
use codex_api.Json.{Json, object}
use codex_api.Json.Access.{as_str, as_bool, get_field, pointer, set_index, json_string}
use codex_api.Upstream.Messages.{
  text, binary, ping, pong, frame, close, Received, message, failed, ended,
}
use codex_api.Upstream.Lite.{
  UpstreamWebSocketError, request_error, transport, responses_lite_prewarm,
}

module _ ⦃J : Json⦄ where
  open J use {Value, make, from_str}

  -- What a text of the upstream says of the warmup: it is done with an id, it failed, or it goes on.
  pub data Progress : Type 0 where
    done : String → Progress
    refused : Progress
    goes_on : Progress

  abbrev pub progress_of : Value → Option String → Progress
  progress_of event none = goes_on
  progress_of event (some kind) =
      if str_eq kind "response.completed"
      then (elim (and_then (pointer event "response" "id") as_str) [
        | none ↦ refused
        | some id ↦ done id
      ])
      else if str_eq kind "error"
      then refused
      else if str_eq kind "response.failed"
      then refused
      else if str_eq kind "response.incomplete"
      then refused
      else goes_on

  unfoldable pub progress : String → Progress
  progress received = elim (from_str received) [
    | none ↦ refused
    | some event ↦ progress_of event (and_then (get_field event "type") as_str)
  ]

  -- The loop over what the socket yields; a Boolean says whether a pong would be sent.
  unfoldable pub await_prewarm : List (Received × Bool) → Result UpstreamWebSocketError String
  await_prewarm [] = err request_error
  await_prewarm ((ended, _) ∷ rest) = err request_error
  await_prewarm ((failed, _) ∷ rest) = err transport
  await_prewarm ((message (text received), _) ∷ rest) = elim (progress received) [
    | done id ↦ ok id
    | refused ↦ err request_error
    | goes_on ↦ await_prewarm rest
  ]
  await_prewarm ((message ping, sends) ∷ rest) = elim sends [
    | true ↦ await_prewarm rest
    | false ↦ err transport
  ]
  await_prewarm ((message pong, _) ∷ rest) = await_prewarm rest
  await_prewarm ((message (close _), _) ∷ rest) = err request_error
  await_prewarm ((message binary, _) ∷ rest) = err request_error
  await_prewarm ((message frame, _) ∷ rest) = err request_error

  -- Whether the warmup is sent, and what comes back.
  unfoldable pub send_responses_prewarm :
      Bool → List (Received × Bool) → Result UpstreamWebSocketError String
  send_responses_prewarm sends received = do ensure sends transport; await_prewarm received

  abbrev pub uses_lite : Value → Bool
  uses_lite model = elim (and_then (get_field model "use_responses_lite") as_bool) [
    | none ↦ false
    | some lite ↦ lite
  ]

  -- The request as it is left; the conversation is the environment's. What is left is an object, so
  -- that the indexing does not panic.
  unfoldable pub prepare_responses_lite :
      (Value → Result UpstreamWebSocketError String)
      → Value
      → Value
      → String
      → Result UpstreamWebSocketError Value
  prepare_responses_lite warm_up value model request_key =
      if not (uses_lite model) then ok value else (do
        (prewarm, kept) ← responses_lite_prewarm value model request_key
        id ← warm_up (make (object prewarm))
        ok_or (set_index (make (object kept)) "previous_response_id" (json_string id))
            request_error)
