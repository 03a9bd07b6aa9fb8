-- ===== src/Ws/Prepare.antt =====
-- src/ws.rs: `prepare_request`. Its wrapping of a plain input is that of src/http_api.rs.
use codex_api.Common.{
  not, ◌&&◌, Bool, true, false, Option, none, some, is_some, String, str_eq, Result, ok, ◌>>=◌,
  ◌>>◌, ensure, ok_or, map_err, and_then,
}
use codex_api.Json.{Json, bool, object}
use codex_api.Json.Access.{as_object, as_str, as_bool, is_null, get_field}
use codex_api.Store.Decimals.{Decimals}
use codex_api.Store.Types.{RequestContext, ModelCandidates, responses, web_socket}
use codex_api.Config.Types.{Urls, Config}
use codex_api.Config.Models.{ConfigPanic, model_candidates}
use codex_api.Auth.Authenticate.{ClientIdentity}
use codex_api.Http.Normalize.{wrap_input}

-- The parameter and the message of a `ValidationError`, or a panic of the configuration.
pub data PrepareError : Type 0 where
  validation : String → String → PrepareError
  panic : ConfigPanic → PrepareError

abbrev pub is_create : Option String → Bool
is_create none = false
is_create (some name) = str_eq name "response.create"

abbrev pub is_exactly : Bool → Option Bool → Bool
is_exactly b none = false
is_exactly true (some c) = c
is_exactly false (some c) = not c

module _ ⦃J : Json⦄ where
  open J use {Value, Fields, make, get, insert}

  unfoldable pub refuses_stream : Option Value → Bool
  refuses_stream none = false
  refuses_stream (some stream) = not (is_exactly true (as_bool stream))

  unfoldable pub refuses_store : Option Value → Bool
  refuses_store none = false
  refuses_store (some store) = not (is_null store) && not (is_exactly false (as_bool store))

  unfoldable pub prepared_payload : Fields → Value
  prepared_payload request = make (
      object (
        insert (insert (wrap_input (get request "input") request) "store" (make (bool false)))
          "stream" (make (bool true))))

module _ ⦃J : Json⦄ ⦃D : Decimals⦄ ⦃U : Urls⦄ where
  open J use {Value, Fields, get}

  pub record PreparedRequest : Type 0 where
    pub payload : Value
    pub context : RequestContext
    pub candidates : ModelCandidates

  -- The closure that validates the object, with the payload that it makes of it.
  unfoldable pub validation_of : Value → Config → Result PrepareError (Value × ModelCandidates)
  validation_of value config = do
    request ←
        ok_or (as_object value)
          (validation "type" "WebSocket messages must be response.create objects")
    ensure (is_create (and_then (get request "type") as_str))
        (validation "type" "Only response.create messages are supported")
    model ←
        ok_or (and_then (get request "model") as_str)
          (validation "model" "response.create requires a model")
    found ← map_err panic (
        model_candidates config model
          (and_then (and_then (get request "reasoning") (λ v. get_field v "effort")) as_str))
    candidates ← ok_or found (validation "model" "The requested model is not configured")
    ensure (not (refuses_stream (get request "stream")))
        (validation "stream" "stream must be true in WebSocket mode")
    ensure (not (is_some (get request "background")))
        (validation "background" "background is not used in WebSocket mode")
    ensure (not (is_some (get request "max_output_tokens"))) (
        validation "max_output_tokens"
          "max_output_tokens is not supported by the ChatGPT Codex upstream")
    ensure (not (refuses_store (get request "store")))
        (validation "store" "store must be false in WebSocket mode")
    ok (prepared_payload request, candidates)

  -- A request that is refused goes back as it came.
  unfoldable pub prepare_request :
      Value → Config → ClientIdentity → Result (Value × PrepareError) PreparedRequest
  prepare_request value config identity = do
    (payload, candidates) ← map_err (λ e. (value, e)) (validation_of value config)
    ok (record {
      payload = payload;
      context = record {
        api_key_id = identity.id;
        api_protocol = responses;
        transport = web_socket;
      };
      candidates = candidates;
    })
