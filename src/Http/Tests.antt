-- ===== src/Http/Tests.antt =====
-- Runs of the handlers of src/http_api.rs.
use codex_api.Common.{ℕ, ◌≡◌, refl, pos, true, false, none, some, List, [], ◌∷◌, ok}
use codex_api.Json.Plain.{plain_json}
use codex_api.Json.Trees.{Plain, p_bool, p_string, p_array, p_object, nil, cons, end, member}
use codex_api.Json.Access.{as_object, as_str, as_bool, index, get_field, json_object, json_string}
use codex_api.Http.Normalize.{
  require_stream, refuse_flag, input_message, wrap_input, normalize_responses_request,
}
use codex_api.Store.Plain.{scaled_decimals, nanosecond_times}
use codex_api.Store.Types.{canceled}
use codex_api.Store.Samples.{now_ms, later_ms, now, later, rates, started, started-IsValid}
use codex_api.Pending.Handle.{opened}
use codex_api.Pending.Closing.{calm}
use codex_api.Upstream.Messages.{text, ping, message}
use codex_api.Http.Relay.{Arrival, arrived, forward_websocket_responses_stream}
use codex_api.Http.Settled.{Settles, Settling, forward_finalizes}
use codex_api.Store.Samples.{empty, empty-IsValid}
use codex_api.Store.Ledger.{select_started}
use codex_api.Config.Plain.{plain_urls}
use codex_api.Config.Samples.{sample, sample_validates}
use codex_api.Auth.Plain.{HeaderList, plain_headers}
use codex_api.Ws.Rows.{Calm}
use codex_api.Sse.Reader.{read_event, eof}
use codex_api.Http.Responses.{responses}
use codex_api.Http.Opened.{Opens, responses_hands_on}
use codex_api.Http.ChatRelay.{ChatArrival, chat_read, forward_chat_stream}
use codex_api.Http.ChatSettled.{ChatSettles, forward_chat_finalizes}
use codex_api.Http.Normalized.{normalize_responses_request_sends}

abbrev request : Plain
request = p_object (
    member "model" (p_string "gpt-5")
      (member "stream" (p_bool true) (member "input" (p_string "hi") end)))

abbrev hi_message : Plain
hi_message = p_object (
    member "type" (p_string "message") (
      member "role" (p_string "user") (
        member "content"
          (p_array (
            cons
              (p_object (member "type" (p_string "input_text") (member "text" (p_string "hi") end)))
              nil))
          end)))

abbrev sent : Plain
sent = p_object (
    member "model" (p_string "gpt-5") (
      member "stream" (p_bool true)
        (member "input" (p_array (cons hi_message nil)) (member "store" (p_bool false) end))))

normalizes : normalize_responses_request request ≡ ok sent
unfolding normalize_responses_request require_stream refuse_flag input_message wrap_input as_object
    json_object json_string
normalizes = refl

normalize_responses_request_sends_example :
    (as_bool (index sent "stream") ≡ some true)
    × (as_bool (index sent "store") ≡ some false)
    × (get_field sent "max_output_tokens" ≡ none)
    × (as_str (index sent "input") ≡ none)
normalize_responses_request_sends_example =
    normalize_responses_request_sends request sent normalizes

abbrev settling : Settling
settling = record {
  request = record { request_id = 1; drop_status = canceled; drop_http_status = some 200 };
  first = now;
  second = later;
  first_ms = pos 1_767_225_600_000;
  second_ms = pos 1_767_225_601_500;
  ledger = started;
  first_clock = now_ms;
  second_clock = later_ms;
  valid = started-IsValid;
}

-- A ping, and an error of the upstream.
abbrev arrivals : List Arrival
arrivals =
    arrived (message ping) true true
    ∷ arrived (message (text "{\"type\":\"error\"}")) true true
    ∷ []

forward_finalizes_example : Settles 1 (
    forward_websocket_responses_stream
      (λ date. false)
      (calm now)
      (calm later)
      rates
      (opened settling.request)
      started
      []
      arrivals)
forward_finalizes_example = forward_finalizes settling (λ date. false) rates [] arrivals

-- An event that tells nothing, and the end of the stream.
abbrev chat_arrivals : List ChatArrival
chat_arrivals =
    chat_read {E = Unit {0}}
      (ok (
        read_event
          (record { event = "message"; id = ""; text = "{}"; retry = none; terminal = none })))
      1
    ∷ chat_read {E = Unit {0}} (ok eof) 0
    ∷ []

forward_chat_finalizes_example : ChatSettles 1 (
    forward_chat_stream
      (calm now)
      (calm later)
      rates
      (opened settling.request)
      started
      true
      chat_arrivals)
forward_chat_finalizes_example = forward_chat_finalizes settling rates true chat_arrivals

abbrev calm_now : Calm (calm now)
calm_now = record { instant = now; ms = pos 1_767_225_600_000; same = refl; clock = now_ms }

abbrev headers : HeaderList
headers = ("authorization", "Bearer sk-b") ∷ ("thread_id", "a") ∷ []

empty_closed : (k : ℕ) → false ≡ false → select_started k empty.rows ≡ none
unfolding select_started
empty_closed k h = refl

responses_hands_on_example :
    Opens
      (λ k. false)
      (responses (calm now) (calm now) (λ model. ok none) sample headers "{}" empty)
responses_hands_on_example =
    responses_hands_on (calm now) (calm now) (λ model. ok none) sample headers (λ k. false) empty
      calm_now calm_now sample_validates empty-IsValid empty_closed "{}"
