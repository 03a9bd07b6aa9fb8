-- ===== src/Ws/Tests.antt =====
-- Runs of the WebSocket sessions (src/ws.rs).
use codex_api.Common.{◌≡◌, refl, pos, true, false, none, some, List, [], ◌∷◌, ok}
use codex_api.Json.Plain.{plain_json}
use codex_api.Json.Trees.{Plain, p_bool, p_string, p_array, p_object, nil, cons, end, member}
use codex_api.Json.Access.{as_object, as_str, json_object, json_string}
use codex_api.Store.Plain.{scaled_decimals}
use codex_api.Store.Types.{responses, web_socket}
use codex_api.Store.Plain.{nanosecond_times}
use codex_api.Store.Ledger.{select_started}
use codex_api.Store.Samples.{now_ms, now, empty, empty-IsValid}
use codex_api.Pending.Closing.{calm}
use codex_api.Upstream.Messages.{text}
use codex_api.Ws.Session.{Connection, Around}
use codex_api.Ws.Handlers.{downstream, stop, Round, run}
use codex_api.Ws.Rows.{Calm}
use codex_api.Ws.Closed.{IsSettled, CalmAround}
use codex_api.Ws.Runs.{RunWell, run_closes}
use codex_api.Config.Plain.{plain_urls}
use codex_api.Config.Validate.{find_price}
use codex_api.Config.Models.{
  capped_effort, rates_of, effective_model, fallback_candidate, model_candidates,
}
use codex_api.Config.Samples.{sample, price, bob, sample_validates}
use codex_api.Auth.Authenticate.{identity}
use codex_api.Http.Normalize.{input_message, wrap_input}
use codex_api.Ws.Prepare.{
  refuses_stream, refuses_store, prepared_payload, PreparedRequest, validation_of, prepare_request,
}
use codex_api.Ws.Prepared.{Streams, prepare_request_sends}

abbrev create : Plain
create = p_object (
    member "type" (p_string "response.create")
      (member "model" (p_string "gpt-5") (member "input" (p_string "hi") end)))

abbrev message : Plain
message = p_object (
    member "type" (p_string "message") (
      member "role" (p_string "user") (
        member "content"
          (p_array (
            cons
              (p_object (member "type" (p_string "input_text") (member "text" (p_string "hi") end)))
              nil))
          end)))

abbrev prepared : PreparedRequest
prepared = record {
  payload = p_object (
      member "type" (p_string "response.create") (
        member "model" (p_string "gpt-5") (
          member "input" (p_array (cons message nil))
            (member "store" (p_bool false) (member "stream" (p_bool true) end)))));
  context = record { api_key_id = "bob"; api_protocol = responses; transport = web_socket };
  candidates = record {
    primary = record { model = "gpt-5"; reasoning_effort = none; rates = rates_of price };
    fallback =
        some (record { model = "gpt-5-mini"; reasoning_effort = none; rates = rates_of price });
  };
}

prepares : prepare_request create sample (identity bob) ≡ ok prepared
unfolding prepare_request validation_of prepared_payload refuses_stream refuses_store identity
    model_candidates fallback_candidate effective_model capped_effort find_price input_message
    wrap_input as_object as_str json_object json_string
prepares = refl

prepare_request_sends_example :
    Streams prepared.payload × (prepared.context.api_key_id ≡ (identity bob).id)
prepare_request_sends_example = prepare_request_sends create sample (identity bob) prepared prepares

abbrev calm_now : Calm (calm now)
calm_now = record { instant = now; ms = pos 1_767_225_600_000; same = refl; clock = now_ms }

-- The sockets take what is sent, and the upstream speaks the relay's protocol.
abbrev around : Around
around = record {
  first = calm now;
  second = calm now;
  client_takes = true;
  upstream_takes = true;
  model = some (
      p_object (
        member "use_responses_lite" (p_bool true)
          (member "base_instructions" (p_string "Be brief.") end)));
  warm_up = λ value. ok "resp_1";
}

abbrev around-CalmAround : CalmAround around
around-CalmAround = record { first = calm_now; second = calm_now }

abbrev rounds : List Round
rounds =
    record {
      event =
          downstream (text "{\"type\":\"response.create\",\"model\":\"gpt-5\",\"input\":\"hi\"}");
      around = around;
      at_end = around;
    }
    ∷ record { event = stop; around = around; at_end = around }
    ∷ []

abbrev idle : Connection
idle = record { active = none; ledger = empty; to_client = []; to_upstream = [] }

idle-IsSettled : IsSettled idle
unfolding select_started
idle-IsSettled = record { valid = empty-IsValid; closed = λ k h. refl }

run_closes_example : RunWell (run (λ date. false) sample (identity bob) rounds idle)
run_closes_example =
    run_closes sample (identity bob) sample_validates (λ date. false) rounds idle
      (around-CalmAround, around-CalmAround, (around-CalmAround, around-CalmAround, tt))
      idle-IsSettled
