-- ===== src/Sessions/Tests.antt =====
-- Runs of the session cache (src/http_api/responses_session.rs).
use codex_api.Common.{
  ℕ, pos, List, ◌∷◌, none, ok, String, ◌≡◌, refl, ◌≤◌, ◌⊎◌, true, false, not, some, [], is_none,
  is_empty, length, arith,
}
use codex_api.Sessions.Key.{SessionKey, key_eq}
use codex_api.Sessions.Entries.{Entry, lookup, store, remove}
use codex_api.Sessions.Cache.{
  default, claim, open_session, new_entry, reuse, ready, release, evict, within_budget, idle_count,
  total_bytes, sum_bytes, oldest,
}
use codex_api.Sessions.System.{
  System, Reach, started, streamed, finished, turns_of, has_id, begin_turn, end_turn,
}
use codex_api.Sessions.Exclusion.{claim_refuses, turns_of_one}
use codex_api.Json.Plain.{plain_json}
use codex_api.Json.Trees.{Plain, p_string, p_array, p_object, nil, cons, end, member}
use codex_api.Json.Access.{as_object, as_array, as_str, get_field, index, json_object, json_string}
use codex_api.Auth.Headers.{get_header, has_header}
use codex_api.Auth.Plain.{plain_headers}
use codex_api.Store.Plain.{scaled_decimals, nanosecond_times}
use codex_api.Store.Types.{canceled}
use codex_api.Store.Samples.{now_ms, now, rates, started as open_ledger, started-IsValid}
use codex_api.Pending.Handle.{opened}
use codex_api.Pending.Closing.{calm}
use codex_api.Http.Settled.{Settling}
use codex_api.Upstream.Messages.{text, message}
use codex_api.Http.Relay.{arrived}
use codex_api.Upstream.Passthrough.{
  copy_headers, codex_passthrough_headers, cache_key, codex_request_headers,
}
use codex_api.Upstream.Lite.{
  has_inline_tools, normalize_responses_lite_fields, prewarm_of, prewarm_input, route_marker_tools,
  responses_lite_prewarm,
}
use codex_api.Sessions.Actor.{
  Turn, Actor, Peer, Prepared, previous_id_of, input_of, history_of, metadata_of, copy_metadata,
  parameters_of, plan, connect, incremental, continued, converse, prepare,
}
use codex_api.Sessions.Respond.{Meets, prepares, disconnected, respond}
use codex_api.Sessions.Same.{nothing_held, presented, Shown}
use codex_api.Sessions.Conversation.{served}
use codex_api.Sessions.Talk.{Asked, begins, loses, session_presents_history}
use codex_api.Sessions.Settled.{Dropping, in_calm, Closes, respond_finalizes}
use codex_api.Sessions.Budget.{ready-within_budget, ready_evicts_least}

abbrev alice : SessionKey
alice = record { client = "key_1"; header = "thread_id"; value = "a" }

abbrev bob : SessionKey
bob = record { client = "key_2"; header = "thread_id"; value = "a" }

abbrev initial : System
initial = record { cache = default; turns = [] }

abbrev one_turn : System
one_turn = begin_turn (some alice) 5 initial

one_turn-Reach : Reach one_turn
one_turn-Reach = streamed (some alice) 5 initial started

claim_refuses_example :
    is_none (claim (some alice) 7 one_turn.cache).target
    ≡ not (is_empty (turns_of alice one_turn.turns))
claim_refuses_example = claim_refuses one_turn-Reach alice 7

refused : is_none (claim (some alice) 7 one_turn.cache).target ≡ true
unfolding begin_turn claim open_session new_entry reuse lookup store key_eq
refused = refl

other_session : is_none (claim (some bob) 7 one_turn.cache).target ≡ false
unfolding begin_turn claim open_session new_entry reuse lookup store key_eq
other_session = refl

turns_of_one_example : length (turns_of alice one_turn.turns) ≤ 1
turns_of_one_example = turns_of_one one_turn-Reach alice

ready-within_budget_example :
    (within_budget (ready alice 0 900 9 one_turn.cache).entries ≡ true)
    ⊎ (idle_count (ready alice 0 900 9 one_turn.cache).entries ≡ 0)
ready-within_budget_example = ready-within_budget alice 0 900 9 one_turn.cache (ground arith)

abbrev large : ℕ
large = 40_000_000

-- Two turns whose snapshots exceed the budget together: the older session leaves.
abbrev two_turns : System
two_turns = begin_turn (some bob) 11 (end_turn alice 0 large 9 one_turn)

two_turns-Reach : Reach two_turns
unfolding begin_turn claim open_session new_entry reuse lookup store key_eq turns_of has_id
two_turns-Reach =
    streamed (some bob) 11 (end_turn alice 0 large 9 one_turn)
      (finished alice 0 large 9 one_turn one_turn-Reach refl)

abbrev alice_idle : Entry
alice_idle = record { id = 0; sender = 0; busy = false; last_used = 9; bytes = large }

abbrev bob_idle : Entry
bob_idle = record { id = 1; sender = 1; busy = false; last_used = 15; bytes = large }

ready_evicts_least_example : 9 ≤ 15
unfolding begin_turn end_turn claim open_session new_entry reuse lookup store remove key_eq ready
    release evict within_budget idle_count total_bytes sum_bytes oldest
ready_evicts_least_example =
    ready_evicts_least two_turns-Reach bob 1 large 15 (ground arith) alice bob alice_idle bob_idle
      refl refl refl refl

abbrev hello : List Plain
hello = p_string "hi" ∷ []

abbrev turn : Turn
turn = record {
  body = ("model", p_string "gpt-5") ∷ ("input", p_array (cons (p_string "hi") nil)) ∷ [];
  headers = [];
  model = p_object (member "base_instructions" (p_string "Be brief.") end);
}

abbrev peer : Peer
peer = record {
  connects = λ headers. true;
  warm_up = λ value. ok "resp_warm";
  takes = λ value. true;
}

abbrev actor : Actor
actor = record {
  key = some alice;
  request_key = "codex-api-1";
  connected = true;
  handshake_headers = [];
  upstream_response_id = none;
  snapshot = none;
  bytes = 0;
}

abbrev kept_body : List (String × Plain)
kept_body = normalize_responses_lite_fields "codex-api-1" true (
    ("model", p_string "gpt-5")
    ∷ ("input", p_array (cons (p_string "hi") nil))
    ∷ ("client_metadata", p_object end)
    ∷ [])

abbrev warmup_body : List (String × Plain)
warmup_body = prewarm_of kept_body (prewarm_input route_marker_tools "Be brief." none)

abbrev prepared : Prepared
prepared = record {
  input = hello;
  parameters = parameters_of kept_body warmup_body;
  sent = continued kept_body "resp_warm" hello;
}

prepares_turn : prepare peer (disconnected actor) turn ≡ (actor, ok prepared)
unfolding prepare plan previous_id_of input_of history_of metadata_of copy_metadata
    codex_request_headers codex_passthrough_headers copy_headers cache_key get_header has_header
    responses_lite_prewarm has_inline_tools as_object as_array as_str get_field index json_object
    json_string connect incremental converse
prepares_turn = refl

session_presents_history_example :
    Shown
      (presented (served nothing_held peer (disconnected actor) turn) prepared.sent)
      prepared.input
    × Asked (disconnected actor) turn prepared.input
session_presents_history_example =
    session_presents_history (λ date. false) (λ snapshot. 0) rates nothing_held (disconnected actor)
      actor peer turn prepared (loses (begins actor refl)) (λ v id e. refl) prepares_turn

abbrev settling : Settling
settling = record {
  request = record { request_id = 1; drop_status = canceled; drop_http_status = none };
  first = now;
  second = now;
  first_ms = pos 1_767_225_600_000;
  second_ms = pos 1_767_225_600_000;
  ledger = open_ledger;
  first_clock = now_ms;
  second_clock = now_ms;
  valid = started-IsValid;
}

abbrev dropping : Dropping
dropping = record { now = now; ms = pos 1_767_225_600_000; clock = now_ms }

-- The turn is prepared, and the upstream answers with an error.
abbrev meets : Meets
meets = record {
  race = prepares;
  peer = peer;
  stopping = false;
  waits = true;
  interrupted = false;
  arrivals = arrived (message (text "{\"type\":\"error\"}")) true true ∷ [];
  reserves = true;
  first = calm now;
  second = calm now;
  dropped = calm now;
}

respond_finalizes_example : Closes 1 (
    respond
      (λ date. false)
      (λ snapshot. 0)
      rates
      (in_calm settling dropping meets)
      actor
      turn
      (opened settling.request)
      open_ledger)
respond_finalizes_example =
    respond_finalizes settling dropping (λ date. false) (λ snapshot. 0) rates meets actor turn refl
