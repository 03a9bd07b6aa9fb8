-- ===== src/Http/Relay.antt =====
-- src/http_api.rs: `forward_websocket_responses_stream`, which relays the events of the upstream's
-- socket to the client and settles the request with the terminal event. A panic is `none`.
use codex_api.Common.{
  ℕ, not, ◌&&◌, Bool, true, false, Option, none, some, is_empty, List, [], ◌∷◌, ◌++◌, String,
  str_eq, ◌⧺◌, Result, ok, err, and_then, filter_option, map_option, if◌then◌else◌,
}
use codex_api.Json.{Json, null, array}
use codex_api.Json.Access.{as_str, get_field, index, is_object, pointer, set_index}
use codex_api.Store.Decimals.{Decimals}
use codex_api.Store.Times.{Times}
use codex_api.Store.Types.{
  FinalStatus, completed, incomplete, upstream_error, canceled, BillableUsage, ModelRates,
}
use codex_api.Store.Ledger.{Ledger}
use codex_api.Terminal.Kind.{TerminalKind}
use codex_api.Terminal.Event.{Usage, TerminalEvent, parse_terminal_payload}
use codex_api.Terminal.Capacity.{retryable_capacity_payload}
use codex_api.Pending.Handle.{Handle, Circumstances, finish, finish_terminal}
use codex_api.Upstream.Messages.{
  text, binary, ping, pong, frame, close, Received, message, failed, ended,
}

-- What the relay meets in a round: the server stops or the client goes, or the socket yields
-- something, with whether a pong would be sent and whether the client takes what is sent to it.
pub data Arrival : Type 0 where
  stopped : Arrival
  arrived : Received → Bool → Bool → Arrival

unfoldable pub final_status : TerminalKind → FinalStatus
final_status TerminalKind.completed = completed
final_status TerminalKind.incomplete = incomplete
final_status TerminalKind.failed = upstream_error
final_status TerminalKind.error = upstream_error

unfoldable pub sse_bytes : String → String → String
sse_bytes event_name body = "id: \nevent: " ⧺ event_name ⧺ "\ndata: " ⧺ body ⧺ "\n\n"

module _ ⦃D : Decimals⦄ where
  unfoldable pub billable_usage : Usage → ModelRates → BillableUsage
  billable_usage usage rates = record {
    input_tokens = usage.input_tokens;
    cached_input_tokens = usage.cached_input_tokens;
    output_tokens = usage.output_tokens;
    rates = rates;
  }

module _ ⦃J : Json⦄ where
  open J use {Value, make, from_str, to_text, view}

  -- The event of a text, with its type.
  unfoldable pub read_event : String → Option (Value × String)
  read_event received = elim (from_str received) [
    | none ↦ none
    | some event ↦ map_option (λ name. (event, name)) (and_then (get_field event "type") as_str)
  ]

  unfoldable pub add_item : String → Value → List Value → List Value
  add_item name event items = elim (filter_option is_object (get_field event "item")) [
    | none ↦ items
    | some item ↦ if str_eq name "response.output_item.done" then items ++ item ∷ [] else items
  ]

  -- An output that is missing, null or empty.
  unfoldable pub lacks_output : Option Value → Bool
  lacks_output none = true
  lacks_output (some output) = elim (view output) [
    | null ↦ true
    | array items ↦ is_empty items
    | _ ↦ false
  ]

  -- `payload["response"]["output"] = ...`
  unfoldable pub set_output : Value → List Value → Option Value
  set_output payload items =
      and_then (set_index (index payload "response") "output" (make (array items)))
        (λ response. set_index payload "response" response)

  abbrev pub is_completed : TerminalKind → Bool
  is_completed TerminalKind.completed = true
  is_completed _ = false

  -- The terminal event with the items that came before it, where it has no output of its own.
  unfoldable pub restore_output : List Value → TerminalEvent → Option TerminalEvent
  restore_output items terminal =
      if is_completed terminal.kind
        && not (is_empty items)
        && lacks_output (pointer terminal.payload "response" "output")
      then map_option (λ payload. record terminal { payload = payload })
          (set_output terminal.payload items)
      else some terminal

module _ ⦃J : Json⦄ ⦃D : Decimals⦄ where
  open J use {Value}

  -- The terminal event with its bytes, if the relay came to one; the bytes sent to the client; and
  -- what is left of the request.
  pub record Forwarded : Type 0 where
    pub terminal : Option (TerminalEvent × String)
    pub sent : List String
    pub handle : Handle
    pub ledger : Ledger

  abbrev pub also_sent : String → Option Forwarded → Option Forwarded
  also_sent bytes none = none
  also_sent bytes (some r) = some (record r { sent = bytes ∷ r.sent })

module _ ⦃J : Json⦄ ⦃D : Decimals⦄ ⦃T : Times⦄ where
  open J use {Value, to_text}

  unfoldable pub give_up : Circumstances → FinalStatus → Handle → Ledger → Option Forwarded
  give_up c status handle l = elim (finish c status (some 200) none handle l) [
    | none ↦ none
    | some (_, rest, after) ↦
        some (record { terminal = none; sent = []; handle = rest; ledger = after })
  ]

  abbrev pub settled :
      TerminalEvent
      → String
      → Option (Result (Unit {0}) (Unit {0}) × Handle × Ledger)
      → Option Forwarded
  settled terminal bytes none = none
  settled terminal bytes (some (ok _, rest, after)) =
      some (record { terminal = some (terminal, bytes); sent = []; handle = rest; ledger = after })
  settled terminal bytes (some (err _, rest, after)) =
      some (record { terminal = none; sent = []; handle = rest; ledger = after })

  unfoldable pub settle_terminal :
      Circumstances
      → Circumstances
      → ModelRates
      → List Value
      → TerminalEvent
      → String
      → Handle
      → Ledger
      → Option Forwarded
  settle_terminal c d rates items terminal bytes handle l = elim (restore_output items terminal) [
    | none ↦ none
    | some restored ↦ settled restored bytes (
        finish_terminal c d (final_status restored.kind) 200 200
          (map_option (λ usage. billable_usage usage rates) restored.usage) handle l)
  ]

  -- The name and the text under which an event is relayed.
  abbrev pub relayed : String → String → Option Value → String
  relayed name received none = sse_bytes name received
  relayed name received (some rewritten) = sse_bytes "response.failed" (to_text rewritten)

  module _ (is_http_date : List ℕ → Bool) where
    abbrev pub rewritten_of : Option TerminalEvent → Option (Option Value)
    rewritten_of none = some none
    rewritten_of (some terminal) = retryable_capacity_payload is_http_date terminal

    -- What becomes of one text: the relay ends, or it goes on with the items and sends the bytes.
    pub data Relayed : Type 0 where
      ends : Option Forwarded → Relayed
      goes_on : List Value → String → Relayed

    abbrev pub relay_event :
        (TerminalEvent → String → Option Forwarded)
        → List Value
        → String
        → Option TerminalEvent
        → Option (Option Value)
        → String
        → Relayed
    relay_event settle items name terminal none received = ends none
    relay_event settle items name none (some rewritten) received =
        goes_on items (relayed name received rewritten)
    relay_event settle items name (some terminal) (some rewritten) received =
        ends (settle terminal (relayed name received rewritten))

    unfoldable pub relay_text :
        Circumstances → Circumstances → ModelRates → List Value → String → Handle → Ledger → Relayed
    relay_text c d rates items received handle l = elim (read_event received) [
      | none ↦ ends (give_up c upstream_error handle l)
      | some (event, name) ↦ elim (parse_terminal_payload event) [
        | err _ ↦ ends (give_up c upstream_error handle l)
        | ok terminal ↦
            let seen = add_item name event items in
            relay_event (λ t bytes. settle_terminal c d rates seen t bytes handle l) seen name
              terminal (rewritten_of terminal) received
      ]
    ]

    -- The next round, unless the client does not take the bytes.
    abbrev pub after_text :
        (List Value → Option Forwarded) → Option Forwarded → Bool → Relayed → Option Forwarded
    after_text next refused accepts (ends r) = r
    after_text next refused true (goes_on seen bytes) = also_sent bytes (next seen)
    after_text next refused false (goes_on seen bytes) = refused

    unfoldable pub forward_websocket_responses_stream :
        Circumstances
        → Circumstances
        → ModelRates
        → Handle
        → Ledger
        → List Value
        → List Arrival
        → Option Forwarded
    forward_websocket_responses_stream c d rates handle l items [] = give_up c canceled handle l
    forward_websocket_responses_stream c d rates handle l items (stopped ∷ rest) =
        give_up c canceled handle l
    forward_websocket_responses_stream c d rates handle l items (arrived failed _ _ ∷ rest) =
        give_up c canceled handle l
    forward_websocket_responses_stream c d rates handle l items (arrived ended _ _ ∷ rest) =
        give_up c canceled handle l
    forward_websocket_responses_stream c d rates handle l items
          (arrived (message (text received)) _ accepts ∷ rest) =
        after_text (λ seen. forward_websocket_responses_stream c d rates handle l seen rest)
          (give_up c canceled handle l) accepts (relay_text c d rates items received handle l)
    forward_websocket_responses_stream c d rates handle l items
          (arrived (message ping) sends _ ∷ rest) =
        elim sends [
          | true ↦ forward_websocket_responses_stream c d rates handle l items rest
          | false ↦ give_up c upstream_error handle l
        ]
    forward_websocket_responses_stream c d rates handle l items
          (arrived (message pong) _ _ ∷ rest) =
        forward_websocket_responses_stream c d rates handle l items rest
    forward_websocket_responses_stream c d rates handle l items
          (arrived (message (close _)) _ _ ∷ rest) =
        give_up c upstream_error handle l
    forward_websocket_responses_stream c d rates handle l items
          (arrived (message binary) _ _ ∷ rest) =
        give_up c upstream_error handle l
    forward_websocket_responses_stream c d rates handle l items
          (arrived (message frame) _ _ ∷ rest) =
        give_up c upstream_error handle l
