-- ===== src/Ws/Handlers.antt =====
-- src/ws.rs: the handlers of a WebSocket session, its end, and its loop.
use codex_api.Common.{
  ℕ, not, ◌||◌, Bool, true, false, Option, none, some, is_some, List, [], ◌∷◌, String, Result, ok,
  err, map_option, if◌then◌else◌,
}
use codex_api.Json.{Json, null}
use codex_api.Store.Decimals.{Decimals}
use codex_api.Store.Times.{Times}
use codex_api.Store.Types.{FinalStatus, upstream_error, canceled, internal_error}
use codex_api.Store.Requests.{Outcome, begin_request}
use codex_api.Errors.Api.{websocket_error}
use codex_api.Terminal.Event.{TerminalEvent, parse_terminal_payload}
use codex_api.Config.Types.{Urls, Config}
use codex_api.Auth.Authenticate.{ClientIdentity}
use codex_api.Pending.Handle.{finalize}
use codex_api.Upstream.Messages.{CloseFrame, Message, text, binary, ping, pong, frame, close}
use codex_api.Http.Relay.{final_status, billable_usage, read_event, rewritten_of}
use codex_api.Ws.Prepare.{PrepareError, validation, panic, PreparedRequest, prepare_request}
use codex_api.Ws.Session.{
  ConnectionEnd, shutdown, client_protocol_error, upstream_failure, internal_failure,
  accounting_failure, client_disconnect, upstream_closed, downstream_close_to_upstream,
  upstream_close_to_downstream, normal_close, InFlight, Connection, Around, Handled, send_client,
  send_upstream, close_row, reject, after_admission,
}

module _ ⦃J : Json⦄ ⦃D : Decimals⦄ ⦃T : Times⦄ ⦃U : Urls⦄ where
  open J use {Value, make, from_str, to_text}

  abbrev pub begin_turn :
      Around → ClientIdentity → Connection → Result (Value × PrepareError) PreparedRequest → Handled
  begin_turn around identity c (err (value, panic _)) = none
  begin_turn around identity c (err (value, validation param message)) = some (
      reject around identity value (websocket_error "invalid_request_error" (some param) message) c)
  begin_turn around identity c (ok prepared) = after_admission around prepared.payload c (
      begin_request around.first.db around.first.others prepared.context identity.quota
        prepared.candidates around.first.now c.ledger)

  unfoldable pub handle_create : Config → ClientIdentity → Around → String → Connection → Handled
  handle_create config identity around received c = elim (from_str received) [
    | none ↦ some (
        reject around identity (make null)
          (websocket_error "invalid_request_error" none "response.create must be valid JSON") c)
    | some value ↦ begin_turn around identity c (prepare_request value config identity)
  ]

  -- The flush of the client's socket is left out. The crate axum hands out no frames.
  unfoldable pub handle_downstream :
      Config → ClientIdentity → Around → Message → Connection → Handled
  handle_downstream config identity around (text received) c =
      handle_create config identity around received c
  handle_downstream config identity around binary c = some (some client_protocol_error, c)
  handle_downstream config identity around ping c = some (send_upstream around ping c)
  handle_downstream config identity around pong c = some (send_upstream around pong c)
  handle_downstream config identity around (close received) c =
      some (some (client_disconnect (map_option downstream_close_to_upstream received)), c)
  handle_downstream config identity around frame c = some (some client_protocol_error, c)

module _ ⦃J : Json⦄ ⦃D : Decimals⦄ ⦃T : Times⦄ where
  open J use {Value, make, to_text}
  open T use {OffsetDateTime}

  -- The row of the request in flight is settled with a terminal event; if the store refuses, it is
  -- closed as an upstream error and the connection ends.
  abbrev pub after_settling :
      Around
      → InFlight
      → Message
      → Connection
      → Outcome (Unit {0})
      → Option ConnectionEnd × Connection
  after_settling around request m c (ok _, l) = send_client around m (record c { ledger = l })
  after_settling around request m c (err _, l) = (
    some accounting_failure,
    close_row around.second request.request_id upstream_error (record c { ledger = l }),
  )

  unfoldable pub settle_active :
      Around → TerminalEvent → Message → Connection → Option ConnectionEnd × Connection
  settle_active around terminal m c = elim c.active [
    | none ↦ (some upstream_failure, c)
    | some request ↦
        after_settling around request m (record c { active = none })
          (finalize around.first request.request_id (final_status terminal.kind) none
            (map_option (λ usage. billable_usage usage request.rates) terminal.usage) c.ledger)
  ]

  abbrev pub relayed_text : String → Option Value → Message
  relayed_text received none = text received
  relayed_text received (some rewritten) = text (to_text rewritten)

  abbrev pub relay :
      Around → String → Option TerminalEvent → Option (Option Value) → Connection → Handled
  relay around received terminal none c = none
  relay around received none (some rewritten) c =
      some (send_client around (relayed_text received rewritten) c)
  relay around received (some terminal) (some rewritten) c =
      some (settle_active around terminal (relayed_text received rewritten) c)

  module _ (is_http_date : List ℕ → Bool) where
    unfoldable pub handle_upstream_text : Around → String → Connection → Handled
    handle_upstream_text around received c = elim (read_event received) [
      | none ↦ some (some upstream_failure, c)
      | some (event, _) ↦ elim (parse_terminal_payload event) [
        | err _ ↦ some (some upstream_failure, c)
        | ok terminal ↦ relay around received terminal (rewritten_of is_http_date terminal) c
      ]
    ]

    -- The flush of the upstream's socket is left out.
    unfoldable pub handle_upstream : Around → Message → Connection → Handled
    handle_upstream around (text received) c = handle_upstream_text around received c
    handle_upstream around binary c = some (some upstream_failure, c)
    handle_upstream around frame c = some (some upstream_failure, c)
    handle_upstream around ping c = some (send_client around ping c)
    handle_upstream around pong c = some (send_client around pong c)
    handle_upstream around (close received) c = some (some (upstream_closed received), c)

  unfoldable pub finalize_active : Around → FinalStatus → Connection → Connection
  finalize_active around status c = elim c.active [
    | none ↦ c
    | some request ↦ close_row around.first request.request_id status (record c { active = none })
  ]

  -- The closing frames, sent if the socket still takes them.
  abbrev pub close_downstream : Around → ℕ → String → Connection → Connection
  close_downstream around code reason c =
      (send_client around (close (some (record { code = code; reason = reason }))) c).1

  abbrev pub close_upstream : Around → Option CloseFrame → Connection → Connection
  close_upstream around received c = (send_upstream around (close received) c).1

  unfoldable pub finish : Around → ConnectionEnd → Connection → Connection
  finish around shutdown c = close_downstream around 1001 "Server is shutting down" (
      close_upstream around (some (record { code = 1001; reason = "Server is shutting down" }))
        (finalize_active around canceled c))
  finish around (client_disconnect received) c =
      close_upstream around received (finalize_active around canceled c)
  finish around client_protocol_error c =
      close_downstream around 1003 "Binary application messages are unsupported" (
        close_upstream around
          (some (record { code = 1003; reason = "Binary application messages are unsupported" }))
          (finalize_active around canceled c))
  finish around upstream_failure c =
      close_downstream around 1011 "Upstream WebSocket failure"
        (finalize_active around upstream_error c)
  finish around (upstream_closed received) c =
      if is_some c.active || not (normal_close received)
      then close_downstream around 1011 "Upstream WebSocket failure"
          (finalize_active around upstream_error c)
      else (send_client around (close (map_option upstream_close_to_downstream received)) c).1
  finish around internal_failure c =
      close_downstream around 1011 "Internal WebSocket failure"
        (close_upstream around none (finalize_active around internal_error c))
  finish around accounting_failure c =
      close_upstream around none
        (close_downstream around 1011 "Internal WebSocket accounting failure" c)

-- The events of the connection's `select!`.
pub data ConnectionEvent : Type 0 where
  stop client_gone upstream_gone : ConnectionEvent
  downstream upstream : Message → ConnectionEvent

module _ ⦃J : Json⦄ ⦃D : Decimals⦄ ⦃T : Times⦄ ⦃U : Urls⦄ where
  -- A round of the loop: the event, what its handler meets, and what the end of the connection
  -- meets if this round is the last.
  pub record Round : Type 0 where
    pub event : ConnectionEvent
    pub around : Around
    pub at_end : Around

  -- Whether the connection has ended, and what is left of it.
  abbrev pub after_event :
      (Connection → Option (Bool × Connection)) → Around → Handled → Option (Bool × Connection)
  after_event next at_end none = none
  after_event next at_end (some (none, c)) = next c
  after_event next at_end (some (some end, c)) = some (true, finish at_end end c)

  module _ (is_http_date : List ℕ → Bool) (config : Config) (identity : ClientIdentity) where
    unfoldable pub handle_event : Around → ConnectionEvent → Connection → Handled
    handle_event around stop c = some (some shutdown, c)
    handle_event around client_gone c = some (some (client_disconnect none), c)
    handle_event around upstream_gone c = some (some upstream_failure, c)
    handle_event around (downstream m) c = handle_downstream config identity around m c
    handle_event around (upstream m) c = handle_upstream is_http_date around m c

    unfoldable pub run : List Round → Connection → Option (Bool × Connection)
    run [] c = some (false, c)
    run (round ∷ rounds) c =
        after_event (λ after. run rounds after) round.at_end
          (handle_event round.around round.event c)
