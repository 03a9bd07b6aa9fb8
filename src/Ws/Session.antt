-- ===== src/Ws/Session.antt =====
-- src/ws.rs: `WsSession`, with its handlers. A handler returns the end of the connection, if it comes
-- to one, and the connection that is left; `none` is a panic. A send is logged if its socket takes it.
use codex_api.Common.{
  ℕ, ◌||◌, Bool, true, Option, none, some, is_some, List, [], ◌∷◌, ◌++◌, String, ◌⧺◌, nat_eq,
  Result, ok, err, and_then, filter_option, unwrap_or, if◌then◌else◌,
}
use codex_api.Json.{Json}
use codex_api.Json.Access.{as_str, get_field}
use codex_api.Store.Decimals.{Decimals}
use codex_api.Store.Times.{Times}
use codex_api.Store.Types.{
  FinalStatus, rejected, upstream_error, responses, web_socket, ModelRates, EffectiveModel,
  Admission, admitted, weekly_quota_exceeded,
}
use codex_api.Store.Ledger.{Ledger}
use codex_api.Store.Requests.{Outcome, record_rejection}
use codex_api.Errors.Api.{websocket_error}
use codex_api.Config.Models.{apply_effective_request}
use codex_api.Auth.Authenticate.{ClientIdentity}
use codex_api.Chat.Upstream.{show_number}
use codex_api.Pending.Handle.{Circumstances, finalize}
use codex_api.Upstream.Messages.{CloseFrame, Message, text}
use codex_api.Upstream.Lite.{UpstreamWebSocketError}
use codex_api.Upstream.Warmup.{uses_lite, prepare_responses_lite}

pub data ConnectionEnd : Type 0 where
  shutdown client_protocol_error upstream_failure internal_failure accounting_failure :
      ConnectionEnd
  client_disconnect upstream_closed : Option CloseFrame → ConnectionEnd

-- The codes are those that travel, in both directions.
unfoldable pub downstream_close_to_upstream : CloseFrame → CloseFrame
downstream_close_to_upstream received = record { code = received.code; reason = received.reason }

unfoldable pub upstream_close_to_downstream : CloseFrame → CloseFrame
upstream_close_to_downstream received = record { code = received.code; reason = received.reason }

abbrev pub normal_close : Option CloseFrame → Bool
normal_close none = true
normal_close (some received) = nat_eq received.code 1000 || nat_eq received.code 1001

module _ ⦃D : Decimals⦄ where
  pub record InFlight : Type 0 where
    pub request_id : ℕ
    pub rates : ModelRates

  -- The session's own state, the ledger of the service, and what went out on each socket.
  pub record Connection : Type 0 where
    pub active : Option InFlight
    pub ledger : Ledger
    pub to_client : List Message
    pub to_upstream : List Message

module _ ⦃J : Json⦄ ⦃D : Decimals⦄ ⦃T : Times⦄ where
  open J use {Value, make, from_str, to_text}
  open T use {OffsetDateTime}

  -- What a handler meets: its first and its second call of the store, whether the sockets take what
  -- is sent, the upstream's model, and the answer to a warmup.
  pub record Around : Type 0 where
    pub first : Circumstances
    pub second : Circumstances
    pub client_takes : Bool
    pub upstream_takes : Bool
    pub model : Option Value
    pub warm_up : Value → Result UpstreamWebSocketError String

  abbrev pub Handled : Type 0
  Handled = Option (Option ConnectionEnd × Connection)

  unfoldable pub send_client : Around → Message → Connection → Option ConnectionEnd × Connection
  send_client around m c =
      if around.client_takes
      then (none, record c { to_client = c.to_client ++ m ∷ [] })
      else (some (client_disconnect none), c)

  unfoldable pub send_upstream : Around → Message → Connection → Option ConnectionEnd × Connection
  send_upstream around m c =
      if around.upstream_takes
      then (none, record c { to_upstream = c.to_upstream ++ m ∷ [] })
      else (some upstream_failure, c)

  abbrev pub send_error : Around → Value → Connection → Option ConnectionEnd × Connection
  send_error around error c = send_client around (text (to_text error)) c

  -- A call of the store that finalizes a request; its result is not looked at.
  abbrev pub close_row : Circumstances → ℕ → FinalStatus → Connection → Connection
  close_row at id status c = record c { ledger = (finalize at id status none none c.ledger).1 }

  unfoldable pub rejection : Around → ClientIdentity → Value → Ledger → Outcome ℕ
  rejection around identity value l =
      record_rejection around.first.db.1
        (record { api_key_id = identity.id; api_protocol = responses; transport = web_socket })
        (unwrap_or (and_then (get_field value "model") as_str) "")
        (and_then (and_then (get_field value "reasoning") (λ r. get_field r "effort")) as_str) none
        around.first.now l

  abbrev pub after_rejection :
      Around → Value → Connection → Outcome ℕ → Option ConnectionEnd × Connection
  after_rejection around error c (err _, l) = (some internal_failure, record c { ledger = l })
  after_rejection around error c (ok _, l) = send_error around error (record c { ledger = l })

  unfoldable pub reject :
      Around → ClientIdentity → Value → Value → Connection → Option ConnectionEnd × Connection
  reject around identity value error c =
      after_rejection around error c (rejection around identity value c.ledger)

  -- The upstream's model, if it takes the protocol that the relay speaks.
  abbrev pub lite_model : Around → Option Value
  lite_model around = filter_option uses_lite around.model

  abbrev pub fail_turn : Around → ℕ → Connection → Option ConnectionEnd × Connection
  fail_turn around id c = (some upstream_failure, close_row around.second id upstream_error c)

  abbrev pub after_send :
      Around
      → ℕ
      → ModelRates
      → Option ConnectionEnd × Connection
      → Option ConnectionEnd × Connection
  after_send around id rates (some _, c) = fail_turn around id c
  after_send around id rates (none, c) =
      (none, record c { active = some (record { request_id = id; rates = rates }) })

  abbrev pub send_turn :
      Around
      → ℕ
      → ModelRates
      → Connection
      → Result UpstreamWebSocketError Value
      → Option ConnectionEnd × Connection
  send_turn around id rates c (err _) = fail_turn around id c
  send_turn around id rates c (ok payload) =
      after_send around id rates (send_upstream around (text (to_text payload)) c)

  -- The turn of an admitted request.
  unfoldable pub start_turn : Around → ℕ → EffectiveModel → Value → Connection → Handled
  start_turn around id effective payload c = elim (apply_effective_request payload effective) [
    | none ↦ none
    | some body ↦ elim (lite_model around) [
      | none ↦ some (fail_turn around id c)
      | some model ↦ some (
          send_turn around id effective.rates c
            (prepare_responses_lite around.warm_up body model ("codex-api-" ⧺ show_number id)))
    ]
  ]

  abbrev pub in_progress_error : Value
  in_progress_error =
      websocket_error "response_in_progress" none
        "A response is already in progress on this connection"

  abbrev pub after_refusal :
      Around → Connection → Outcome (Unit {0}) → Option ConnectionEnd × Connection
  after_refusal around c (err _, l) = (some internal_failure, record c { ledger = l })
  after_refusal around c (ok _, l) = send_error around in_progress_error (record c { ledger = l })

  -- An admitted request while another is in flight is closed as rejected.
  unfoldable pub refuse_turn : Around → ℕ → Connection → Option ConnectionEnd × Connection
  refuse_turn around id c =
      after_refusal around c (finalize around.second id rejected none none c.ledger)

  abbrev pub after_admission : Around → Value → Connection → Outcome Admission → Handled
  after_admission around payload c (err _, l) =
      some (some internal_failure, record c { ledger = l })
  after_admission around payload c (ok weekly_quota_exceeded, l) = some (
      send_error around
        (websocket_error "weekly_quota_exceeded" none
          "The configured weekly quota has been exceeded")
        (record c { ledger = l }))
  after_admission around payload c (ok (admitted id effective), l) =
      if is_some c.active
      then some (refuse_turn around id (record c { ledger = l }))
      else start_turn around id effective payload (record c { ledger = l })
