-- ===== src/Upstream/Attempts.antt =====
-- src/upstream_ws.rs and src/upstream_http.rs: a call of the upstream with a credential, and once
-- more with a fresh one if the first is refused.
use codex_api.Common.{ℕ, nat_eq, Bool, true, false, List, [], ◌∷◌, Result, ok, err, if◌then◌else◌}
use codex_api.Credentials.Refresh.{CredentialError, CredentialSnapshot}
use codex_api.Upstream.Lite.{
  UpstreamWebSocketError, credentials, credential_refresh, authentication_rejected,
}

-- What a call did: the credentials that it was tried with and the generations that it asked to
-- refresh.
pub record Trace : Type 0 where
  pub attempts : List CredentialSnapshot
  pub refreshes : List ℕ

-- The credential manager as the calls meet it.
pub record Manager : Type 0 where
  pub credentials_now : Result CredentialError CredentialSnapshot
  pub refresh_after_unauthorized : ℕ → Result CredentialError CredentialSnapshot

module _ {Socket : Type 0} where
  abbrev pub is_rejected : Result UpstreamWebSocketError Socket → Bool
  is_rejected (err authentication_rejected) = true
  is_rejected _ = false

  abbrev pub connect_again :
      (CredentialSnapshot → Result UpstreamWebSocketError Socket)
      → CredentialSnapshot
      → Result CredentialError CredentialSnapshot
      → Result UpstreamWebSocketError Socket × Trace
  connect_again connect_once first (err _) =
      (err credential_refresh, record { attempts = first ∷ []; refreshes = first.generation ∷ [] })
  connect_again connect_once first (ok refreshed) = (
    connect_once refreshed,
    record { attempts = first ∷ refreshed ∷ []; refreshes = first.generation ∷ [] },
  )

  unfoldable pub connect_upstream_websocket :
      Manager
      → (CredentialSnapshot → Result UpstreamWebSocketError Socket)
      → Result UpstreamWebSocketError Socket × Trace
  connect_upstream_websocket manager connect_once = elim manager.credentials_now [
    | err _ ↦ (err credentials, record { attempts = []; refreshes = [] })
    | ok first ↦
        if is_rejected (connect_once first)
        then connect_again connect_once first (manager.refresh_after_unauthorized first.generation)
        else (connect_once first, record { attempts = first ∷ []; refreshes = [] })
  ]

pub data UpstreamHttpError : Type 0 where
  no_credentials no_refresh rejected invalid_header http_transport invalid_models :
      UpstreamHttpError

module _ {Response : Type 0} (status : Response → ℕ) where
  abbrev pub accept_second : Result UpstreamHttpError Response → Result UpstreamHttpError Response
  accept_second (err e) = err e
  accept_second (ok response) = if nat_eq (status response) 401 then err rejected else ok response

  abbrev pub send_again :
      (CredentialSnapshot → Result UpstreamHttpError Response)
      → CredentialSnapshot
      → Result CredentialError CredentialSnapshot
      → Result UpstreamHttpError Response × Trace
  send_again send_once first (err _) =
      (err no_refresh, record { attempts = first ∷ []; refreshes = first.generation ∷ [] })
  send_again send_once first (ok refreshed) = (
    accept_second (send_once refreshed),
    record { attempts = first ∷ refreshed ∷ []; refreshes = first.generation ∷ [] },
  )

  abbrev pub unauthorized : Result UpstreamHttpError Response → Bool
  unauthorized (err _) = false
  unauthorized (ok response) = nat_eq (status response) 401

  unfoldable pub send_json :
      Manager
      → (CredentialSnapshot → Result UpstreamHttpError Response)
      → Result UpstreamHttpError Response × Trace
  send_json manager send_once = elim manager.credentials_now [
    | err _ ↦ (err no_credentials, record { attempts = []; refreshes = [] })
    | ok first ↦
        if unauthorized (send_once first)
        then send_again send_once first (manager.refresh_after_unauthorized first.generation)
        else (send_once first, record { attempts = first ∷ []; refreshes = [] })
  ]
