-- ===== src/Upstream/Messages.antt =====
-- The messages of the crates tungstenite and axum, and what a socket does with them. The payloads of
-- pings and binary messages play no part, and are left out.
use codex_api.Common.{ℕ, Option, String}

pub record CloseFrame : Type 0 where
  pub code : ℕ
  pub reason : String

pub data Message : Type 0 where
  text : String → Message
  binary ping pong frame : Message
  close : Option CloseFrame → Message

-- What `next` yields on a socket: a message, an error, or the end.
pub data Received : Type 0 where
  message : Message → Received
  failed ended : Received
