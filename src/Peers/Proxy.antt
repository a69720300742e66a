-- ===== src/Peers/Proxy.antt =====
-- `ConnectionProxy` of src/PeerManager.h: what is sent on a connection, as a text. `none` is an
-- exception of the json parser or a failed assertion. The callbacks and the opcode are passed on to
-- the socket.
use ash_coin.Base.{
  Bool, true, false, Option, none, some, [], Text, txt, text_eq, ◌>>=◌, if◌then◌else◌,
}
use ash_coin.External.{JsonOps}

-- The sides of a connection that a proxy has.
pub record Proxy : Type 0 where
  pub server : Bool
  pub client : Bool

pub data Side : Type 0 where
  server_side client_side : Side

-- `send`: the side that the text goes out on.
unfoldable pub send : Proxy → Text → Option (Side × Text)
send p message = elim p.server [
  | true ↦ some (server_side, message)
  | false ↦ if p.client then some (client_side, message) else none
]

module _ {J : Type 0} (o : JsonOps J) where
  open o use {null, of_text, set, dump, parse}

  -- `sendMessage`, up to the call of `send`.
  unfoldable pub send_message : (msg msgtype payload : Text) → Option Text
  send_message msg msgtype payload =
      (if text_eq payload [] then some null else parse payload) >>= λ j.
      some (dump (set (set j (txt "message") (of_text msg)) (txt "message-type") (of_text msgtype)))

  unfoldable pub send_request : Text → Option Text
  unfolding send_message
  send_request msg = send_message msg (txt "request") []

  -- The overload with data, which it does not send.
  unfoldable pub send_request_data : (msg payload : Text) → Option Text
  unfolding send_message
  send_request_data msg payload = send_message msg (txt "request") []

  -- `sendRequestFmt`, with the text that is formatted.
  unfoldable pub send_request_fmt : (msg formatted : Text) → Option Text
  unfolding send_message
  send_request_fmt msg formatted = send_message msg (txt "request") formatted

  unfoldable pub send_response : Text → Option Text
  unfolding send_message
  send_response msg = send_message msg (txt "response") []

  unfoldable pub send_response_data : (msg payload : Text) → Option Text
  unfolding send_message
  send_response_data msg payload = send_message msg (txt "response") payload

  unfoldable pub send_error : Text → Option Text
  unfolding send_message
  send_error msg = send_message msg (txt "error") []
