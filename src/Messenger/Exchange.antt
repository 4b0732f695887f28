-- ===== src/Messenger/Exchange.antt =====
-- The connection of a messenger, the messages that it sends and those that it receives.
pub mod Send
pub mod Settled
pub mod Table
pub mod Total
pub mod Greeting
pub mod Connect
pub mod Receive
pub mod Written
pub mod Handshake
use Prim.Native.Nat.{bit_or}
use libstomp.Prelude.{
  ℕ, Bool, true, false, Option, none, some, ◌++◌, text, has_prefix, ltb, ◌==◌, if◌then◌else◌, ℤ,
  printed,
}
use libstomp.Exec.{◌>>=◌, ◌>>◌, deref, pure}
use libstomp.Platform.{Apr}
use libstomp.Status.{StatusCode, failure, success, no_data}
use libstomp.Machine.{M}
use libstomp.Io.Base.{Connection, Frame, stomp_io_last_status}
use libstomp.Io.Frame.{stomp_write}
use libstomp.Io.Read.{Incoming, frame, no_frame, stomp_read, stomp_io_can_read}
use libstomp.Engine.{stomp_engine_connect}
use libstomp.Message.{Message, stomp_message_format}
use libstomp.Messenger.Base.{
  Messenger, Credentials, ConnectionHeader, SendHeader, messenger_status_set, fail_with,
  fail_with_engine,
}
use libstomp.Messenger.Setup.{stomp_messenger_set_timeout}
use libstomp.Messenger.Requests.{
  new_headers, request, destination, stomp_write_receipt, stomp_write_transaction_id, submit,
}

module _ ⦃apr : Apr⦄ where
  abbrev login : apr.Hash → Option Credentials → apr.Hash
  login h none = h
  login h (some c) =
      apr.hash_set (apr.hash_set h (text "login") c.username) (text "passcode") c.password

  -- The headers of the CONNECT frame.
  unfoldable pub connect_headers : apr.Hash → Option ConnectionHeader → apr.Hash
  connect_headers h header =
      apr.hash_set (elim header [ none ↦ h | some c ↦ login h c.credentials ])
        (text "accept-version") (some (text "1.2"))

  abbrev pub send_headers : apr.Hash → Option SendHeader → apr.Hash
  send_headers h none = h
  send_headers h (some d) =
      stomp_write_receipt (stomp_write_transaction_id h d.transaction_id) d.receipt

  abbrev pub wants_receipt : Option SendHeader → Bool
  wants_receipt none = false
  wants_receipt (some d) = ltb 0 d.receipt

  abbrev pub send_frame : apr.Hash → Message apr → Frame apr
  send_frame h message = record {
    command = text "SEND";
    headers = some h;
    body = message.body;
    body_length = message.size;
  }

  -- apr_hash_overlay(messenger->pool, frame->headers, messenger->exchange_properties->hash)
  unfoldable pub overlay_properties : Messenger apr → Option apr.Hash → M (Messenger apr)
  overlay_properties m headers = do
    properties ← deref m.exchange_properties
    base ← deref properties.hash
    over ← deref headers
    pure (record m {
      exchange_properties = some (record { hash = some (apr.hash_overlay over base) });
    })

  unfoldable pub accept :
      Messenger apr → Message apr → Incoming apr → M (StatusCode × Messenger apr × Message apr)
  unfolding overlay_properties stomp_message_format stomp_io_last_status messenger_status_set
  accept m message (no_frame stat) = if stat == apr.timeup then pure (success, m, message) else (do
    io_status ← stomp_io_last_status
    pure (
      failure,
      messenger_status_set m failure (
          text "Unable to read the frame data from the underlying connection: "
          ++ printed io_status.message),
      message,
    ))
  accept m message (frame f) = do
    bytes ← deref f.body
    message' ← stomp_message_format message bytes f.body_length
    m' ← overlay_properties m f.headers
    pure (if has_prefix f.command (text "MESSAGE") then success else failure, m', message')

module _ ⦃apr : Apr⦄ (fuel : ℕ) (garbage : ℕ) where
  unfoldable pub check_connected : Messenger apr → Incoming apr → M (StatusCode × Messenger apr)
  unfolding fail_with_engine fail_with
  check_connected m (no_frame stat) =
      fail_with_engine m (text "Unable to read the frame data to the underlying connection: ")
  check_connected m (frame reply_frame) =
      if has_prefix reply_frame.command (text "CONNECTED")
      then pure (success, m)
      else fail_with m (text "Invalid connection reply: " ++ reply_frame.command)

  -- The reply to the CONNECT frame, by what stomp_io_can_read has returned.
  unfoldable pub greeting_from :
      Messenger apr → Connection apr → Bool → M (StatusCode × Messenger apr)
  unfolding fail_with check_connected
  greeting_from m connection false = fail_with m (text "Timed out while trying to read data")
  greeting_from m connection true = do
    reply ← stomp_read fuel connection m.pool garbage
    check_connected m reply

  unfoldable pub greeting : Messenger apr → Connection apr → M (StatusCode × Messenger apr)
  unfolding greeting_from
  greeting m connection = do
    can_read ← stomp_io_can_read connection
    greeting_from m connection can_read

  -- The handshake on a connection that is open.
  unfoldable pub handshake :
      Messenger apr → Option ConnectionHeader → M (StatusCode × Messenger apr)
  unfolding new_headers connect_headers fail_with_engine greeting
  handshake m header = do
    h ← new_headers m.pool
    connection ← deref m.connection
    stat ← stomp_write fuel connection (request (text "CONNECT") (connect_headers h header)) m.pool
    elim (stat == 0) [
      | false ↦
          fail_with_engine m (text "Unable to write the frame data to the underlying connection: ")
      | true ↦ greeting m connection
    ]

  -- What follows stomp_engine_connect, by the status that it has returned.
  unfoldable pub connect_from :
      Messenger apr → Option ConnectionHeader → ℤ → ℕ → M (StatusCode × Messenger apr)
  unfolding fail_with_engine stomp_messenger_set_timeout handshake
  connect_from m header timeout stat = elim (stat == 0) [
    | false ↦ fail_with_engine m (text "Unable to connect to the broker service: ")
    | true ↦ do stomp_messenger_set_timeout m timeout; handshake m header
  ]

  unfoldable pub stomp_connect :
      Messenger apr → Option ConnectionHeader → ℤ → M (StatusCode × Messenger apr)
  unfolding stomp_engine_connect connect_from
  stomp_connect m header timeout = do
    (stat, connection) ← stomp_engine_connect m.connection m.uri.hostname m.uri.port m.pool
    connect_from (record m { connection = connection }) header timeout stat

  unfoldable pub stomp_send :
      Messenger apr → Option SendHeader → Message apr → M (StatusCode × Messenger apr)
  unfolding destination stomp_write_receipt stomp_write_transaction_id submit
  stomp_send m header message = do
    properties ← deref m.exchange_properties
    h ← deref properties.hash
    path ← destination m
    let h' = apr.hash_set (apr.hash_copy h) (text "destination") path
    submit fuel garbage m (send_frame (send_headers h' header) message) message.pool
        (wants_receipt header)

  -- The end of stomp_receive, by what stomp_io_can_read has returned.
  unfoldable pub receive_from :
      Messenger apr
      → Message apr
      → Connection apr
      → Bool
      → M (StatusCode × Messenger apr × Message apr)
  unfolding accept messenger_status_set
  receive_from m message connection false = pure (
    bit_or success no_data,
    messenger_status_set m (bit_or success no_data) (text "Timed out while trying to read data"),
    message,
  )
  receive_from m message connection true = do
    incoming ← stomp_read fuel connection message.pool garbage
    accept m message incoming

  -- The header is not looked at.
  unfoldable pub stomp_receive :
      Messenger apr → Message apr → M (StatusCode × Messenger apr × Message apr)
  unfolding receive_from
  stomp_receive m message = do
    connection ← deref m.connection
    can_read ← stomp_io_can_read connection
    receive_from m message connection can_read
