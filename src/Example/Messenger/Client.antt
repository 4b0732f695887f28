-- ===== src/Example/Messenger/Client.antt =====
-- The main function of example/messenger/client.c.
use libstomp.Prelude.{ℕ, Option, none, some, [], ◌∷◌, ◌++◌, Text, text, pos, negsuc}
use libstomp.Exec.{◌>>=◌, deref}
use libstomp.Platform.{Apr}
use libstomp.Machine.{M}
use libstomp.Message.{Message, stomp_message_create, stomp_message_format}
use libstomp.Properties.{stomp_exchange_add, stomp_exchange_util_ctime}
use libstomp.Messenger.Base.{Messenger, SendHeader, DisconnectionHeader}
use libstomp.Messenger.Setup.{stomp_messenger_init}
use libstomp.Messenger.Requests.{stomp_disconnect}
use libstomp.Messenger.Exchange.{stomp_send}
use libstomp.Example.Messenger.{
  failure_without_message, failure_with_message, clean_up, require, with_status, on_endpoint,
}

abbrev pub send_header : SendHeader
send_header = record { transaction_id = negsuc 0; receipt = 124 }

abbrev pub disconn : DisconnectionHeader
disconn = record { receipt = 124 }

module _ ⦃apr : Apr⦄ (fuel : ℕ) (garbage : ℕ) where
  -- "Disconnects from the broker after receiving the receipt response", and the end.
  unfoldable pub leave : Message apr → Messenger apr → M ℕ
  unfolding require failure_with_message stomp_disconnect clean_up
  leave message m = do
    disconnected ← stomp_disconnect fuel garbage m (some disconn)
    require disconnected (failure_with_message (some message)) (clean_up message)

  -- "Sends the message"
  unfoldable pub deliver : Message apr → Messenger apr → M ℕ
  unfolding require failure_with_message stomp_send leave
  deliver message m = do
    sent ← stomp_send fuel garbage m (some send_header) message
    require sent (failure_with_message (some message)) (leave message)

  -- "Formats the message", and the properties of the exchange.
  unfoldable pub prepare : Message apr → Messenger apr → M ℕ
  unfolding stomp_message_format stomp_exchange_add stomp_exchange_util_ctime require with_status
      failure_with_message deliver
  prepare blank m = do
    message ← stomp_message_format blank (text "HIGH LEVEL API TEST" ++ 0 ∷ []) 19
    properties ← deref m.exchange_properties
    tested ← stomp_exchange_add properties (text "test") (some (text "123"))
    (stat, stamped, status) ← stomp_exchange_util_ctime tested (some m.status)
    require (stat, record (with_status m status) { exchange_properties = some stamped })
        (failure_with_message (some message)) (deliver message)

  -- "Creates a message to be sent". A null message is destroyed.
  unfoldable pub publish : Messenger apr → M ℕ
  unfolding stomp_message_create failure_with_message with_status prepare
  publish m = do
    (message, status) ← stomp_message_create (some m.status)
    elim message [
      | none ↦ failure_with_message none (with_status m status)
      | some blank ↦ prepare blank (with_status m status)
    ]

  -- The message of the status is printed, which reads the null messenger.
  unfoldable pub without_messenger : Option (Messenger apr) → M ℕ
  unfolding failure_without_message
  without_messenger messenger = do m ← deref messenger; failure_without_message (some m)

  unfoldable pub main : Messenger apr → Option Text → M ℕ
  unfolding stomp_messenger_init without_messenger on_endpoint publish
  main junk argument = do
    messenger ← stomp_messenger_init junk
    elim messenger [
      | none ↦ without_messenger none
      | some m ↦ on_endpoint fuel garbage argument (pos 1000) m publish
    ]
