-- ===== src/Example/Messenger/Server.antt =====
-- The main function of example/messenger/server.c.
use libstomp.Prelude.{ℕ, Option, none, some, Text, text, pos}
use libstomp.Exec.{◌>>=◌, ◌>>◌, deref}
use libstomp.Platform.{Apr}
use libstomp.Machine.{M}
use libstomp.Message.{Message, stomp_message_create}
use libstomp.Properties.{stomp_exchange_get, stomp_creation_time}
use libstomp.Messenger.Base.{Messenger, SubscriptionHeader}
use libstomp.Messenger.Setup.{stomp_messenger_init}
use libstomp.Messenger.Requests.{stomp_subscribe, stomp_disconnect}
use libstomp.Messenger.Exchange.{stomp_receive}
use libstomp.Example.Engine.{print_body}
use libstomp.Example.Messenger.{
  failure_without_message, failure_with_message, clean_up, require, on_endpoint,
}

abbrev pub sub_header : SubscriptionHeader
sub_header = record { id = 1; receipt = 123 }

module _ ⦃apr : Apr⦄ (fuel : ℕ) (garbage : ℕ) where
  -- The body and two properties go to stdout; then the end.
  unfoldable pub show : Message apr → Messenger apr → M ℕ
  unfolding print_body stomp_exchange_get stomp_disconnect require failure_with_message clean_up
  show message m = do
    print_body message.body
    properties ← deref m.exchange_properties
    _ ← stomp_exchange_get properties (text "test")
    _ ← stomp_exchange_get properties stomp_creation_time
    disconnected ← stomp_disconnect fuel garbage m none
    require disconnected (failure_with_message (some message)) (clean_up message)

  -- "Creates a message": stomp_message_create, given no status, returns no null pointer.
  unfoldable pub take_message : Messenger apr → M ℕ
  unfolding stomp_message_create stomp_receive require failure_with_message show
  take_message m = do
    (message, _) ← stomp_message_create none
    blank ← deref message
    (stat, m', message') ← stomp_receive fuel garbage m blank
    require (stat, m') (failure_with_message (some message')) (show message')

  unfoldable pub listen : Messenger apr → M ℕ
  unfolding stomp_subscribe require failure_without_message take_message
  listen m = do
    subscribed ← stomp_subscribe fuel garbage m (some sub_header)
    require subscribed (λ m. failure_without_message (some m)) take_message

  unfoldable pub main : Messenger apr → Option Text → M ℕ
  unfolding stomp_messenger_init on_endpoint failure_without_message listen
  main junk argument = do
    messenger ← stomp_messenger_init junk
    elim messenger [
      | none ↦ failure_without_message none
      | some m ↦ on_endpoint fuel garbage argument (pos 10000) m listen
    ]
