-- ===== src/Messenger/Session.antt =====
-- A client's calls on a messenger, one after another.
pub mod Effect
pub mod Invariant
pub mod Total
use libstomp.Prelude.{ℕ, ◌≡◌, Option, Text, text, ℤ}
use libstomp.Exec.{done, ◌>>=◌, pure}
use libstomp.Platform.{Apr}
use libstomp.Status.{StatusCode}
use libstomp.Machine.{State, M}
use libstomp.Message.{Message}
use libstomp.Messenger.Base.{
  Messenger, ConnectionHeader, DisconnectionHeader, SubscriptionHeader, AckHeader,
  TransactionHeader, SendHeader,
}
use libstomp.Messenger.Setup.{stomp_set_endpoint}
use libstomp.Messenger.Requests.{
  stomp_disconnect, stomp_subscribe, stomp_unsubscribe, stomp_ack, stomp_nack, stomp_begin,
  stomp_commit, stomp_abort,
}
use libstomp.Messenger.Exchange.{stomp_connect, stomp_send, stomp_receive}

-- The functions of stomp_messenger.h that return a status code, with their arguments.
pub data Call (apr : Apr) : Type 0 where
  set_endpoint : Text → Call apr
  connect : Option ConnectionHeader → ℤ → Call apr
  disconnect : Option DisconnectionHeader → Call apr
  subscribe unsubscribe : Option SubscriptionHeader → Call apr
  ack nack : Option AckHeader → Call apr
  begin commit abort : Option TransactionHeader → Call apr
  send : Option SendHeader → Message apr → Call apr
  receive : Message apr → Call apr

module _ ⦃apr : Apr⦄ (fuel : ℕ) (garbage : ℕ) where
  unfoldable pub perform : Call apr → Messenger apr → M (StatusCode × Messenger apr)
  perform (set_endpoint uri) m = stomp_set_endpoint m uri
  perform (connect header timeout) m = stomp_connect fuel garbage m header timeout
  perform (disconnect header) m = stomp_disconnect fuel garbage m header
  perform (subscribe header) m = stomp_subscribe fuel garbage m header
  perform (unsubscribe header) m = stomp_unsubscribe fuel garbage m header
  perform (ack header) m = stomp_ack fuel garbage m header
  perform (nack header) m = stomp_nack fuel garbage m header
  perform (begin header) m = stomp_begin fuel garbage m header
  perform (commit header) m = stomp_commit fuel garbage m header
  perform (abort header) m = stomp_abort fuel garbage m header
  perform (send header message) m = stomp_send fuel garbage m header message
  perform (receive message) m = do
    (code, m', _) ← stomp_receive fuel garbage m message
    pure (code, m')

  -- The messengers and the states of the process that calls lead to.
  pub data Session (m : Messenger apr) (st : State apr) : Messenger apr → State apr → Type 0 where
    begun : Session m st m st
    called :
        {m' m'' : Messenger apr} {st' st'' : State apr} (c : Call apr) (code : StatusCode)
        → Session m st m' st'
        → perform c m' st' ≡ done ((code, m''), st'')
        → Session m st m'' st''
