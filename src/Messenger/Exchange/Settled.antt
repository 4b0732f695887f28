-- ===== src/Messenger/Exchange/Settled.antt =====
-- A message that is sent and confirmed: no send fails, and the broker has sent a receipt.
use libstomp.Prelude.{
  ℕ, ◌<◌, ◌≡◌, refl, ◌∙◌, true, some, ◌∷◌, Text, Buffer, text, length, strlen, has_prefix, ℤ,
}
use libstomp.Platform.{Apr, Wire, HasMemory, Unsplit, Accepting}
use libstomp.Machine.{State}
use libstomp.Io.Base.{Connection}
use libstomp.Io.Frame.{content_length}
use libstomp.Io.Frame.Writes.{BodyFits, frame_text}
use libstomp.Io.Read.Arrived.{Arrives}
use libstomp.Properties.{ExchangeProperties}
use libstomp.Message.{Message}
use libstomp.Messenger.Base.{Messenger, SendHeader}
use libstomp.Messenger.Requests.Settled.{Settled, submit-Settled}
use libstomp.Messenger.Exchange.{stomp_send}
use libstomp.Messenger.Exchange.Send.{sent_frame, stomp_send_run}

module _ ⦃apr : Apr⦄ (wire : Wire apr) (memory : HasMemory apr) (unsplit : Unsplit apr wire)
    (accepting : Accepting apr) (s : apr.Socket) (fuel : ℕ) (garbage : ℕ) (m : Messenger apr)
    (c : Connection apr) (opened : m.connection ≡ some c) (open_socket : c.socket ≡ some s)
    (properties : ExchangeProperties apr) (table : apr.Hash)
    (exchange : m.exchange_properties ≡ some properties) (made : properties.hash ≡ some table)
    (b : ℕ) (path : Text) (rooted : m.uri.path ≡ some (b ∷ path)) {command : Text} {body : Buffer}
    {rest : Text} {input : Text} (arrives : Arrives memory fuel command body rest input) (n : ℕ)
    (ends : strlen body ≡ some n) (receipt : has_prefix command (text "RECEIPT") ≡ true) where
  -- With memory, receives of one byte or more that bring all that they ask for, sends that do not
  -- fail, a messenger with a connection, an endpoint and a table of properties, and a frame that
  -- has arrived, whose command starts with RECEIPT and whose body has a terminator: stomp_send with
  -- a header that asks for a receipt ends and succeeds. The whole SEND frame has gone, the reply
  -- has been read and nothing behind it, and the messenger is as it was.
  pub stomp_send-Settled :
      (d : SendHeader) (message : Message apr) (k : ℤ) (st : State apr)
      → 0 < d.receipt
      → content_length (sent_frame m table b path (some d) message) ≡ some k
      → BodyFits message.body k
      → length (frame_text (sent_frame m table b path (some d) message) k) < fuel
      → wire.input s st.net ≡ input
      → Settled wire s m
          (stomp_send fuel garbage m (some d) message)
          (frame_text (sent_frame m table b path (some d) message) k)
          rest
          st
  stomp_send-Settled d message k st asks announced fits enough arrived =
      let r =
        submit-Settled wire memory unsplit accepting s fuel garbage m c opened open_socket arrives n
          ends receipt (sent_frame m table b path (some d) message) message.pool k d.receipt st asks
          announced fits enough arrived in
      (
        r.0,
        stomp_send_run wire s fuel garbage m c opened open_socket properties table exchange made b
              path rooted (some d) message st _ refl
            ∙ r.1,
        r.2,
        r.3,
      )
