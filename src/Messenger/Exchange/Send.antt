-- ===== src/Messenger/Exchange/Send.antt =====
-- stomp_send puts a message on the wire, with the headers that the exchange has gathered.
use libstomp.Prelude.{
  Bool, true, ℕ, ◌<◌, ◌≡◌, strlen, Buffer, ◌∷◌, refl, ◌∙◌, Option, some, Text, text, length, ℤ,
  false, ap,
}
use libstomp.Exec.{bind-done, deref}
use libstomp.Platform.{Apr, Wire, HasMemory, Unsplit}
use libstomp.Io.Read.Arrived.{Arrives}
use libstomp.Messenger.Requests.Receipt.{verdict, Confirmed, Confirmed-mem, submit-Confirmed}
use libstomp.Machine.{State}
use libstomp.Io.Base.{Connection, Frame}
use libstomp.Io.Frame.{content_length}
use libstomp.Io.Frame.Writes.{frame_text, BodyFits}
use libstomp.Properties.{ExchangeProperties}
use libstomp.Message.{Message}
use libstomp.Messenger.Base.{Messenger, SendHeader}
use libstomp.Messenger.Requests.{submit, destination}
use libstomp.Messenger.Requests.Destination.{endpoint, destination_lem}
use libstomp.Messenger.Requests.Submit.{Submitted, Submitted-after, unsent, submit-Submitted}
use libstomp.Messenger.Exchange.{stomp_send, send_frame, send_headers, wants_receipt}

module _ ⦃apr : Apr⦄ where
  -- The SEND frame, with the properties of the exchange, the destination and what the header gives.
  abbrev pub sent_frame :
      Messenger apr → apr.Hash → ℕ → Text → Option SendHeader → Message apr → Frame apr
  sent_frame m table b path header message =
      send_frame
        (send_headers
          (apr.hash_set (apr.hash_copy table) (text "destination") (some (endpoint m b path)))
          header)
        message

module _ ⦃apr : Apr⦄ (wire : Wire apr) (s : apr.Socket) (fuel : ℕ) (garbage : ℕ) (m : Messenger apr)
    (c : Connection apr) (opened : m.connection ≡ some c) (open_socket : c.socket ≡ some s)
    (properties : ExchangeProperties apr) (table : apr.Hash)
    (exchange : m.exchange_properties ≡ some properties) (made : properties.hash ≡ some table)
    (b : ℕ) (path : Text) (rooted : m.uri.path ≡ some (b ∷ path)) where
  pub stomp_send_run :
      (header : Option SendHeader) (message : Message apr) (st : State apr) (receipt : Bool)
      → wants_receipt header ≡ receipt
      → stomp_send fuel garbage m header message st
        ≡ submit fuel garbage m (sent_frame m table b path header message) message.pool receipt st
  unfolding stomp_send
  stomp_send_run header message st receipt asked =
      bind-done (deref m.exchange_properties) _ (ap (λ o. deref o st) exchange)
      ∙ (bind-done (deref properties.hash) _ (ap (λ o. deref o st) made)
          ∙ (bind-done (destination m) _ (destination_lem m b path st rooted)
              ∙ ap
                  (λ r.
                    submit fuel garbage m (sent_frame m table b path header message) message.pool r
                      st)
                  asked))

  -- A messenger with a connection, an endpoint and a table of properties sends a message, for which
  -- no receipt is asked: stomp_send ends. It succeeds and leaves the messenger as it was if the
  -- whole frame has gone, with the command SEND, the properties of the exchange, the destination
  -- and the transaction among its headers, and the body of the message. It fails if a prefix of the
  -- frame has gone, and then takes its message from the engine.
  pub stomp_send-Submitted :
      (header : Option SendHeader) (message : Message apr) (n : ℤ) (st : State apr)
      → wants_receipt header ≡ false
      → content_length (sent_frame m table b path header message) ≡ some n
      → BodyFits message.body n
      → length (frame_text (sent_frame m table b path header message) n) < fuel
      → Submitted wire s m
          (unsent m st)
          (stomp_send fuel garbage m header message)
          (frame_text (sent_frame m table b path header message) n)
          st
  stomp_send-Submitted header message n st silent announced fits enough =
      Submitted-after wire s m (unsent m st) (stomp_send fuel garbage m header message)
        (submit fuel garbage m (sent_frame m table b path header message) message.pool false) _ st
        st (stomp_send_run header message st false silent) refl
        (submit-Submitted wire s fuel garbage m c opened open_socket
          (sent_frame m table b path header message) message.pool n st announced fits enough)

  -- The same messenger asks for a receipt, and a frame has arrived, whose lines the reader takes,
  -- and whose body has a terminator; there is memory, fuel for the frames, and a receive of one
  -- byte or more brings all that it asks for. Then stomp_send ends. If the whole SEND frame has
  -- gone, the reply has been read, and nothing behind it; the call succeeds and leaves the
  -- messenger as it was if the command of the reply starts with RECEIPT, and fails with a message
  -- that has the command and the text of the body if not. If a prefix of the frame has gone, the
  -- call fails with the message of the engine and reads nothing.
  pub stomp_send-Confirmed :
      (memory : HasMemory apr) (unsplit : Unsplit apr wire) {command : Text} {body : Buffer}
      {rest : Text} {input : Text} (arrives : Arrives memory fuel command body rest input) (k : ℕ)
      (ends : strlen body ≡ some k) (header : Option SendHeader) (message : Message apr) (n : ℤ)
      (st : State apr)
      → wire.input s st.net ≡ input
      → wants_receipt header ≡ true
      → content_length (sent_frame m table b path header message) ≡ some n
      → BodyFits message.body n
      → length (frame_text (sent_frame m table b path header message) n) < fuel
      → Confirmed wire s m
          (verdict m command body)
          rest
          input
          (stomp_send fuel garbage m header message)
          (frame_text (sent_frame m table b path header message) n)
          st
  stomp_send-Confirmed memory unsplit {command} {body} {rest} {input} arrives k ends header message
        n st arrived asks announced fits enough =
      Confirmed-mem wire s m (verdict m command body) rest input
        (stomp_send fuel garbage m header message)
        (submit fuel garbage m (sent_frame m table b path header message) message.pool true) _ st
        st.mem (stomp_send_run header message st true asks)
        (submit-Confirmed wire memory unsplit s fuel garbage m c opened open_socket arrives k ends
          (sent_frame m table b path header message) message.pool n st announced fits enough
          arrived)
