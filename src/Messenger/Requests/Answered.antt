-- ===== src/Messenger/Requests/Answered.antt =====
-- All requests without a body but stomp_disconnect, with a receipt: the frame that is sent, and what
-- the reply makes of it.
use libstomp.Prelude.{ℕ, ◌<◌, ◌≡◌, refl, ◌∙◌, some, ◌∷◌, Text, Buffer, text, length, strlen, arith}
use libstomp.Exec.{done, bind-done}
use libstomp.Status.{StatusCode, failure}
use libstomp.Platform.{Apr, Wire, HasMemory, Unsplit}
use libstomp.Machine.{State, M}
use libstomp.Io.Base.{Connection}
use libstomp.Io.Read.Arrived.{Arrives}
use libstomp.Messenger.Base.{Messenger, SubscriptionHeader, AckHeader, TransactionHeader, fail_with}
use libstomp.Messenger.Requests.{
  new_headers, destination, stomp_write_receipt, ack_headers, not_written, acknowledge, stomp_ack,
  stomp_nack, stomp_subscribe, stomp_unsubscribe, stomp_begin, stomp_commit, stomp_abort,
}
use libstomp.Messenger.Requests.Destination.{destination_lem}
use libstomp.Messenger.Requests.Submit.{unsent, not_written_lem}
use libstomp.Messenger.Requests.Receipt.{verdict, ConfirmedOr}
use libstomp.Messenger.Requests.Confirmed.{
  request_or-Confirmed, request-Confirmed, transaction_text, transactions-Confirmed,
}
use libstomp.Messenger.Requests.Acknowledge.{unacknowledged, unsubscribed}
use libstomp.Messenger.Requests.Frames.{request_text, new_headers_lem, subscription_headers}

module _ ⦃apr : Apr⦄ where
  -- The texts of the acknowledgments, and of the start and the end of a subscription, on a table `h`.
  abbrev pub ack_text : apr.Hash → Text → AckHeader → Text
  ack_text h kind d = request_text kind (ack_headers h d)

  abbrev pub subscription_text : Messenger apr → apr.Hash → ℕ → Text → SubscriptionHeader → Text
  subscription_text m h b path d =
      request_text (text "SUBSCRIBE")
        (stomp_write_receipt (subscription_headers m h b path d) d.receipt)

  abbrev pub unsubscription_text : Messenger apr → apr.Hash → SubscriptionHeader → Text
  unsubscription_text m h d =
      request_text (text "UNSUBSCRIBE") (stomp_write_receipt (unsubscribed m h d) d.receipt)

module _ ⦃apr : Apr⦄ (wire : Wire apr) (memory : HasMemory apr) (unsplit : Unsplit apr wire)
    (s : apr.Socket) (fuel : ℕ) (garbage : ℕ) (m : Messenger apr) (c : Connection apr)
    (opened : m.connection ≡ some c) (open_socket : c.socket ≡ some s) {command : Text}
    {body : Buffer} {rest : Text} {input : Text}
    (arrives : Arrives memory fuel command body rest input) (n : ℕ) (ends : strlen body ≡ some n)
    (st : State apr) (arrived : wire.input s st.net ≡ input) where
  abbrev RepliesOr : Messenger apr → M (StatusCode × Messenger apr) → Text → Type 0
  RepliesOr lost run bs = ConfirmedOr wire s m (verdict m command body) rest input lost run bs st

  acknowledge-Confirmed :
      (failing : M (StatusCode × Messenger apr)) (lost : Messenger apr) (kind : Text)
      (d : AckHeader)
      → ((u : State apr) → u.engine_error ≡ st.engine_error → failing u ≡ done ((failure, lost), u))
      → 0 < d.receipt
      → length (ack_text memory.empty kind d) < fuel
      → RepliesOr lost
          (acknowledge fuel garbage failing kind m (some d))
          (ack_text memory.empty kind d)
  unfolding acknowledge
  acknowledge-Confirmed failing lost kind d fails asks =
      request_or-Confirmed wire memory unsplit s fuel garbage m c opened open_socket arrives n ends
        st arrived failing lost (acknowledge fuel garbage failing kind m (some d)) kind _ d.receipt
        fails asks (bind-done (new_headers m.pool) _ (new_headers_lem memory m.pool st))

  stomp_subscribe-Confirmed :
      (b : ℕ) (path : Text) (d : SubscriptionHeader)
      → m.uri.path ≡ some (b ∷ path)
      → 0 < d.receipt
      → length (subscription_text m memory.empty b path d) < fuel
      → RepliesOr
          (unsent m st)
          (stomp_subscribe fuel garbage m (some d))
          (subscription_text m memory.empty b path d)
  unfolding stomp_subscribe
  stomp_subscribe-Confirmed b path d rooted asks =
      request-Confirmed wire memory unsplit s fuel garbage m c opened open_socket arrives n ends st
        arrived (stomp_subscribe fuel garbage m (some d)) (text "SUBSCRIBE") _ d.receipt asks
        (bind-done (new_headers m.pool) _ (new_headers_lem memory m.pool st)
          ∙ bind-done (destination m) _ (destination_lem m b path _ rooted))

  stomp_unsubscribe-Confirmed :
      (d : SubscriptionHeader)
      → 0 < d.receipt
      → length (unsubscription_text m memory.empty d) < fuel
      → RepliesOr
          (unsent m st)
          (stomp_unsubscribe fuel garbage m (some d))
          (unsubscription_text m memory.empty d)
  unfolding stomp_unsubscribe
  stomp_unsubscribe-Confirmed d asks =
      request-Confirmed wire memory unsplit s fuel garbage m c opened open_socket arrives n ends st
        arrived (stomp_unsubscribe fuel garbage m (some d)) (text "UNSUBSCRIBE") _ d.receipt asks
        (bind-done (new_headers m.pool) _ (new_headers_lem memory m.pool st))

  -- With memory, fuel for the frames, a messenger with a connection and an endpoint, receives of
  -- one byte or more that bring all that they ask for, and a frame that has arrived, whose lines
  -- the reader takes, and whose body has a terminator: stomp_begin, stomp_commit, stomp_abort,
  -- stomp_ack, stomp_nack, stomp_subscribe and stomp_unsubscribe each end on a header that asks for
  -- a receipt. If their whole frame has gone, with what the header gives and the receipt, the reply
  -- has been read, and nothing behind it; the call succeeds and leaves the messenger as it was if
  -- the command of the reply starts with RECEIPT, and fails with a message about the reply if not.
  -- If a prefix of the frame has gone, the call fails and reads nothing, stomp_ack with a message
  -- of its own and the others with that of the engine behind it.
  pub requests-Confirmed :
      (t : TransactionHeader) (a : AckHeader) (d : SubscriptionHeader) (b : ℕ) (path : Text)
      → m.uri.path ≡ some (b ∷ path)
      → 0 < t.receipt
      → 0 < a.receipt
      → 0 < d.receipt
      → length (transaction_text memory.empty (text "COMMIT") t) < fuel
      → length (ack_text memory.empty (text "NACK") a) < fuel
      → length (subscription_text m memory.empty b path d) < fuel
      → length (unsubscription_text m memory.empty d) < fuel
      → RepliesOr
          (unsent m st)
          (stomp_begin fuel garbage m (some t))
          (transaction_text memory.empty (text "BEGIN") t)
        × RepliesOr
            (unsent m st)
            (stomp_commit fuel garbage m (some t))
            (transaction_text memory.empty (text "COMMIT") t)
        × RepliesOr
            (unsent m st)
            (stomp_abort fuel garbage m (some t))
            (transaction_text memory.empty (text "ABORT") t)
        × RepliesOr
            (unacknowledged m)
            (stomp_ack fuel garbage m (some a))
            (ack_text memory.empty (text "ACK") a)
        × RepliesOr
            (unsent m st)
            (stomp_nack fuel garbage m (some a))
            (ack_text memory.empty (text "NACK") a)
        × RepliesOr
            (unsent m st)
            (stomp_subscribe fuel garbage m (some d))
            (subscription_text m memory.empty b path d)
        × RepliesOr
            (unsent m st)
            (stomp_unsubscribe fuel garbage m (some d))
            (unsubscription_text m memory.empty d)
  unfolding stomp_ack stomp_nack fail_with text
  requests-Confirmed t a d b path rooted asks asks_a asks_d room room_a room_d room_u =
      let (began, committed, aborted) =
        transactions-Confirmed wire memory unsplit s fuel garbage m c opened open_socket arrives n
          ends st arrived t asks room in
      (
        began,
        committed,
        aborted,
        acknowledge-Confirmed
            (fail_with m (text "Unable to write the frame data to the underlying connection"))
            (unacknowledged m) (text "ACK") a (λ u e. refl) asks_a (omega arith),
        acknowledge-Confirmed (not_written fuel garbage m) (unsent m st) (text "NACK") a
            (not_written_lem fuel garbage m st) asks_a room_a,
        stomp_subscribe-Confirmed b path d rooted asks_d room_d,
        stomp_unsubscribe-Confirmed d asks_d room_u,
      )
