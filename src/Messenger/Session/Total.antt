-- ===== src/Messenger/Session/Total.antt =====
-- Every call on a connected messenger ends, but for one reply that faults.
use libstomp.Prelude.{
  Bool, false, ℕ, ◌<◌, ◌≡◌, inl, inr, refl, Option, none, some, ◌∷◌, Text, text, length, ℤ,
  int_limit,
}
use libstomp.Exec.{IfDone, Outcome, done, bind-done, Returns, Returns-value}
use libstomp.Platform.{Apr, Wire, HasMemory, Finished, Codes, Objects}
use libstomp.Machine.{State}
use libstomp.Io.Base.{Connection}
use libstomp.Io.Frame.{content_length}
use libstomp.Io.Frame.Writes.{BodyFits, frame_text}
use libstomp.Engine.{stomp_engine_connect}
use libstomp.Messenger.Base.{Messenger, SubscriptionHeader, SendHeader, fail_with}
use libstomp.Message.{Message}
use libstomp.Messenger.Setup.{stomp_set_endpoint}
use libstomp.Messenger.Setup.Endpoint.{stomp_set_endpoint-Destination}
use libstomp.Messenger.Requests.{
  stomp_write_receipt, submit, not_written, stomp_ack, stomp_nack, stomp_begin, stomp_commit,
  stomp_abort,
}
use libstomp.Messenger.Requests.Frames.{request_text, subscription_headers}
use libstomp.Messenger.Requests.Acknowledge.{ack_asks, acknowledged, unsubscribed}
use libstomp.Messenger.Requests.Total.{Ends, Ends-eq, submit_or-Ends}
use libstomp.Messenger.Requests.Calls.{
  disconnection_asks, subscription_asks, transaction_asks, disconnection, transaction, halts,
  not_written-Ends, stomp_disconnect-Ends, stomp_transaction-Ends, acknowledge-Ends,
  stomp_unsubscribe-Ends, stomp_subscribe-Ends,
}
use libstomp.Messenger.Exchange.{
  connect_headers, stomp_connect, stomp_send, stomp_receive, wants_receipt,
}
use libstomp.Messenger.Exchange.Send.{sent_frame, stomp_send_run}
use libstomp.Messenger.Exchange.Total.{stomp_receive-Ends}
use libstomp.Messenger.Exchange.Connect.{stomp_connect-Ends}
use libstomp.Messenger.Session.{
  Call, set_endpoint, connect, disconnect, subscribe, unsubscribe, ack, nack, begin, commit, abort,
  send, receive, perform,
}

module _ ⦃apr : Apr⦄ (wire : Wire apr) (empty : apr.Hash) (fuel : ℕ) (m : Messenger apr) (b : ℕ)
    (path : Text) (table : apr.Hash) (st : State apr) where
  abbrev Room : Text → apr.Hash → Type 0
  Room command h = length (request_text command h) < fuel

  -- There is more fuel than the frame of the call is long. To subscribe needs no header, to unsubscribe
  -- does. The body of a message has the bytes that its size says. No socket that a call connects has
  -- as many bytes as there is fuel.
  abbrev pub Fits : Call apr → Type 0
  Fits (set_endpoint uri) = Unit
  Fits (connect header timeout) =
      (length (request_text (text "CONNECT") (connect_headers empty header)) < fuel)
      × IfDone
          (λ (a, u).
            (s : apr.Socket)
            → (length (wire.input s u.net) < fuel) × (length (wire.input s u.net) < int_limit))
          (stomp_engine_connect m.connection m.uri.hostname m.uri.port m.pool st)
  Fits (disconnect header) = Room (text "DISCONNECT") (disconnection empty header)
  Fits (subscribe header) =
      (d : SubscriptionHeader)
      → header ≡ some d
      → Room (text "SUBSCRIBE")
          (stomp_write_receipt (subscription_headers m empty b path d) d.receipt)
  Fits (unsubscribe none) = ⊥
  Fits (unsubscribe (some d)) =
      Room (text "UNSUBSCRIBE") (stomp_write_receipt (unsubscribed m empty d) d.receipt)
  Fits (ack header) = Room (text "ACK") (acknowledged empty header)
  Fits (nack header) = Room (text "NACK") (acknowledged empty header)
  Fits (begin header) = Room (text "BEGIN") (transaction empty header)
  Fits (commit header) = Room (text "COMMIT") (transaction empty header)
  Fits (abort header) = Room (text "ABORT") (transaction empty header)
  Fits (send header message) =
      (n : ℤ) × (content_length (sent_frame m table b path header message) ≡ some n)
      × BodyFits message.body n
      × (length (frame_text (sent_frame m table b path header message) n) < fuel)
  Fits (receive message) = Unit

module _ ⦃apr : Apr⦄ where
  -- Whether a call asks for a receipt, and so waits for a reply.
  abbrev pub asks_receipt : Call apr → Bool
  asks_receipt (set_endpoint uri) = false
  asks_receipt (connect header timeout) = false
  asks_receipt (disconnect header) = disconnection_asks header
  asks_receipt (subscribe header) = subscription_asks header
  asks_receipt (unsubscribe header) = subscription_asks header
  asks_receipt (ack header) = ack_asks header
  asks_receipt (nack header) = ack_asks header
  asks_receipt (begin header) = transaction_asks header
  asks_receipt (commit header) = transaction_asks header
  asks_receipt (abort header) = transaction_asks header
  asks_receipt (send header message) = wants_receipt header
  asks_receipt (receive message) = false

module _ ⦃apr : Apr⦄ (wire : Wire apr) (memory : HasMemory apr) (finished : Finished apr wire)
    (codes : Codes apr) (objects : Objects apr) (s : apr.Socket) (fuel : ℕ) (garbage : ℕ)
    (m : Messenger apr) (c : Connection apr) (opened : m.connection ≡ some c)
    (open_socket : c.socket ≡ some s) (table : apr.Hash)
    (exchange : m.exchange_properties ≡ some (record { hash = some table })) (b : ℕ) (path : Text)
    (rooted : m.uri.path ≡ some (b ∷ path)) (st : State apr)
    (enough : length (wire.input s st.net) < fuel)
    (small : length (wire.input s st.net) < int_limit) where
  abbrev Stops : {A : Type 0} → Outcome (A × State apr) → Type 0
  Stops = Ends wire s fuel garbage m c st false

  stops : {A : Type 0} {o : Outcome (A × State apr)} (a : A × State apr) → o ≡ done a → Stops o
  stops =
      halts wire memory finished codes s fuel garbage m c opened open_socket st enough small false

  Returns-Stops :
      {A : Type 0} (P : A × State apr → Type 0) (o : Outcome (A × State apr))
      → Returns P o
      → Stops o
  Returns-Stops P o h = let (a, e, p) = Returns-value P o h in stops a e

  stomp_set_endpoint-Stops : (uri : Text) → Stops (stomp_set_endpoint m uri st)
  stomp_set_endpoint-Stops uri = elim (stomp_set_endpoint-Destination m st uri) [
    | inl (z, (x, rest, e, runs, k)) ↦ stops _ runs
    | inr (z, (r, runs, k)) ↦ stops _ runs
  ]

  stomp_send-Stops :
      (header : Option SendHeader) (message : Message apr) (n : ℤ)
      → content_length (sent_frame m table b path header message) ≡ some n
      → BodyFits message.body n
      → length (frame_text (sent_frame m table b path header message) n) < fuel
      → Ends wire s fuel garbage m c st
          (wants_receipt header)
          (stomp_send fuel garbage m header message st)
  unfolding submit
  stomp_send-Stops header message n announced fits room =
      Ends-eq wire s fuel garbage m c st (wants_receipt header)
        (stomp_send_run wire s fuel garbage m c opened open_socket _ table exchange refl b path
          rooted header message st _ refl)
        (submit_or-Ends wire memory finished codes s fuel garbage m c opened open_socket st enough
          small (not_written fuel garbage m) (sent_frame m table b path header message) message.pool
          (wants_receipt header) n st
          (not_written-Ends wire memory finished codes s fuel garbage m c opened open_socket st
            enough small (wants_receipt header))
          announced fits room refl)

  receive-Stops : (message : Message apr) → Stops (perform fuel garbage (receive message) m st)
  unfolding perform
  receive-Stops message =
      let (a, runs, r) = Returns-value _ (stomp_receive fuel garbage m message st) (
        stomp_receive-Ends wire memory finished codes s fuel garbage m c opened open_socket _ table
          exchange refl message st enough small) in
      stops ((a.0.0, a.0.1), a.1) (bind-done (stomp_receive fuel garbage m message) _ runs)

  -- With memory, with calls that give an object where they succeed, from a peer that has sent all
  -- that it will send, with less than INT_MAX bytes that have arrived, with more fuel than these
  -- than the frame of the call is long, and than any socket has that stomp_connect opens, and for a
  -- message to send whose body has the bytes that are announced: every call on a messenger with a
  -- connection, an endpoint and a table of properties ends with a value, on every input, but for
  -- stomp_unsubscribe without a header. There is one more exception, a fault: the call asked for a
  -- receipt, and a frame came that is no receipt and whose body has no terminator.
  pub perform-Ends :
      (call : Call apr)
      → Fits wire memory.empty fuel m b path table st call
      → Ends wire s fuel garbage m c st (asks_receipt call) (perform fuel garbage call m st)
  unfolding perform stomp_ack stomp_nack stomp_begin stomp_commit stomp_abort fail_with
  perform-Ends (set_endpoint uri) f = stomp_set_endpoint-Stops uri
  perform-Ends (connect header timeout) (room, bound) =
      Returns-Stops _ (stomp_connect fuel garbage m header timeout st) (
        stomp_connect-Ends wire memory finished codes objects fuel garbage m header timeout st room
          bound)
  perform-Ends (disconnect header) room =
      stomp_disconnect-Ends wire memory finished codes s fuel garbage m c opened open_socket st
        enough small header room
  perform-Ends (subscribe header) room =
      stomp_subscribe-Ends wire memory finished codes s fuel garbage m c opened open_socket st
        enough small b path rooted header room
  perform-Ends (unsubscribe none) f = elim f [ ]
  perform-Ends (unsubscribe (some d)) room =
      stomp_unsubscribe-Ends wire memory finished codes s fuel garbage m c opened open_socket st
        enough small d room
  perform-Ends (ack header) room =
      acknowledge-Ends wire memory finished codes s fuel garbage m c opened open_socket st enough
        small _ (text "ACK") header (λ v. tt) room
  perform-Ends (nack header) room =
      acknowledge-Ends wire memory finished codes s fuel garbage m c opened open_socket st enough
        small _ (text "NACK") header
        (not_written-Ends wire memory finished codes s fuel garbage m c opened open_socket st enough
          small (ack_asks header))
        room
  perform-Ends (begin header) room =
      stomp_transaction-Ends wire memory finished codes s fuel garbage m c opened open_socket st
        enough small header (text "BEGIN") room
  perform-Ends (commit header) room =
      stomp_transaction-Ends wire memory finished codes s fuel garbage m c opened open_socket st
        enough small header (text "COMMIT") room
  perform-Ends (abort header) room =
      stomp_transaction-Ends wire memory finished codes s fuel garbage m c opened open_socket st
        enough small header (text "ABORT") room
  perform-Ends (send header message) (n, announced, fits, room) =
      stomp_send-Stops header message n announced fits room
  perform-Ends (receive message) f = receive-Stops message
