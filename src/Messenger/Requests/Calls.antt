-- ===== src/Messenger/Requests/Calls.antt =====
-- The requests without a body end on every input, but for one reply that faults.
use libstomp.Prelude.{
  ℕ, ◌<◌, ◌≡◌, refl, ◌∙◌, Bool, false, Option, none, some, ◌∷◌, ltb, Text, text, length, negsuc,
  int_limit,
}
use libstomp.Exec.{Outcome, done, ◌>>=◌, bind-done}
use libstomp.Platform.{Apr, Wire, HasMemory, Finished, Codes}
use libstomp.Status.{StatusCode}
use libstomp.Machine.{State, M}
use libstomp.Io.Base.{Connection}
use libstomp.Messenger.Base.{
  Messenger, DisconnectionHeader, SubscriptionHeader, AckHeader, TransactionHeader, fail_with,
  fail_with_engine,
}
use libstomp.Messenger.Requests.{
  new_headers, destination, stomp_write_receipt, stomp_write_transaction_id, request, submit_or,
  submit, not_written, stomp_disconnect, stomp_subscribe, stomp_unsubscribe, acknowledge,
  stomp_transaction,
}
use libstomp.Messenger.Requests.Destination.{destination_lem}
use libstomp.Messenger.Requests.Frames.{
  request-content_length, request_text, new_headers_lem, subscription_headers,
}
use libstomp.Messenger.Requests.Acknowledge.{ack_asks, acknowledged, unsubscribed}
use libstomp.Messenger.Requests.Total.{Ends, Ends-eq, submit_or-Ends}

module _ ⦃apr : Apr⦄ where
  -- The headers of the calls without a body, with the receipt where one is asked for.
  abbrev pub disconnection : apr.Hash → Option DisconnectionHeader → apr.Hash
  disconnection h none = h
  disconnection h (some d) = stomp_write_receipt h d.receipt

  abbrev pub transaction : apr.Hash → Option TransactionHeader → apr.Hash
  transaction h none = h
  transaction h (some d) =
      stomp_write_receipt (stomp_write_transaction_id h d.transaction_id) d.receipt

-- Whether a header asks for a receipt.
abbrev pub disconnection_asks : Option DisconnectionHeader → Bool
disconnection_asks none = false
disconnection_asks (some d) = ltb 0 d.receipt

abbrev pub subscription_asks : Option SubscriptionHeader → Bool
subscription_asks none = false
subscription_asks (some d) = ltb 0 d.receipt

abbrev pub transaction_asks : Option TransactionHeader → Bool
transaction_asks none = false
transaction_asks (some d) = ltb 0 d.receipt

module _ ⦃apr : Apr⦄ (wire : Wire apr) (memory : HasMemory apr) (finished : Finished apr wire)
    (codes : Codes apr) (s : apr.Socket) (fuel : ℕ) (garbage : ℕ) (m : Messenger apr)
    (c : Connection apr) (opened : m.connection ≡ some c) (open_socket : c.socket ≡ some s)
    (st : State apr) (enough : length (wire.input s st.net) < fuel)
    (small : length (wire.input s st.net) < int_limit) where
  abbrev pub Halts : Bool → {A : Type 0} → Outcome (A × State apr) → Type 0
  Halts asks = Ends wire s fuel garbage m c st asks

  abbrev begun : State apr
  begun = record st { mem = (apr.hash_make (some m.pool) st.mem).1 }

  pub halts :
      (asks : Bool) {A : Type 0} {o : Outcome (A × State apr)} (a : A × State apr)
      → o ≡ done a
      → Halts asks o
  halts asks a e = Ends-eq wire s fuel garbage m c st asks {o' = done a} e tt

  -- A request on a new table, which `submit_or` sends.
  request-Ends :
      (failing run : M (StatusCode × Messenger apr)) (command : Text) (h : apr.Hash) (asks : Bool)
      → ((v : State apr) → Halts asks (failing v))
      → length (request_text command h) < fuel
      → run st ≡ submit_or fuel garbage failing m (request command h) m.pool asks begun
      → Halts asks (run st)
  request-Ends failing run command h asks fails room e =
      Ends-eq wire s fuel garbage m c st asks
        {o' = submit_or fuel garbage failing m (request command h) m.pool asks begun} e
        (submit_or-Ends wire memory finished codes s fuel garbage m c opened open_socket st enough
          small failing (request command h) m.pool asks (negsuc 0) begun fails
          (request-content_length command h) tt room refl)

  pub not_written-Ends : (asks : Bool) (v : State apr) → Halts asks (not_written fuel garbage m v)
  unfolding fail_with_engine fail_with
  not_written-Ends asks v = tt

  submit-Ends :
      (run : M (StatusCode × Messenger apr)) (command : Text) (h : apr.Hash) (asks : Bool)
      → length (request_text command h) < fuel
      → run st ≡ submit fuel garbage m (request command h) m.pool asks begun
      → Halts asks (run st)
  unfolding submit
  submit-Ends run command h asks =
      request-Ends (not_written fuel garbage m) run command h asks (not_written-Ends asks)

  abbrev headed :
      {B : Type 0} (f : apr.Hash → M B) → (new_headers m.pool >>= f) st ≡ f memory.empty begun
  headed f = bind-done (new_headers m.pool) f (new_headers_lem memory m.pool st)

  pub stomp_disconnect-Ends :
      (header : Option DisconnectionHeader)
      → length (request_text (text "DISCONNECT") (disconnection memory.empty header)) < fuel
      → Halts (disconnection_asks header) (stomp_disconnect fuel garbage m header st)
  unfolding stomp_disconnect
  stomp_disconnect-Ends none room =
      submit-Ends (stomp_disconnect fuel garbage m none) (text "DISCONNECT") _ false room (headed _)
  stomp_disconnect-Ends (some d) room =
      submit-Ends (stomp_disconnect fuel garbage m (some d)) (text "DISCONNECT") _ (ltb 0 d.receipt)
        room (headed _)

  pub stomp_transaction-Ends :
      (header : Option TransactionHeader) (command : Text)
      → length (request_text command (transaction memory.empty header)) < fuel
      → Halts (transaction_asks header) (stomp_transaction fuel garbage m header command st)
  unfolding stomp_transaction
  stomp_transaction-Ends none command room =
      submit-Ends (stomp_transaction fuel garbage m none command) command _ false room (headed _)
  stomp_transaction-Ends (some d) command room =
      submit-Ends (stomp_transaction fuel garbage m (some d) command) command _ (ltb 0 d.receipt)
        room (headed _)

  pub acknowledge-Ends :
      (failing : M (StatusCode × Messenger apr)) (command : Text) (header : Option AckHeader)
      → ((v : State apr) → Halts (ack_asks header) (failing v))
      → length (request_text command (acknowledged memory.empty header)) < fuel
      → Halts (ack_asks header) (acknowledge fuel garbage failing command m header st)
  unfolding acknowledge
  acknowledge-Ends failing command none fails room =
      request-Ends failing (acknowledge fuel garbage failing command m none) command _ false fails
        room (headed _)
  acknowledge-Ends failing command (some d) fails room =
      request-Ends failing (acknowledge fuel garbage failing command m (some d)) command _
        (ltb 0 d.receipt) fails room (headed _)

  pub stomp_unsubscribe-Ends :
      (d : SubscriptionHeader)
      → length (
          request_text
            (text "UNSUBSCRIBE")
            (stomp_write_receipt (unsubscribed m memory.empty d) d.receipt))
        < fuel
      → Halts (ltb 0 d.receipt) (stomp_unsubscribe fuel garbage m (some d) st)
  unfolding stomp_unsubscribe
  stomp_unsubscribe-Ends d room =
      submit-Ends (stomp_unsubscribe fuel garbage m (some d)) (text "UNSUBSCRIBE") _
        (ltb 0 d.receipt) room (headed _)

  -- A header is asked for before anything is sent.
  pub stomp_subscribe-Ends :
      (b : ℕ) (path : Text)
      → m.uri.path ≡ some (b ∷ path)
      → (header : Option SubscriptionHeader)
      → ((d : SubscriptionHeader)
          → header ≡ some d
          → length (
              request_text
                (text "SUBSCRIBE")
                (stomp_write_receipt (subscription_headers m memory.empty b path d) d.receipt))
            < fuel)
      → Halts (subscription_asks header) (stomp_subscribe fuel garbage m header st)
  unfolding stomp_subscribe fail_with
  stomp_subscribe-Ends b path rooted none room =
      halts false _ (headed _ ∙ bind-done (destination m) _ (destination_lem m b path begun rooted))
  stomp_subscribe-Ends b path rooted (some d) room =
      submit-Ends (stomp_subscribe fuel garbage m (some d)) (text "SUBSCRIBE") _ (ltb 0 d.receipt)
        (room d refl)
        (headed _ ∙ bind-done (destination m) _ (destination_lem m b path begun rooted))
