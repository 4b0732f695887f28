-- ===== src/Messenger/Session/Effect.antt =====
-- What each call may do to the messenger, as a relation that mentions no frames, sockets or memory, and
-- the proof that every call keeps to it.
use Prim.Native.Nat.{bit_or}
use libstomp.Prelude.{
  ℕ, ◌≡◌, ◌⊎◌, inl, inr, refl, sym, Bool, true, false, Option, some, ◌++◌, Text, text, ℤ, ◌==◌,
  printed, has_prefix, if◌then◌else◌,
}
use mathlib.Core.Path.{subst}
use libstomp.Exec.{
  deref, Ensures, Ensures-bind, Ensures-if, Ensures-elim, Ensures-map, Ensures-bind_with,
}
use libstomp.Platform.{Apr}
use libstomp.Status.{StatusCode, failure, success, no_data}
use libstomp.Machine.{M}
use libstomp.Message.{Message, stomp_message_format}
use libstomp.Engine.{stomp_engine_connect}
use libstomp.Io.Base.{Connection, stomp_io_last_status}
use libstomp.Io.Read.{Incoming, frame, no_frame, stomp_read, stomp_io_can_read}
use libstomp.Messenger.Base.{Messenger, ConnectionHeader, messenger_status_set}
use libstomp.Messenger.Setup.{stomp_messenger_set_timeout}
use libstomp.Messenger.Requests.{stomp_begin, stomp_commit, stomp_abort}
use libstomp.Messenger.Exchange.{
  connect_from, stomp_connect, overlay_properties, accept, receive_from, stomp_receive,
}
use libstomp.Messenger.Answers.{
  Answer, fine, refused, Answers, Answers-fail_with_engine, disconnect-Answers, subscribe-Answers,
  unsubscribe-Answers, ack-Answers, nack-Answers, transaction-Answers, send-Answers,
}
use libstomp.Messenger.Answers.Opening.{set_endpoint-Answers, handshake-Answers}
use libstomp.Messenger.Session.{
  Call, set_endpoint, connect, disconnect, subscribe, unsubscribe, ack, nack, begin, commit, abort,
  send, receive, perform,
}

module _ ⦃apr : Apr⦄ where
  -- The calls that work on the messenger as it is.
  abbrev pub IsRequest : Call apr → Type 0
  IsRequest (set_endpoint uri) = ⊥
  IsRequest (connect header timeout) = ⊥
  IsRequest _ = Unit

  -- The messenger that a call works on: its connection or its address may be new.
  pub data Before (m : Messenger apr) : Call apr → Messenger apr → Type 0 where
    same : (c : Call apr) → IsRequest c → Before m c m
    addressed :
        (uri : Text) → Before m (set_endpoint uri) (record m { uri = (apr.uri_parse uri).1 })
    connected :
        (header : Option ConnectionHeader) (timeout : ℤ) (o : Option (Connection apr))
        → Before m (connect header timeout) (record m { connection = o })

  -- A call succeeds and changes no more than that; or it fails and says why; or it receives.
  pub data Effect (m : Messenger apr) : Call apr → StatusCode × Messenger apr → Type 0 where
    answered :
        {c : Call apr} {m' : Messenger apr} {r : StatusCode × Messenger apr}
        → Before m c m'
        → Answer m' r
        → Effect m c r
    nothing_there :
        (message : Message apr) (t : Text)
        → Effect m
            (receive message)
            (bit_or success no_data, messenger_status_set m (bit_or success no_data) t)
    received :
        (message : Message apr) (code : StatusCode) (h : apr.Hash)
        → (code ≡ success) ⊎ (code ≡ failure)
        → Effect m
            (receive message)
            (code, record m { exchange_properties = some (record { hash = some h }) })

  -- A received message: the result without it.
  abbrev Receives : Messenger apr → Message apr → StatusCode × Messenger apr × Message apr → Type 0
  Receives m message r = Effect m (receive message) (r.0, r.1)

  abbrev HasNewTable : Messenger apr → Messenger apr → Type 0
  HasNewTable m m' =
      (h : apr.Hash) × (m' ≡ record m { exchange_properties = some (record { hash = some h }) })

  overlay-HasNewTable :
      (m : Messenger apr) (headers : Option apr.Hash)
      → Ensures (HasNewTable m) (overlay_properties m headers)
  unfolding overlay_properties
  overlay-HasNewTable m headers = Ensures-bind (deref m.exchange_properties) _ λ properties.
      Ensures-bind (deref properties.hash) _ λ base.
        Ensures-bind (deref headers) _
          λ over. record { at = λ s. (apr.hash_overlay over base, refl) }

  code_cases :
      (b : Bool)
      → ((if b then success else failure) ≡ success) ⊎ ((if b then success else failure) ≡ failure)
  code_cases true = inl refl
  code_cases false = inr refl

  accept-Receives :
      (m : Messenger apr) (message : Message apr) (r : Incoming apr)
      → Ensures (Receives m message) (accept m message r)
  unfolding accept stomp_io_last_status
  accept-Receives m message (no_frame stat) =
      Ensures-if (stat == apr.timeup) _ _
        (record { at = λ s. answered (same (receive message) tt) fine })
        (record {
          at = λ s. answered (same (receive message) tt) (
              refused (
                text "Unable to read the frame data from the underlying connection: "
                ++ printed s.io_error.message));
        })
  accept-Receives m message (frame f) = Ensures-bind (deref f.body) _ λ bytes.
      Ensures-bind (stomp_message_format message bytes f.body_length) _ λ message'.
        Ensures-bind_with (overlay_properties m f.headers) _ (overlay-HasNewTable m f.headers)
          λ m' (h, e). record {
            at = λ s.
                subst
                  (λ n.
                    Effect m (receive message)
                      ((if has_prefix f.command (text "MESSAGE") then success else failure), n))
                  (sym e)
                  (received message _ h (code_cases (has_prefix f.command (text "MESSAGE"))));
          }

module _ ⦃apr : Apr⦄ (fuel : ℕ) (garbage : ℕ) where
  connect-Effect :
      (m : Messenger apr) (header : Option ConnectionHeader) (timeout : ℤ)
      → Ensures (Effect m (connect header timeout)) (stomp_connect fuel garbage m header timeout)
  unfolding stomp_connect connect_from
  connect-Effect m header timeout =
      Ensures-bind (stomp_engine_connect m.connection m.uri.hostname m.uri.port m.pool) _
        λ (stat, o).
          let m' : Messenger apr = record m { connection = o } in
          Ensures-map _ (λ r a. answered (connected header timeout o) a)
            (Ensures-elim (stat == 0) _ _
              (Ensures-bind (stomp_messenger_set_timeout m' timeout) _
                λ _. handshake-Answers fuel garbage m' header)
              (Answers-fail_with_engine m' _))

  receive_from-Receives :
      (m : Messenger apr) (message : Message apr) (connection : Connection apr) (can_read : Bool)
      → Ensures (Receives m message) (receive_from fuel garbage m message connection can_read)
  unfolding receive_from
  receive_from-Receives m message connection false = record { at = λ s. nothing_there message _ }
  receive_from-Receives m message connection true =
      Ensures-bind (stomp_read fuel connection message.pool garbage) _ (accept-Receives m message)

  receive-Effect :
      (m : Messenger apr) (message : Message apr)
      → Ensures (Receives m message) (stomp_receive fuel garbage m message)
  unfolding stomp_receive
  receive-Effect m message = Ensures-bind (deref m.connection) _ λ connection.
      Ensures-bind (stomp_io_can_read connection) _ (receive_from-Receives m message connection)

  request-Effect :
      (c : Call apr) (m : Messenger apr) {k : M (StatusCode × Messenger apr)}
      → IsRequest c
      → Answers m k
      → Ensures (Effect m c) k
  request-Effect c m {k} q a = Ensures-map k (λ r e. answered (same c q) e) a

  -- Where a call ends with a value: it worked on the messenger it was given, with a new address if it
  -- sets the endpoint and a new connection if it connects, and changed nothing more if it succeeded, or
  -- failed with a message; or it is stomp_receive, which reports that there is no data, or replaces
  -- the table of properties and nothing more.
  pub perform-Effect :
      (c : Call apr) (m : Messenger apr) → Ensures (Effect m c) (perform fuel garbage c m)
  unfolding perform stomp_begin stomp_commit stomp_abort
  perform-Effect (set_endpoint uri) m =
      Ensures-map _ (λ r a. answered (addressed uri) a) (set_endpoint-Answers m uri)
  perform-Effect (connect header timeout) m = connect-Effect m header timeout
  perform-Effect (disconnect header) m =
      request-Effect (disconnect header) m tt (disconnect-Answers fuel garbage m header)
  perform-Effect (subscribe header) m =
      request-Effect (subscribe header) m tt (subscribe-Answers fuel garbage m header)
  perform-Effect (unsubscribe header) m =
      request-Effect (unsubscribe header) m tt (unsubscribe-Answers fuel garbage m header)
  perform-Effect (ack header) m =
      request-Effect (ack header) m tt (ack-Answers fuel garbage m header)
  perform-Effect (nack header) m =
      request-Effect (nack header) m tt (nack-Answers fuel garbage m header)
  perform-Effect (begin header) m =
      request-Effect (begin header) m tt (transaction-Answers fuel garbage m header _)
  perform-Effect (commit header) m =
      request-Effect (commit header) m tt (transaction-Answers fuel garbage m header _)
  perform-Effect (abort header) m =
      request-Effect (abort header) m tt (transaction-Answers fuel garbage m header _)
  perform-Effect (send header message) m =
      request-Effect (send header message) m tt (send-Answers fuel garbage m header message)
  perform-Effect (receive message) m =
      Ensures-bind_with (stomp_receive fuel garbage m message) _ (receive-Effect m message)
        λ (code, m', _) e. record { at = λ s. e }
