-- ===== src/Messenger/Answers/Opening.antt =====
-- What stomp_set_endpoint and the handshake of stomp_connect answer.
use libstomp.Prelude.{ℕ, Bool, true, false, Option, none, some, [], ◌∷◌, Text, text, ◌==◌}
use libstomp.Exec.{deref, Ensures-bind, Ensures-if, Ensures-elim}
use libstomp.Platform.{Apr}
use libstomp.Io.Base.{Connection}
use libstomp.Io.Frame.{stomp_write}
use libstomp.Io.Read.{Incoming, frame, no_frame, stomp_read, stomp_io_can_read}
use libstomp.Messenger.Base.{Messenger, ConnectionHeader}
use libstomp.Messenger.Setup.{stomp_set_endpoint, check_path}
use libstomp.Messenger.Requests.{new_headers, request}
use libstomp.Messenger.Exchange.{
  connect_headers, check_connected, greeting_from, greeting, handshake,
}
use libstomp.Messenger.Answers.{Answers, Answers-fine, Answers-fail_with, Answers-fail_with_engine}

module _ ⦃apr : Apr⦄ where
  check_path-Answers : (m : Messenger apr) (path : Option Text) → Answers m (check_path m path)
  unfolding check_path
  check_path-Answers m none = Answers-fail_with m _
  check_path-Answers m (some []) = Answers-fail_with m _
  check_path-Answers m (some (b ∷ path)) = Answers-fine m

  pub set_endpoint-Answers :
      (m : Messenger apr) (uri : Text)
      → Answers (record m { uri = (apr.uri_parse uri).1 }) (stomp_set_endpoint m uri)
  unfolding stomp_set_endpoint
  set_endpoint-Answers m uri =
      let m' : Messenger apr = record m { uri = (apr.uri_parse uri).1 } in
      Ensures-elim ((apr.uri_parse uri).0 == 0) _ _ (check_path-Answers m' m'.uri.path)
        (Answers-fail_with m' _)

module _ ⦃apr : Apr⦄ (fuel : ℕ) (garbage : ℕ) where
  check_connected-Answers :
      (m : Messenger apr) (r : Incoming apr) → Answers m (check_connected fuel garbage m r)
  unfolding check_connected
  check_connected-Answers m (no_frame stat) = Answers-fail_with_engine m _
  check_connected-Answers m (frame f) = Ensures-if _ _ _ (Answers-fine m) (Answers-fail_with m _)

  greeting_from-Answers :
      (m : Messenger apr) (connection : Connection apr) (can_read : Bool)
      → Answers m (greeting_from fuel garbage m connection can_read)
  unfolding greeting_from
  greeting_from-Answers m connection false = Answers-fail_with m _
  greeting_from-Answers m connection true =
      Ensures-bind (stomp_read fuel connection m.pool garbage) _ (check_connected-Answers m)

  greeting-Answers :
      (m : Messenger apr) (connection : Connection apr)
      → Answers m (greeting fuel garbage m connection)
  unfolding greeting
  greeting-Answers m connection =
      Ensures-bind (stomp_io_can_read connection) _ (greeting_from-Answers m connection)

  pub handshake-Answers :
      (m : Messenger apr) (header : Option ConnectionHeader)
      → Answers m (handshake fuel garbage m header)
  unfolding handshake
  handshake-Answers m header = Ensures-bind (new_headers m.pool) _ λ h.
      Ensures-bind (deref m.connection) _ λ connection.
        Ensures-bind
          (stomp_write fuel connection (request (text "CONNECT") (connect_headers h header)) m.pool)
          _
          λ stat.
            Ensures-elim (stat == 0) _ _ (greeting-Answers m connection)
              (Answers-fail_with_engine m _)
