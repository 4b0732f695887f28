-- ===== src/Messenger/Exchange/Connect.antt =====
-- stomp_connect ends, whatever the network and the broker do.
use libstomp.Prelude.{
  ℕ, ◌<◌, ◌≡◌, ◌≢◌, refl, ◌∙◌, ap, inl, inr, Option, some, ◌++◌, text, length, printed, ne→==, ℤ,
  int_limit, arith,
}
use libstomp.Exec.{
  IfDone, Returns-IfDone, Returns-value, done, bind-done, Returns, Returns-eq, Returns-map,
}
use libstomp.Platform.{Apr, Wire, HasMemory, Finished, Codes, Objects}
use libstomp.Status.{StatusCode, failure}
use libstomp.Machine.{State}
use libstomp.Io.Base.{Connection, Frame}
use libstomp.Engine.{stomp_engine_connect, stomp_engine_set_timeout}
use libstomp.Engine.Connect.{Connected, stomp_engine_connect-Connected}
use libstomp.Messenger.Base.{
  Messenger, ConnectionHeader, messenger_status_set, fail_with, fail_with_engine,
}
use libstomp.Messenger.Setup.{stomp_messenger_set_timeout, time_from_msec}
use libstomp.Messenger.Requests.Frames.{request_text}
use libstomp.Messenger.Exchange.Greeting.{login_frame, Greeted, handshake-Ends}
use libstomp.Messenger.Exchange.{connect_headers, handshake, connect_from, stomp_connect}

module _ ⦃apr : Apr⦄ (fuel : ℕ) (garbage : ℕ) (m : Messenger apr) (login : Frame apr)
    (st : State apr) where
  -- What stomp_connect may bring: the failure of stomp_engine_connect and a message, or the new
  -- connection that it has given, which has a socket, and the end of the handshake over it. The
  -- second state is the one that it has left.
  pub data Reached : (StatusCode × Messenger apr) × State apr → Type 0 where
    unreachable :
        (rc : ℕ) (u : State apr)
        → stomp_engine_connect m.connection m.uri.hostname m.uri.port m.pool st
          ≡ done ((rc, m.connection), u)
        → rc ≢ 0
        → Reached (
          (
            failure,
            messenger_status_set m failure (
                text "Unable to connect to the broker service: " ++ printed u.engine_error.message),
          ),
          u,
        )
    reached :
        {r : (StatusCode × Messenger apr) × State apr} (c : Connection apr) (s : apr.Socket)
        (u : State apr)
        → stomp_engine_connect m.connection m.uri.hostname m.uri.port m.pool st
          ≡ done ((0, some c), u)
        → c.socket ≡ some s
        → Greeted fuel garbage (record m { connection = some c }) c login r
        → Reached r

module _ ⦃apr : Apr⦄ (m : Messenger apr) (c : Connection apr) (s : apr.Socket)
    (open_socket : c.socket ≡ some s) where
  set_timeout_lem :
      (timeout : ℤ) (st : State apr)
      → stomp_messenger_set_timeout (record m { connection = some c }) timeout st
        ≡ done (tt, record st { net = (apr.timeout_set s (time_from_msec timeout) st.net).1 })
  unfolding stomp_messenger_set_timeout stomp_engine_set_timeout
  set_timeout_lem timeout st = rw open_socket

module _ ⦃apr : Apr⦄ (wire : Wire apr) (memory : HasMemory apr) (finished : Finished apr wire)
    (codes : Codes apr) (objects : Objects apr) (fuel : ℕ) (garbage : ℕ) (m : Messenger apr)
    (header : Option ConnectionHeader) (timeout : ℤ) where
  abbrev Arrived : State apr → (StatusCode × Messenger apr) × State apr → Type 0
  Arrived st = Reached fuel garbage m (login_frame memory.empty header) st

  -- No socket has as many bytes as there is fuel.
  abbrev pub HasFuel : {A : Type 0} → A × State apr → Type 0
  HasFuel (a, u) =
      (s : apr.Socket)
      → (length (wire.input s u.net) < fuel) × (length (wire.input s u.net) < int_limit)

  unconnected-Ends :
      (rc : ℕ) (st u : State apr)
      → stomp_engine_connect m.connection m.uri.hostname m.uri.port m.pool st
        ≡ done ((rc, m.connection), u)
      → rc ≢ 0
      → Returns (Arrived st) (connect_from fuel garbage m header timeout rc u)
  unfolding connect_from fail_with fail_with_engine
  unconnected-Ends rc st u runs ne = rw (ne→== rc 0 ne, Returns) (unreachable rc u runs ne)

  connected-Ends :
      (c : Connection apr) (s : apr.Socket) (st u : State apr)
      → length (request_text (text "CONNECT") (connect_headers memory.empty header)) < fuel
      → stomp_engine_connect m.connection m.uri.hostname m.uri.port m.pool st
        ≡ done ((0, some c), u)
      → c.socket ≡ some s
      → length (wire.input s u.net) < fuel
      → length (wire.input s u.net) < int_limit
      → Returns
          (Arrived st)
          (connect_from fuel garbage (record m { connection = some c }) header timeout 0 u)
  unfolding connect_from
  connected-Ends c s st u room runs open_socket enough small =
      let m' : Messenger apr = record m { connection = some c } in
      let v : State apr = record u { net = (apr.timeout_set s (time_from_msec timeout) u.net).1 } in
      let same : wire.input s v.net ≡ wire.input s u.net =
        wire.input-timeout s s (time_from_msec timeout) u.net in
      Returns-eq (Arrived st) {o' = handshake fuel garbage m' header v}
        (bind-done (stomp_messenger_set_timeout m' timeout) (λ x. handshake fuel garbage m' header)
          (set_timeout_lem m c s open_socket timeout u))
        (Returns-map (Greeted fuel garbage m' c (login_frame memory.empty header)) (Arrived st) _
          (λ (r, w) g. reached c s u runs open_socket g)
          (handshake-Ends wire memory finished codes s fuel garbage m' c open_socket refl header v
            room (omega (arith, ap length same)) (omega (arith, ap length same))))

  connect_from-Ends :
      (st : State apr)
      → length (request_text (text "CONNECT") (connect_headers memory.empty header)) < fuel
      → (r : ℕ × Option (Connection apr)) (u : State apr)
      → stomp_engine_connect m.connection m.uri.hostname m.uri.port m.pool st ≡ done (r, u)
      → Connected objects m.connection m.uri.hostname st (r, u)
      → HasFuel (r, u)
      → Returns
          (Arrived st)
          (connect_from fuel garbage (record m { connection = r.1 }) header timeout r.0 u)
  connect_from-Ends st room (rc, o) u runs (inl (ne, e, code, told)) bound =
      let runs' = runs ∙ ap (λ o. done ((rc, o), u)) e in rw e (unconnected-Ends rc st u runs' ne)
  connect_from-Ends st room (rc, o) u runs (inr (z, (c, s, e, open_socket), kept)) bound =
      let runs' = runs ∙ ap (λ o. done ((rc, o), u)) e ∙ ap (λ k. done ((k, some c), u)) z in
      rw (z, e) (connected-Ends c s st u room runs' open_socket (bound s).0 (bound s).1)

  pub stomp_connect-Ends :
      (st : State apr)
      → length (request_text (text "CONNECT") (connect_headers memory.empty header)) < fuel
      → IfDone HasFuel (stomp_engine_connect m.connection m.uri.hostname m.uri.port m.pool st)
      → Returns (Arrived st) (stomp_connect fuel garbage m header timeout st)
  unfolding stomp_connect
  stomp_connect-Ends st room bound =
      let connecting = stomp_engine_connect m.connection m.uri.hostname m.uri.port m.pool in
      let ((r, u), runs, (done_so, fueled)) = Returns-value _ (connecting st) (
        Returns-IfDone (Connected objects m.connection m.uri.hostname st) HasFuel (connecting st)
          (stomp_engine_connect-Connected objects m.connection m.uri.hostname codes m.uri.port
            m.pool st)
          bound) in
      Returns-eq (Arrived st)
        {o' = connect_from fuel garbage (record m { connection = r.1 }) header timeout r.0 u}
        (bind-done connecting
          (λ r. connect_from fuel garbage (record m { connection = r.1 }) header timeout r.0) runs)
        (connect_from-Ends st room r u runs done_so fueled)
