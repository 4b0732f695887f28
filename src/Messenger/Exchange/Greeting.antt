-- ===== src/Messenger/Exchange/Greeting.antt =====
-- The handshake of stomp_connect ends, whatever the broker sends.
use libstomp.Prelude.{
  ℕ, ◌<◌, ◌≡◌, ◌≢◌, ◌∙◌, ap, Bool, true, false, Bool-cases, inl, inr, Option, some, ◌++◌, text,
  length, has_prefix, if◌then◌else◌, printed, ◌==◌, negsuc, int_limit, arith,
}
use libstomp.Exec.{Returns-value, done, bind-done, deref, Returns, Returns-eq}
use libstomp.Platform.{Apr, Wire, HasMemory, Finished, Codes}
use libstomp.Status.{StatusCode, success, failure}
use libstomp.Machine.{State}
use libstomp.Io.Base.{Connection, Frame}
use libstomp.Io.Frame.{stomp_write}
use libstomp.Io.Frame.Writes.{stomp_write-Sends}
use libstomp.Io.Read.{Incoming, frame, no_frame, stomp_read, stomp_io_can_read}
use libstomp.Io.Read.Ready.{WaitEnds, stomp_io_can_read-Ends}
use libstomp.Io.Read.Total.{FrameEnds, stomp_read-FrameEnds}
use libstomp.Messenger.Base.{
  Messenger, ConnectionHeader, messenger_status_set, fail_with, fail_with_engine,
}
use libstomp.Messenger.Requests.{new_headers, request}
use libstomp.Messenger.Requests.Frames.{request-content_length, request_text, new_headers_lem}
use libstomp.Messenger.Exchange.{
  connect_headers, check_connected, greeting_from, greeting, handshake,
}

module _ ⦃apr : Apr⦄ where
  -- The CONNECT frame of a header, on a table.
  abbrev pub login_frame : apr.Hash → Option ConnectionHeader → Frame apr
  login_frame h header = request (text "CONNECT") (connect_headers h header)

module _ ⦃apr : Apr⦄ (fuel : ℕ) (garbage : ℕ) (m : Messenger apr) (c : Connection apr)
    (login : Frame apr) where
  -- What the handshake over a connection makes of it, and by which result of stomp_write,
  -- stomp_io_can_read or stomp_read over that connection. The state is the one that it has left.
  pub data Greeted : (StatusCode × Messenger apr) × State apr → Type 0 where
    unsent :
        (u v : State apr) (rc : ℕ)
        → stomp_write fuel c login m.pool u ≡ done (rc, v)
        → rc ≢ 0
        → Greeted (
          (
            failure,
            messenger_status_set m failure (
                text "Unable to write the frame data to the underlying connection: "
                ++ printed v.engine_error.message),
          ),
          v,
        )
    silent :
        (u v : State apr)
        → stomp_io_can_read c u ≡ done (false, v)
        → Greeted (
          (failure, messenger_status_set m failure (text "Timed out while trying to read data")),
          v,
        )
    unread :
        (u v : State apr) (rc : ℕ)
        → stomp_read fuel c m.pool garbage u ≡ done (no_frame rc, v)
        → Greeted (
          (
            failure,
            messenger_status_set m failure (
                text "Unable to read the frame data to the underlying connection: "
                ++ printed v.engine_error.message),
          ),
          v,
        )
    turned_away :
        (u v : State apr) (f : Frame apr)
        → stomp_read fuel c m.pool garbage u ≡ done (frame f, v)
        → has_prefix f.command (text "CONNECTED") ≡ false
        → Greeted (
          (
            failure,
            messenger_status_set m failure (text "Invalid connection reply: " ++ f.command),
          ),
          v,
        )
    welcome :
        (u v : State apr) (f : Frame apr)
        → stomp_read fuel c m.pool garbage u ≡ done (frame f, v)
        → has_prefix f.command (text "CONNECTED") ≡ true
        → Greeted ((success, m), v)

module _ ⦃apr : Apr⦄ (wire : Wire apr) (memory : HasMemory apr) (finished : Finished apr wire)
    (codes : Codes apr) (s : apr.Socket) (fuel : ℕ) (garbage : ℕ) (m : Messenger apr)
    (c : Connection apr) (open_socket : c.socket ≡ some s) (login : Frame apr) where
  abbrev Answered : (StatusCode × Messenger apr) × State apr → Type 0
  Answered = Greeted fuel garbage m c login

  check_connected-Ends :
      (u v : State apr) (r : Incoming apr)
      → stomp_read fuel c m.pool garbage u ≡ done (r, v)
      → Returns Answered (check_connected fuel garbage m r v)
  unfolding check_connected fail_with fail_with_engine
  check_connected-Ends u v (no_frame rc) runs = unread u v rc runs
  check_connected-Ends u v (frame f) runs =
      elim (Bool-cases (has_prefix f.command (text "CONNECTED"))) [
        | inl e ↦ rw (e, if◌then◌else◌, Returns) (welcome u v f runs e)
        | inr e ↦ rw (e, if◌then◌else◌, Returns) (turned_away u v f runs e)
      ]

  greeting_from-Ends :
      (st u : State apr) (can_read : Bool)
      → length (wire.input s st.net) < fuel
      → length (wire.input s st.net) < int_limit
      → stomp_io_can_read c st ≡ done (can_read, u)
      → WaitEnds wire s st (can_read, u)
      → Returns Answered (greeting_from fuel garbage m c can_read u)
  unfolding greeting_from fail_with
  greeting_from-Ends st u false enough small waited w = silent st u waited
  greeting_from-Ends st u true enough small waited (kept, q) =
      let ((r, v), runs, ends) =
        Returns-value (FrameEnds wire s u) (stomp_read fuel c m.pool garbage u) (
          stomp_read-FrameEnds wire memory finished codes s c open_socket fuel m.pool garbage u
            (omega (arith, ap length kept)) (omega (arith, ap length kept))) in
      Returns-eq Answered {o' = check_connected fuel garbage m r v}
        (bind-done (stomp_read fuel c m.pool garbage) (check_connected fuel garbage m) runs)
        (check_connected-Ends u v r runs)

  greeting-Ends :
      (st : State apr)
      → length (wire.input s st.net) < fuel
      → length (wire.input s st.net) < int_limit
      → Returns Answered (greeting fuel garbage m c st)
  unfolding greeting
  greeting-Ends st enough small =
      let ((b, u), waited, ends) =
        Returns-value (WaitEnds wire s st) (stomp_io_can_read c st)
          (stomp_io_can_read-Ends wire s c open_socket st) in
      Returns-eq Answered {o' = greeting_from fuel garbage m c b u}
        (bind-done (stomp_io_can_read c) (greeting_from fuel garbage m c) waited)
        (greeting_from-Ends st u b enough small waited ends)

module _ ⦃apr : Apr⦄ (wire : Wire apr) (memory : HasMemory apr) (finished : Finished apr wire)
    (codes : Codes apr) (s : apr.Socket) (fuel : ℕ) (garbage : ℕ) (m : Messenger apr)
    (c : Connection apr) (open_socket : c.socket ≡ some s) where
  pub handshake-Ends :
      (opened : m.connection ≡ some c) (header : Option ConnectionHeader) (st : State apr)
      → length (request_text (text "CONNECT") (connect_headers memory.empty header)) < fuel
      → length (wire.input s st.net) < fuel
      → length (wire.input s st.net) < int_limit
      → Returns
          (Greeted fuel garbage m c (login_frame memory.empty header))
          (handshake fuel garbage m header st)
  unfolding handshake fail_with_engine fail_with
  handshake-Ends opened header st room enough small =
      let u : State apr = record st { mem = (apr.hash_make (some m.pool) st.mem).1 } in
      let f = login_frame memory.empty header in
      let Answer : (StatusCode × Messenger apr) × State apr → Type 0 = Greeted fuel garbage m c f in
      let r =
        stomp_write-Sends wire s fuel c open_socket f m.pool (negsuc 0) u
          (request-content_length (text "CONNECT") _) tt room in
      let begun =
        bind-done (new_headers m.pool) _ (new_headers_lem memory m.pool st)
        ∙ bind-done (deref m.connection) _ (ap (λ o. deref o u) opened)
        ∙ bind-done (stomp_write fuel c f m.pool) _ r.runs in
      elim (Bool-cases (r.status == 0)) [
        | inl z ↦ Returns-eq Answer {o' = greeting fuel garbage m c r.final} (begun ∙ rw z) (
            greeting-Ends wire memory finished codes s fuel garbage m c open_socket f r.final
              (omega (arith, ap length r.input_kept)) (omega (arith, ap length r.input_kept)))
        | inr z ↦
            Returns-eq Answer
              {o' = done (
                (
                  failure,
                  messenger_status_set m failure (
                      text "Unable to write the frame data to the underlying connection: "
                      ++ printed r.final.engine_error.message),
                ),
                r.final,
              )}
              (begun ∙ rw z) (unsent u r.final r.status r.runs (ground (arith, z)))
      ]
