-- ===== src/Messenger/Exchange/Handshake.antt =====
-- The CONNECT frame on a connection that is open, and the broker's reply.
use libstomp.Prelude.{
  ℕ, ◌<◌, ◌≡◌, sym, ◌∙◌, ap, Option, some, ◌++◌, Text, Buffer, text, length, has_prefix,
  if◌then◌else◌, ne→==, negsuc, Bool-cases, inl, inr,
}
use libstomp.Exec.{done, bind-done, deref}
use libstomp.Platform.{Apr, Wire, HasMemory, Unsplit}
use libstomp.Status.{StatusCode, success, failure}
use libstomp.Machine.{State}
use libstomp.Io.Base.{Connection, Frame}
use libstomp.Io.Input.{Reads, Reads-trans}
use libstomp.Io.Frame.{stomp_write}
use libstomp.Io.Frame.Writes.{stomp_write-Sends}
use libstomp.Io.Read.{frame, stomp_read, stomp_io_can_read}
use libstomp.Io.Read.Arrived.{Arrives, Arrives-nonempty, stomp_read-Taken}
use libstomp.Io.Read.Ready.{stomp_io_can_read_ready, waited-Reads}
use libstomp.Messenger.Base.{
  Messenger, ConnectionHeader, messenger_status_set, fail_with, fail_with_engine,
}
use libstomp.Messenger.Requests.{new_headers, request}
use libstomp.Messenger.Requests.Frames.{request-content_length, request_text, new_headers_lem}
use libstomp.Messenger.Requests.Submit.{unsent}
use libstomp.Messenger.Requests.Receipt.{Confirmed, ConfirmedOr-from}
use libstomp.Messenger.Exchange.{
  connect_headers, check_connected, greeting_from, greeting, handshake,
}

module _ ⦃apr : Apr⦄ where
  -- What the reply to a CONNECT frame means.
  abbrev pub greeted : Messenger apr → Text → StatusCode × Messenger apr
  greeted m command =
      if has_prefix command (text "CONNECTED")
      then (success, m)
      else (failure, messenger_status_set m failure (text "Invalid connection reply: " ++ command))

module _ ⦃apr : Apr⦄ (wire : Wire apr) (memory : HasMemory apr) (unsplit : Unsplit apr wire)
    (s : apr.Socket) (fuel : ℕ) (garbage : ℕ) (m : Messenger apr) (c : Connection apr)
    (opened : m.connection ≡ some c) (open_socket : c.socket ≡ some s) {command : Text}
    {body : Buffer} {rest : Text} {input : Text}
    (arrives : Arrives memory fuel command body rest input) where
  check_connected_lem :
      (f : Frame apr) (st : State apr)
      → check_connected fuel garbage m (frame f) st ≡ done (greeted m f.command, st)
  unfolding check_connected fail_with
  check_connected_lem f st = elim (Bool-cases (has_prefix f.command (text "CONNECTED"))) [
    | inl e ↦ rw (e, if◌then◌else◌)
    | inr e ↦ rw (e, if◌then◌else◌)
  ]

  greeting-Reads :
      (st : State apr)
      → wire.input s st.net ≡ input
      → (u : State apr) × (greeting fuel garbage m c st ≡ done (greeted m command, u))
        × Reads wire s st rest u
  unfolding greeting greeting_from
  greeting-Reads st arrived =
      let w : State apr = record st { net = (apr.wait_for_io s st.net).1 } in
      let before = waited-Reads wire s c open_socket st input arrived in
      let t =
        stomp_read-Taken wire memory unsplit s c open_socket fuel m.pool garbage w arrives
          before.input_left in
      (
        t.final,
        bind-done (stomp_io_can_read c) _ (
              stomp_io_can_read_ready wire s c open_socket st
                (λ empty. Arrives-nonempty memory fuel arrives (sym arrived ∙ empty)))
            ∙ bind-done (stomp_read fuel c m.pool garbage) _ t.runs
            ∙ check_connected_lem t.reply t.final
            ∙ ap (λ k. done (greeted m k, t.final)) t.its_command,
        Reads-trans wire s before t.reads,
      )

  -- With memory, fuel for the frames, a messenger with a connection, receives of one byte or more
  -- that bring all that they ask for, and a frame that has arrived, whose lines the reader takes,
  -- and which announces the length of a body that is not empty, or announces none and ends in a
  -- terminator and a newline: the handshake of stomp_connect ends. If the whole CONNECT frame has
  -- gone, with the login and the passcode if there are any, the reply has been read, and nothing
  -- behind it; the call succeeds and leaves the messenger as it was if the command of the reply
  -- starts with CONNECTED, and fails with a message that has the command if not. If a prefix of the
  -- frame has gone, the call fails with the message of the engine and reads nothing.
  pub handshake-Confirmed :
      (header : Option ConnectionHeader) (st : State apr)
      → length (request_text (text "CONNECT") (connect_headers memory.empty header)) < fuel
      → wire.input s st.net ≡ input
      → Confirmed wire s m
          (greeted m command)
          rest
          input
          (handshake fuel garbage m header)
          (request_text (text "CONNECT") (connect_headers memory.empty header))
          st
  unfolding handshake fail_with_engine fail_with
  handshake-Confirmed header st enough arrived =
      let u : State apr = record st { mem = (apr.hash_make (some m.pool) st.mem).1 } in
      let f = request (text "CONNECT") (connect_headers memory.empty header) in
      let r =
        stomp_write-Sends wire s fuel c open_socket f m.pool (negsuc 0) u
          (request-content_length (text "CONNECT") _) tt enough in
      let begun =
        bind-done (new_headers m.pool) _ (new_headers_lem memory m.pool st)
        ∙ bind-done (deref m.connection) _ (ap (λ o. deref o u) opened) in
      let written = bind-done (stomp_write fuel c f m.pool) _ r.runs in
      ConfirmedOr-from wire s m (greeted m command) rest input (unsent m st)
        (λ x. handshake fuel garbage m header st) (greeting fuel garbage m c)
        (stomp_write fuel c f m.pool) _ u r (λ z. begun ∙ (written ∙ rw (z, if◌then◌else◌)))
        (λ z. begun ∙ (written ∙ rw (ne→== r.status 0 z, r.engine_kept))) arrived greeting-Reads
        r.delivered
