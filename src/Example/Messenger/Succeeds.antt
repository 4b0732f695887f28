-- ===== src/Example/Messenger/Succeeds.antt =====
-- The client of example/messenger exits with success where the broker confirms what it sends.
use libstomp.Prelude.{
  ℕ, ◌<◌, ◌≡◌, refl, sym, ◌∙◌, ap, true, some, ◌∷◌, [], ◌++◌, append-nil, append_assoc, Text,
  Buffer, text, length, strlen, has_prefix, pos, ℤ, arith,
}
use mathlib.Core.Path.{subst}
use libstomp.Exec.{done, ◌>>=◌, bind-done}
use libstomp.Platform.{Apr, Wire, HasMemory, Unsplit, Accepting}
use libstomp.Status.{StatusCode}
use libstomp.Machine.{State, M}
use libstomp.Io.Base.{Connection}
use libstomp.Io.Frame.{content_length}
use libstomp.Io.Frame.Writes.{BodyFits, frame_text}
use libstomp.Io.Read.Arrived.{Arrives}
use libstomp.Message.{Message}
use libstomp.Messenger.Base.{Messenger, strips_root}
use libstomp.Messenger.Requests.{stomp_write_receipt, stomp_disconnect}
use libstomp.Messenger.Requests.Frames.{request_text}
use libstomp.Messenger.Requests.Settled.{Settled, stomp_disconnect-Settled}
use libstomp.Messenger.Exchange.{stomp_send}
use libstomp.Messenger.Exchange.Send.{sent_frame}
use libstomp.Messenger.Exchange.Settled.{stomp_send-Settled}
use libstomp.Example.Messenger.{clean_up, require}
use libstomp.Example.Messenger.Client.{send_header, disconn, leave, deliver, publish}
use libstomp.Example.Messenger.Talks.{delivery_text, gone}
use libstomp.Example.Messenger.Publish.{
  test_message, new_pool, stamped, written, timed, with_properties, test_message-content_length,
  test_message-BodyFits, publish_run,
}

module _ ⦃apr : Apr⦄ (wire : Wire apr) (s : apr.Socket) where
  -- The program exits with 0, has sent `bs`, and leaves `rest` to be read.
  abbrev pub Succeeds : M ℕ → Text → Text → State apr → Type 0
  Succeeds run bs rest st =
      (u : State apr) × (run st ≡ done (0, u))
      × (wire.output s u.net ≡ wire.output s st.net ++ bs)
      × (wire.input s u.net ≡ rest)

  -- A request that succeeds, and the rest of the program.
  Settled-then :
      (m : Messenger apr) (run : M (StatusCode × Messenger apr)) (failed next : Messenger apr → M ℕ)
      (bs bs' rest' rest : Text) (st : State apr)
      → Settled wire s m run bs rest' st
      → ((u : State apr) → wire.input s u.net ≡ rest' → Succeeds (next m) bs' rest u)
      → Succeeds (run >>= λ r. require r failed next) (bs ++ bs') rest st
  unfolding require
  Settled-then m run failed next bs bs' rest' rest st (u, r, out, left) following =
      let n = following u left in
      (
        n.0,
        bind-done run _ r ∙ n.1,
        n.2 ∙ ap (λ t. t ++ bs') out ∙ append_assoc (wire.output s st.net) bs bs',
        n.3,
      )

module _ ⦃apr : Apr⦄ (wire : Wire apr) (memory : HasMemory apr) (unsplit : Unsplit apr wire)
    (accepting : Accepting apr) (s : apr.Socket) (fuel : ℕ) (garbage : ℕ) (c : Connection apr)
    (open_socket : c.socket ≡ some s) (b : ℕ) (path : Text)
    {command command' rest input' input : Text} {body body' : Buffer} {n n' : ℕ}
    (arrives : Arrives memory fuel command body input' input) (ends : strlen body ≡ some n)
    (receipt : has_prefix command (text "RECEIPT") ≡ true)
    (arrives' : Arrives memory fuel command' body' rest input') (ends' : strlen body' ≡ some n')
    (receipt' : has_prefix command' (text "RECEIPT") ≡ true) where
  module _ (m : Messenger apr) (opened : m.connection ≡ some c)
      (rooted : m.uri.path ≡ some (b ∷ path)) where
    leave-Succeeds :
        (message : Message apr) (st : State apr)
        → length (request_text (text "DISCONNECT") (stomp_write_receipt memory.empty 124)) < fuel
        → wire.input s st.net ≡ input'
        → Succeeds wire s
            (leave fuel garbage message m)
            (request_text (text "DISCONNECT") (stomp_write_receipt memory.empty 124))
            rest
            st
    unfolding leave clean_up
    leave-Succeeds message st enough arrived =
        subst (λ t. Succeeds wire s (leave fuel garbage message m) t rest st) (append-nil _)
          (Settled-then wire s m (stomp_disconnect fuel garbage m (some disconn)) _
            (clean_up message)
            (request_text (text "DISCONNECT") (stomp_write_receipt memory.empty 124)) [] rest rest
            st
            (stomp_disconnect-Settled wire memory unsplit accepting s fuel garbage m c opened
              open_socket arrives' n' ends' receipt' disconn st (omega arith) enough arrived)
            (λ u left. (gone message m u, refl, sym (append-nil _), left)))

    deliver-Succeeds :
        (table : apr.Hash) (message : Message apr) (k : ℤ) (st : State apr)
        → m.exchange_properties ≡ some (record { hash = some table })
        → content_length (sent_frame m table b path (some send_header) message) ≡ some k
        → BodyFits message.body k
        → length (frame_text (sent_frame m table b path (some send_header) message) k) < fuel
        → length (request_text (text "DISCONNECT") (stomp_write_receipt memory.empty 124)) < fuel
        → wire.input s st.net ≡ input
        → Succeeds wire s
            (deliver fuel garbage message m)
            (delivery_text m b path memory.empty table message k)
            rest
            st
    unfolding deliver
    deliver-Succeeds table message k st exchange announced fits enough enough' arrived =
        Settled-then wire s m (stomp_send fuel garbage m (some send_header) message) _
          (leave fuel garbage message)
          (frame_text (sent_frame m table b path (some send_header) message) k) _ input' rest st
          (stomp_send-Settled wire memory unsplit accepting s fuel garbage m c opened open_socket _
            table exchange refl b path rooted arrives n ends receipt send_header message k st
            (omega arith) announced fits enough arrived)
          (λ u left. leave-Succeeds message u enough' left)

  -- With memory, fuel for the frames, receives of one byte or more that bring all that they ask
  -- for, sends that do not fail, tables that have a pool, a messenger with a connection, an
  -- endpoint and a table of properties, and two frames that have arrived, one after the other,
  -- whose commands start with RECEIPT, whose lines the reader takes, and whose bodies have
  -- terminators: the client program ends with the exit status 0, from the creation of its message
  -- on. It has sent its SEND frame and its DISCONNECT frame, whole and in this order, and has read
  -- the two receipts and nothing behind them.
  pub publish-Succeeds :
      (m : Messenger apr) (table : apr.Hash) (pool : apr.Pool) (st : State apr)
      → m.connection ≡ some c
      → m.uri.path ≡ some (b ∷ path)
      → m.exchange_properties ≡ some (record { hash = some table })
      → ((h : apr.Hash) → apr.hash_pool h ≡ some pool)
      → length (
          frame_text
            (sent_frame m
              (stamped table (written st))
              b
              path
              (some send_header)
              (test_message (new_pool st).0.1))
            (pos 20))
        < fuel
      → length (request_text (text "DISCONNECT") (stomp_write_receipt memory.empty 124)) < fuel
      → wire.input s st.net ≡ input
      → Succeeds wire s
          (publish fuel garbage m)
          (delivery_text m b path memory.empty
            (stamped table (written st))
            (test_message (new_pool st).0.1)
            (pos 20))
          rest
          st
  unfolding strips_root
  publish-Succeeds m table pool st opened rooted exchange pooled enough enough' arrived =
      let u : State apr = record st { mem = (new_pool st).1 } in
      let r =
        deliver-Succeeds (with_properties m table (written st)) opened rooted
          (stamped table (written st)) (test_message (new_pool st).0.1) (pos 20) (timed pool u) refl
          (test_message-content_length m (stamped table (written st)) b path (new_pool st).0.1)
          (test_message-BodyFits (new_pool st).0.1) enough enough' arrived in
      (r.0, publish_run memory fuel garbage m table exchange pool pooled st ∙ r.1, r.2, r.3)
