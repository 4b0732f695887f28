-- ===== src/Messenger/Exchange/Total.antt =====
-- stomp_receive ends on every input, well-formed or not.
use Prim.Native.Nat.{bit_or}
use libstomp.Prelude.{
  ◌++◌, ◌∙◌, printed, ==_iff, ℕ, ◌+◌, ◌<◌, ◌≡◌, ◌≢◌, ap, Bool, true, false, Bool-cases, inl, inr,
  some, Buffer, text, length, has_prefix, if◌then◌else◌, ◌==◌, int_limit, c_str, strlen, arith,
}
use libstomp.Exec.{done, Returns-value, bind-done, deref, Returns, Returns-eq}
use libstomp.Platform.{Apr, Wire, HasMemory, Finished, Codes}
use libstomp.Status.{StatusCode, success, failure, no_data}
use libstomp.Machine.{State}
use libstomp.Io.Base.{Frame, Connection, stomp_io_last_status}
use libstomp.Io.Input.{Quiet, Quiet-trans}
use libstomp.Io.Read.{Incoming, frame, no_frame, stomp_read, stomp_io_can_read}
use libstomp.Io.Read.Ready.{WaitEnds, stomp_io_can_read-Ends}
use libstomp.Io.Read.Total.{FrameEnds, stomp_read-FrameEnds}
use libstomp.Properties.{ExchangeProperties}
use libstomp.Message.{Message}
use libstomp.Message.Text.{copy, stomp_message_format_lem}
use libstomp.Messenger.Base.{Messenger, messenger_status_set}
use libstomp.Messenger.Exchange.{stomp_receive, receive_from, accept}
use libstomp.Messenger.Exchange.Receive.{with_headers, accept_lem}

module _ ⦃apr : Apr⦄ (wire : Wire apr) (s : apr.Socket) (fuel : ℕ) (garbage : ℕ) (m : Messenger apr)
    (c : Connection apr) (table : apr.Hash) (message : Message apr) (st : State apr) where
  -- What a call of stomp_receive may bring, and by which result of stomp_io_can_read or, on the input
  -- that had arrived, of stomp_read.
  pub data Received : StatusCode × Messenger apr × Message apr → Type 0 where
    nothing_yet :
        (u : State apr)
        → stomp_io_can_read c st ≡ done (false, u)
        → Received (
          bit_or success no_data,
          messenger_status_set m
              (bit_or success no_data)
              (text "Timed out while trying to read data"),
          message,
        )
    timed_out :
        (u v : State apr)
        → wire.input s u.net ≡ wire.input s st.net
        → stomp_read fuel c message.pool garbage u ≡ done (no_frame apr.timeup, v)
        → Received (success, m, message)
    unread :
        (u v : State apr) (rc : ℕ)
        → wire.input s u.net ≡ wire.input s st.net
        → stomp_read fuel c message.pool garbage u ≡ done (no_frame rc, v)
        → rc ≢ apr.timeup
        → Received (
          failure,
          messenger_status_set m failure (
              text "Unable to read the frame data from the underlying connection: "
              ++ printed v.io_error.message),
          message,
        )
    taken :
        (u v : State apr) (f : Frame apr) (h : apr.Hash) (bs b : Buffer)
        → wire.input s u.net ≡ wire.input s st.net
        → stomp_read fuel c message.pool garbage u ≡ done (frame f, v)
        → f.headers ≡ some h
        → f.body ≡ some bs
        → c_str b ≡ copy bs f.body_length
        → strlen b ≡ some (length (copy bs f.body_length))
        → Received (
          if has_prefix f.command (text "MESSAGE") then success else failure,
          with_headers m h table,
          record message { size = length (copy bs f.body_length) + 1; body = some b },
        )

module _ ⦃apr : Apr⦄ (wire : Wire apr) (memory : HasMemory apr) (finished : Finished apr wire)
    (codes : Codes apr) (s : apr.Socket) (fuel : ℕ) (garbage : ℕ) (m : Messenger apr)
    (c : Connection apr) (opened : m.connection ≡ some c) (open_socket : c.socket ≡ some s)
    (properties : ExchangeProperties apr) (table : apr.Hash)
    (exchange : m.exchange_properties ≡ some properties) (made : properties.hash ≡ some table)
    (message : Message apr) where
  -- What was brought, and that nothing was sent meanwhile.
  abbrev pub ReceiveEnds :
      State apr → (StatusCode × Messenger apr × Message apr) × State apr → Type 0
  ReceiveEnds st (r, u) = Received wire s fuel garbage m c table message st r × Quiet wire s st u

  accept-Ends :
      (st u v : State apr) (r : Incoming apr)
      → length (wire.input s st.net) < int_limit
      → wire.input s u.net ≡ wire.input s st.net
      → Quiet wire s st u
      → stomp_read fuel c message.pool garbage u ≡ done (r, v)
      → FrameEnds wire s u (r, v)
      → Returns (ReceiveEnds st) (accept m message r v)
  unfolding accept stomp_io_last_status
  accept-Ends st u v (no_frame rc) small kept q runs r =
      let q' = Quiet-trans wire s q r.quiet in
      elim (Bool-cases (rc == apr.timeup)) [
        | inl e ↦
            rw (e, if◌then◌else◌, Returns)
              (
                timed_out u v kept
                    (runs ∙ ap (λ k. done (no_frame k, v)) ((==_iff rc apr.timeup).0 e)),
                q',
              )
        | inr e ↦ rw (e, if◌then◌else◌, Returns) (unread u v rc kept runs (ground (arith, e)), q')
      ]
  accept-Ends st u v (frame f) small kept q runs ((h, e), (b, e', fits), le, q') =
      let r =
        stomp_message_format_lem memory message b f.body_length v fits
          (omega (arith, ap length kept)) in
      Returns-eq (ReceiveEnds st)
        (accept_lem m properties table exchange made f b h message
          (record message { size = length (copy b f.body_length) + 1; body = some r.0 }) v
          (record v { mem = (apr.malloc (f.body_length + 1) v.mem).1 }) e' e r.1)
        (
          taken u v f h b r.0 kept runs e e' r.2.printed_text r.2.measured,
          Quiet-trans wire s q
              (record { output_kept = q'.output_kept; engine_kept = q'.engine_kept }),
        )

  receive_from-Ends :
      (st u : State apr) (can_read : Bool)
      → length (wire.input s st.net) < fuel
      → length (wire.input s st.net) < int_limit
      → stomp_io_can_read c st ≡ done (can_read, u)
      → WaitEnds wire s st (can_read, u)
      → Returns (ReceiveEnds st) (receive_from fuel garbage m message c can_read u)
  unfolding receive_from
  receive_from-Ends st u false enough small waited (kept, q) = (nothing_yet u waited, q)
  receive_from-Ends st u true enough small waited (kept, q) =
      let ((r, v), runs, ends) =
        Returns-value (FrameEnds wire s u) (stomp_read fuel c message.pool garbage u) (
          stomp_read-FrameEnds wire memory finished codes s c open_socket fuel message.pool garbage
            u (omega (arith, ap length kept)) (omega (arith, ap length kept))) in
      Returns-eq (ReceiveEnds st) {o' = accept m message r v}
        (bind-done (stomp_read fuel c message.pool garbage) (accept m message) runs)
        (accept-Ends st u v r small kept q runs ends)

  pub stomp_receive-Ends :
      (st : State apr)
      → length (wire.input s st.net) < fuel
      → length (wire.input s st.net) < int_limit
      → Returns (ReceiveEnds st) (stomp_receive fuel garbage m message st)
  unfolding stomp_receive
  stomp_receive-Ends st enough small =
      let ((b, u), waited, ends) =
        Returns-value (WaitEnds wire s st) (stomp_io_can_read c st)
          (stomp_io_can_read-Ends wire s c open_socket st) in
      Returns-eq (ReceiveEnds st) {o' = receive_from fuel garbage m message c b u}
        (bind-done (deref m.connection) _ (ap (λ o. deref o st) opened)
          ∙ bind-done (stomp_io_can_read c) (receive_from fuel garbage m message c) waited)
        (receive_from-Ends st u b enough small waited ends)
