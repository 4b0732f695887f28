-- ===== src/Io/Read/Ready.antt =====
-- stomp_io_can_read at an input that has arrived.
use libstomp.Prelude.{
  ◌≡◌, ◌≢◌, refl, ◌∙◌, ap, Bool, true, Bool-cases, inl, inr, ◌==◌, some, [], Text, arith,
}
use libstomp.Exec.{done, bind-done, deref, Returns, Returns-eq}
use libstomp.Platform.{Apr, Wire}
use libstomp.Machine.{State}
use libstomp.Io.Base.{Connection, io_status_set}
use libstomp.Io.Input.{Reads, Quiet}
use libstomp.Io.Read.{stomp_io_can_read}

module _ ⦃apr : Apr⦄ (wire : Wire apr) (s : apr.Socket) where
  -- Whatever the wait for the socket returns: nothing is read and nothing is sent.
  abbrev pub WaitEnds : State apr → Bool × State apr → Type 0
  WaitEnds st (b, u) = (wire.input s u.net ≡ wire.input s st.net) × Quiet wire s st u

module _ ⦃apr : Apr⦄ (wire : Wire apr) (s : apr.Socket) (c : Connection apr)
    (open_socket : c.socket ≡ some s) where
  pub stomp_io_can_read_ready :
      (st : State apr)
      → wire.input s st.net ≢ []
      → stomp_io_can_read c st ≡ done (true, record st { net = (apr.wait_for_io s st.net).1 })
  unfolding stomp_io_can_read
  stomp_io_can_read_ready st h =
      bind-done (deref c.socket) _ (ap (λ o. deref o st) open_socket)
      ∙ ground (arith, wire.wait_ready s st.net h)

  pub waited-Reads :
      (st : State apr) (t : Text)
      → wire.input s st.net ≡ t
      → Reads wire s st t (record st { net = (apr.wait_for_io s st.net).1 })
  waited-Reads st t arrived = record {
    input_left = wire.input-wait s st.net ∙ arrived;
    output_kept = wire.output-wait s st.net;
    io_kept = refl;
    engine_kept = refl;
  }

  pub stomp_io_can_read-Ends :
      (st : State apr) → Returns (WaitEnds wire s st) (stomp_io_can_read c st)
  unfolding stomp_io_can_read io_status_set
  stomp_io_can_read-Ends st =
      let rc = (apr.wait_for_io s st.net).0 in
      let kept : WaitEnds wire s st (true, record st { net = (apr.wait_for_io s st.net).1 }) = (
        wire.input-wait s st.net,
        record { output_kept = wire.output-wait s st.net; engine_kept = refl },
      ) in
      Returns-eq (WaitEnds wire s st)
        (bind-done (deref c.socket) _ (ap (λ o. deref o st) open_socket))
        (elim (Bool-cases (rc == 0)) [
          | inl e ↦ rw (e, Returns) kept
          | inr e ↦
              rw (e, Returns)
                (elim (Bool-cases (rc == apr.timeup)) [
                  | inl e' ↦ rw (e', Returns) kept
                  | inr e' ↦
                      rw (e', Returns)
                        (kept.0, record { output_kept = kept.1.output_kept; engine_kept = refl })
                ])
        ])
