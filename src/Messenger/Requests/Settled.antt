-- ===== src/Messenger/Requests/Settled.antt =====
-- Requests that succeed: no send fails, and the broker has sent a receipt.
use libstomp.Prelude.{
  ℕ, ◌<◌, ◌≡◌, ◌∙◌, ap, true, some, ◌++◌, Text, Buffer, text, length, strlen, ltb, has_prefix,
  if◌then◌else◌, negsuc, ℤ, arith,
}
use libstomp.Exec.{done, bind-done, deref}
use libstomp.Platform.{Apr, Wire, HasMemory, Unsplit, Accepting}
use libstomp.Status.{StatusCode, success}
use libstomp.Machine.{State, M}
use libstomp.Io.Base.{Connection, Frame}
use libstomp.Io.Frame.{content_length, stomp_write}
use libstomp.Io.Frame.Writes.{BodyFits, frame_text}
use libstomp.Io.Frame.Accepted.{stomp_write-accepted}
use libstomp.Io.Read.Arrived.{Arrives}
use libstomp.Messenger.Base.{Messenger, DisconnectionHeader}
use libstomp.Messenger.Requests.{
  new_headers, stomp_write_receipt, request, submit_or, submit, stomp_disconnect,
}
use libstomp.Messenger.Requests.Receipt.{verdict, stomp_process_receipt-Reads}
use libstomp.Messenger.Requests.Frames.{request-content_length, request_text, new_headers_lem}

module _ ⦃apr : Apr⦄ (wire : Wire apr) (s : apr.Socket) (m : Messenger apr) where
  -- It succeeds, has sent `bs` and leaves the messenger as it was, and `rest` to be read.
  abbrev pub Settled : M (StatusCode × Messenger apr) → Text → Text → State apr → Type 0
  Settled run bs rest st =
      (u : State apr) × (run st ≡ done ((success, m), u))
      × (wire.output s u.net ≡ wire.output s st.net ++ bs)
      × (wire.input s u.net ≡ rest)

module _ ⦃apr : Apr⦄ (wire : Wire apr) (memory : HasMemory apr) (unsplit : Unsplit apr wire)
    (accepting : Accepting apr) (s : apr.Socket) (fuel : ℕ) (garbage : ℕ) (m : Messenger apr)
    (c : Connection apr) (opened : m.connection ≡ some c) (open_socket : c.socket ≡ some s)
    {command : Text} {body : Buffer} {rest : Text} {input : Text}
    (arrives : Arrives memory fuel command body rest input) (n : ℕ) (ends : strlen body ≡ some n)
    (receipt : has_prefix command (text "RECEIPT") ≡ true) where
  verdict_receipt : verdict m command body ≡ (success, m)
  verdict_receipt = rw (receipt, if◌then◌else◌)

  pub submit-Settled :
      (f : Frame apr) (pool : apr.Pool) (k : ℤ) (asks : ℕ) (st : State apr)
      → 0 < asks
      → content_length f ≡ some k
      → BodyFits f.body k
      → length (frame_text f k) < fuel
      → wire.input s st.net ≡ input
      → Settled wire s m (submit fuel garbage m f pool (ltb 0 asks)) (frame_text f k) rest st
  unfolding submit submit_or
  submit-Settled f pool k asks st positive announced fits enough arrived =
      let w =
        stomp_write-accepted wire s accepting fuel c open_socket f pool k st announced fits
          enough in
      let p =
        stomp_process_receipt-Reads wire memory unsplit s fuel garbage m c opened open_socket
          arrives n ends w.0 (w.3 ∙ arrived) in
      let asked : ltb 0 asks ≡ true = ground arith in
      (
        p.0,
        bind-done (deref m.connection) _ (ap (λ o. deref o st) opened)
            ∙ (bind-done (stomp_write fuel c f pool) _ w.1 ∙ rw (asked, if◌then◌else◌) p.1)
            ∙ ap (λ r. done (r, p.0)) verdict_receipt,
        p.2.output_kept ∙ w.2,
        p.2.input_left,
      )

  -- With memory, receives of one byte or more that bring all that they ask for, sends that do not
  -- fail, and a frame that has arrived, whose command starts with RECEIPT and whose body has a
  -- terminator: stomp_disconnect with a header that asks for a receipt ends and succeeds. The whole
  -- DISCONNECT frame has gone, the reply has been read and nothing behind it, and the messenger is
  -- as it was.
  pub stomp_disconnect-Settled :
      (d : DisconnectionHeader) (st : State apr)
      → 0 < d.receipt
      → length (request_text (text "DISCONNECT") (stomp_write_receipt memory.empty d.receipt))
        < fuel
      → wire.input s st.net ≡ input
      → Settled wire s m
          (stomp_disconnect fuel garbage m (some d))
          (request_text (text "DISCONNECT") (stomp_write_receipt memory.empty d.receipt))
          rest
          st
  unfolding stomp_disconnect
  stomp_disconnect-Settled d st asks enough arrived =
      let u : State apr = record st { mem = (apr.hash_make (some m.pool) st.mem).1 } in
      let h = stomp_write_receipt memory.empty d.receipt in
      let r =
        submit-Settled (request (text "DISCONNECT") h) m.pool (negsuc 0) d.receipt u asks
          (request-content_length (text "DISCONNECT") h) tt enough arrived in
      (r.0, bind-done (new_headers m.pool) _ (new_headers_lem memory m.pool st) ∙ r.1, r.2, r.3)
