-- ===== src/Messenger/Requests/Receipt.antt =====
-- A request that asks for a receipt, where the broker's reply has arrived.
use libstomp.Prelude.{
  ℕ, ◌<◌, ◌≡◌, ◌≢◌, ◌⊎◌, inl, inr, refl, sym, ◌∙◌, ap, true, Bool-cases, some, ◌++◌, Text, Buffer,
  text, length, strlen, c_str, has_prefix, if◌then◌else◌, ne→==, ℤ,
}
use libstomp.Exec.{done, bind-done, deref}
use libstomp.Platform.{Apr, Wire, HasMemory, Unsplit}
use libstomp.Status.{StatusCode, success, failure}
use libstomp.Machine.{State, M}
use libstomp.Io.Base.{Connection, Frame}
use libstomp.Io.Delivery.{Delivered, Sends}
use libstomp.Io.Input.{Reads, Reads-trans}
use libstomp.Io.Frame.{content_length, stomp_write}
use libstomp.Io.Frame.Writes.{BodyFits, frame_text, stomp_write-Sends}
use libstomp.Io.Read.{frame, stomp_read, stomp_io_can_read}
use libstomp.Io.Read.Arrived.{Arrives, Arrives-nonempty, stomp_read-Taken}
use libstomp.Io.Read.Ready.{stomp_io_can_read_ready, waited-Reads}
use libstomp.Messenger.Base.{Messenger, messenger_status_set, fail_with}
use libstomp.Messenger.Requests.{
  bad_receipt, check_receipt, receipt_from, stomp_process_receipt, not_written, submit_or, submit,
}
use libstomp.Messenger.Requests.Submit.{unsent, not_written_lem}

module _ ⦃apr : Apr⦄ where
  -- What a messenger says about a reply that is not a receipt.
  abbrev rejected : Messenger apr → Text → Buffer → Messenger apr
  rejected m command body =
      messenger_status_set m failure (
        text "Invalid disconnection reply: "
        ++ (command ++ (text " (" ++ (c_str body ++ text ")"))))

  -- What a reply means to a messenger that waits for a receipt.
  abbrev pub verdict : Messenger apr → Text → Buffer → StatusCode × Messenger apr
  verdict m command body =
      if has_prefix command (text "RECEIPT")
      then (success, m)
      else (failure, rejected m command body)

  module _ (fuel : ℕ) (garbage : ℕ) (m : Messenger apr) where
    bad_receipt_lem :
        (command : Text) (body : Buffer) (n : ℕ) (st : State apr)
        → strlen body ≡ some n
        → bad_receipt fuel garbage m command (some body) st
          ≡ done ((failure, rejected m command body), st)
    unfolding bad_receipt fail_with
    bad_receipt_lem command body n st z = rw z refl

    check_receipt_lem :
        (f : Frame apr) (body : Buffer) (n : ℕ) (st : State apr)
        → f.body ≡ some body
        → strlen body ≡ some n
        → check_receipt fuel garbage m (frame f) st ≡ done (verdict m f.command body, st)
    unfolding check_receipt
    check_receipt_lem f body n st e z = elim (Bool-cases (has_prefix f.command (text "RECEIPT"))) [
      | inl e' ↦ rw (e', if◌then◌else◌)
      | inr e' ↦
          rw (e', if◌then◌else◌)
            (ap (λ o. bad_receipt fuel garbage m f.command o st) e
              ∙ bad_receipt_lem f.command body n st z)
    ]

module _ ⦃apr : Apr⦄ (wire : Wire apr) (s : apr.Socket) (m : Messenger apr)
    (result : StatusCode × Messenger apr) (rest input : Text) where
  -- The whole of `bs` has gone, a reply has been read, and the result is what it makes; or a prefix
  -- has gone, the request fails and leaves `lost`, and the reply is still there.
  abbrev pub ConfirmedOr :
      Messenger apr → M (StatusCode × Messenger apr) → Text → State apr → Type 0
  ConfirmedOr lost run bs st =
      (st' : State apr) × (((run st ≡ done (result, st'))
          × (wire.output s st'.net ≡ wire.output s st.net ++ bs)
          × (wire.input s st'.net ≡ rest))
        ⊎ ((run st ≡ done ((failure, lost), st'))
            × (wire.input s st'.net ≡ input)
            × ((p : Text) × (q : Text) × (p ++ q ≡ bs)
                × (wire.output s st'.net ≡ wire.output s st.net ++ p))))

  -- The failure has the message of the engine.
  abbrev pub Confirmed : M (StatusCode × Messenger apr) → Text → State apr → Type 0
  Confirmed run bs st = ConfirmedOr (unsent m st) run bs st

  -- Steps before that only take memory.
  pub ConfirmedOr-mem :
      (lost : Messenger apr) (run k : M (StatusCode × Messenger apr)) (bs : Text) (st : State apr)
      (mem : apr.Mem)
      → run st ≡ k (record st { mem = mem })
      → ConfirmedOr lost k bs (record st { mem = mem })
      → ConfirmedOr lost run bs st
  ConfirmedOr-mem lost run k bs st mem e (v, inl (r, d, i)) = (v, inl (e ∙ r, d, i))
  ConfirmedOr-mem lost run k bs st mem e (v, inr (r, i, d)) = (v, inr (e ∙ r, i, d))

  pub Confirmed-mem :
      (run k : M (StatusCode × Messenger apr)) (bs : Text) (st : State apr) (mem : apr.Mem)
      → run st ≡ k (record st { mem = mem })
      → Confirmed k bs (record st { mem = mem })
      → Confirmed run bs st
  Confirmed-mem run k bs st = ConfirmedOr-mem (unsent m st) run k bs st

  -- A write, and then `k`, which reads the reply.
  module _ (lost : Messenger apr) (run k : M (StatusCode × Messenger apr)) (write : M ℕ) (bs : Text)
      (st : State apr) (r : Sends wire s write bs st) where
    pub ConfirmedOr-from :
        (r.status ≡ 0 → run st ≡ k r.final)
        → (r.status ≢ 0 → run st ≡ done ((failure, lost), r.final))
        → wire.input s st.net ≡ input
        → ((u : State apr)
            → wire.input s u.net ≡ input
            → (v : State apr) × (k u ≡ done (result, v)) × Reads wire s u rest v)
        → Delivered wire s bs st r.status r.final
        → ConfirmedOr lost run bs st
    ConfirmedOr-from sent failed arrived reply (inl (z, d)) =
        let p = reply r.final (r.input_kept ∙ arrived) in
        (p.0, inl (sent z ∙ p.1, p.2.output_kept ∙ d, p.2.input_left))
    ConfirmedOr-from sent failed arrived reply (inr (z, d)) =
        (r.final, inr (failed z, r.input_kept ∙ arrived, d))

module _ ⦃apr : Apr⦄ (wire : Wire apr) (memory : HasMemory apr) (unsplit : Unsplit apr wire)
    (s : apr.Socket) (fuel : ℕ) (garbage : ℕ) (m : Messenger apr) (c : Connection apr)
    (opened : m.connection ≡ some c) (open_socket : c.socket ≡ some s) where
  module _ {command : Text} {body : Buffer} {rest : Text} {input : Text}
      (arrives : Arrives memory fuel command body rest input) (n : ℕ)
      (ends : strlen body ≡ some n) where
    pub stomp_process_receipt-Reads :
        (st : State apr)
        → wire.input s st.net ≡ input
        → (u : State apr) × (stomp_process_receipt fuel garbage m st
            ≡ done (verdict m command body, u))
          × Reads wire s st rest u
    unfolding stomp_process_receipt receipt_from
    stomp_process_receipt-Reads st arrived =
        let w : State apr = record st { net = (apr.wait_for_io s st.net).1 } in
        let before = waited-Reads wire s c open_socket st input arrived in
        let t =
          stomp_read-Taken wire memory unsplit s c open_socket fuel m.pool garbage w arrives
            before.input_left in
        (
          t.final,
          bind-done (deref m.connection) _ (ap (λ o. deref o st) opened)
              ∙ bind-done (stomp_io_can_read c) _ (
                  stomp_io_can_read_ready wire s c open_socket st
                    (λ empty. Arrives-nonempty memory fuel arrives (sym arrived ∙ empty)))
              ∙ bind-done (stomp_read fuel c m.pool garbage) _ t.runs
              ∙ check_receipt_lem fuel garbage m t.reply body n t.final t.its_body ends
              ∙ ap (λ k. done (verdict m k body, t.final)) t.its_command,
          Reads-trans wire s before t.reads,
        )

    pub submit_or-Confirmed :
        (failing : M (StatusCode × Messenger apr)) (lost : Messenger apr) (f : Frame apr)
        (pool : apr.Pool) (k : ℤ) (st : State apr)
        → ((u : State apr)
            → u.engine_error ≡ st.engine_error
            → failing u ≡ done ((failure, lost), u))
        → content_length f ≡ some k
        → BodyFits f.body k
        → length (frame_text f k) < fuel
        → wire.input s st.net ≡ input
        → ConfirmedOr wire s m
            (verdict m command body)
            rest
            input
            lost
            (submit_or fuel garbage failing m f pool true)
            (frame_text f k)
            st
    unfolding submit_or
    submit_or-Confirmed failing lost f pool k st fails announced fits enough arrived =
        let r = stomp_write-Sends wire s fuel c open_socket f pool k st announced fits enough in
        let connected = bind-done (deref m.connection) _ (ap (λ o. deref o st) opened) in
        let written = bind-done (stomp_write fuel c f pool) _ r.runs in
        ConfirmedOr-from wire s m (verdict m command body) rest input lost
          (submit_or fuel garbage failing m f pool true) (stomp_process_receipt fuel garbage m)
          (stomp_write fuel c f pool) (frame_text f k) st r
          (λ z. connected ∙ (written ∙ rw (z, if◌then◌else◌)))
          (λ z. connected ∙ (written ∙ rw (ne→== r.status 0 z) (fails r.final r.engine_kept)))
          arrived stomp_process_receipt-Reads r.delivered

    pub submit-Confirmed :
        (f : Frame apr) (pool : apr.Pool) (k : ℤ) (st : State apr)
        → content_length f ≡ some k
        → BodyFits f.body k
        → length (frame_text f k) < fuel
        → wire.input s st.net ≡ input
        → Confirmed wire s m
            (verdict m command body)
            rest
            input
            (submit fuel garbage m f pool true)
            (frame_text f k)
            st
    unfolding submit
    submit-Confirmed f pool k st =
        submit_or-Confirmed (not_written fuel garbage m) (unsent m st) f pool k st
          (not_written_lem fuel garbage m st)
