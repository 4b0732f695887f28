-- ===== src/Messenger/Requests/Acknowledge.antt =====
-- The frames of stomp_ack, stomp_nack and stomp_unsubscribe where no receipt is asked for.
use libstomp.Prelude.{
  ℕ, ◌<◌, ◌+◌, ◌≡◌, refl, ◌∙◌, ap, Bool, false, ltb, Option, none, some, [], Text, text, length,
  negsuc, pos, arith,
}
use libstomp.Exec.{done, bind-done}
use libstomp.Platform.{Apr, Wire, HasMemory}
use libstomp.Status.{StatusCode, failure}
use libstomp.Machine.{State, M}
use libstomp.Io.Base.{Connection}
use libstomp.Messenger.Base.{
  Messenger, AckHeader, SubscriptionHeader, messenger_status_set, fail_with,
}
use libstomp.Messenger.Requests.{
  new_headers, request, submit_or, submit, not_written, acknowledge, ack_headers, stomp_ack,
  stomp_nack, stomp_unsubscribe, stomp_write_receipt,
}
use libstomp.Messenger.Requests.Submit.{
  Submitted, Submitted-after, unsent, not_written_lem, submit_or-Submitted, submit-Submitted,
}
use libstomp.Messenger.Requests.Frames.{request-content_length, request_text, new_headers_lem}

module _ ⦃apr : Apr⦄ where
  -- The headers of an acknowledgment, and whether it asks for a receipt.
  abbrev pub acknowledged : apr.Hash → Option AckHeader → apr.Hash
  acknowledged h none = h
  acknowledged h (some d) = ack_headers h d

  abbrev pub ack_asks : Option AckHeader → Bool
  ack_asks none = false
  ack_asks (some d) = ltb 0 d.receipt

  -- What stomp_ack says about a write that failed: the engine's message is left out.
  abbrev pub unacknowledged : Messenger apr → Messenger apr
  unacknowledged m =
      messenger_status_set m failure
        (text "Unable to write the frame data to the underlying connection")

  -- The headers of the end of a subscription. The destination keeps its root.
  abbrev pub unsubscribed : Messenger apr → apr.Hash → SubscriptionHeader → apr.Hash
  unsubscribed m h d =
      apr.hash_set (apr.hash_set h (text "destination") m.uri.path) (text "id")
        (some (apr.itoa (pos d.id)))

module _ ⦃apr : Apr⦄ (wire : Wire apr) (memory : HasMemory apr) (s : apr.Socket) (fuel : ℕ)
    (garbage : ℕ) (m : Messenger apr) (c : Connection apr) (opened : m.connection ≡ some c)
    (open_socket : c.socket ≡ some s) (st : State apr) where
  -- The state with a new table.
  abbrev begun : State apr
  begun = record st { mem = (apr.hash_make (some m.pool) st.mem).1 }

  module _ (failing : M (StatusCode × Messenger apr)) (command : Text) where
    acknowledge_run :
        (header : Option AckHeader)
        → ack_asks header ≡ false
        → acknowledge fuel garbage failing command m header st
          ≡ submit_or fuel garbage failing m
              (request command (acknowledged memory.empty header))
              m.pool
              false
              begun
    unfolding acknowledge
    acknowledge_run none silent =
        bind-done (new_headers m.pool) _ (new_headers_lem memory m.pool st)
    acknowledge_run (some d) silent =
        bind-done (new_headers m.pool) _ (new_headers_lem memory m.pool st)
        ∙ ap
            (λ b.
              submit_or fuel garbage failing m (request command (ack_headers memory.empty d)) m.pool
                b begun)
            silent

    acknowledge-Submitted :
        (lost : Messenger apr) (header : Option AckHeader)
        → ((u : State apr)
            → u.engine_error ≡ st.engine_error
            → failing u ≡ done ((failure, lost), u))
        → ack_asks header ≡ false
        → length (request_text command (acknowledged memory.empty header)) < fuel
        → Submitted wire s m lost
            (acknowledge fuel garbage failing command m header)
            (request_text command (acknowledged memory.empty header))
            st
    acknowledge-Submitted lost header fails silent enough =
        let f = request command (acknowledged memory.empty header) in
        Submitted-after wire s m lost (acknowledge fuel garbage failing command m header)
          (submit_or fuel garbage failing m f m.pool false) _ st begun
          (acknowledge_run header silent) refl
          (submit_or-Submitted wire s fuel garbage m c opened open_socket f m.pool failing lost
            begun fails (negsuc 0) (request-content_length command _) tt enough)

  stomp_unsubscribe_run :
      (d : SubscriptionHeader)
      → d.receipt ≡ 0
      → stomp_unsubscribe fuel garbage m (some d) st
        ≡ submit fuel garbage m
            (request (text "UNSUBSCRIBE") (unsubscribed m memory.empty d))
            m.pool
            false
            begun
  unfolding stomp_unsubscribe stomp_write_receipt
  stomp_unsubscribe_run d silent =
      bind-done (new_headers m.pool) _ (new_headers_lem memory m.pool st)
      ∙ ap
          (λ n.
            submit fuel garbage m
              (request (text "UNSUBSCRIBE") (stomp_write_receipt (unsubscribed m memory.empty d) n))
              m.pool (ltb 0 n) begun)
          silent

  stomp_unsubscribe-Submitted :
      (d : SubscriptionHeader)
      → d.receipt ≡ 0
      → length (request_text (text "UNSUBSCRIBE") (unsubscribed m memory.empty d)) < fuel
      → Submitted wire s m
          (unsent m st)
          (stomp_unsubscribe fuel garbage m (some d))
          (request_text (text "UNSUBSCRIBE") (unsubscribed m memory.empty d))
          st
  stomp_unsubscribe-Submitted d silent enough =
      let f = request (text "UNSUBSCRIBE") (unsubscribed m memory.empty d) in
      Submitted-after wire s m (unsent m st) (stomp_unsubscribe fuel garbage m (some d))
        (submit fuel garbage m f m.pool false) _ st begun (stomp_unsubscribe_run d silent) refl
        (submit-Submitted wire s fuel garbage m c opened open_socket f m.pool (negsuc 0) begun
          (request-content_length (text "UNSUBSCRIBE") _) tt enough)

  -- With memory, and for headers that ask for no receipt, stomp_ack and stomp_nack, with a header or
  -- without, and stomp_unsubscribe with one each end. They succeed and leave the messenger as it was if
  -- the whole text of their frame has gone. An acknowledgment has the message id and the transaction
  -- that are not negative among its headers, the end of a subscription its id and the path of the
  -- address with its root. If a prefix has gone, they fail: stomp_nack and stomp_unsubscribe with the
  -- message of the engine behind their own, and stomp_ack with its own.
  pub acknowledgments-Submitted :
      (header : Option AckHeader) (d : SubscriptionHeader)
      → ack_asks header ≡ false
      → d.receipt ≡ 0
      → 4 + length (request_text [] (acknowledged memory.empty header)) < fuel
      → length (request_text (text "UNSUBSCRIBE") (unsubscribed m memory.empty d)) < fuel
      → Submitted wire s m
          (unacknowledged m)
          (stomp_ack fuel garbage m header)
          (request_text (text "ACK") (acknowledged memory.empty header))
          st
        × Submitted wire s m
            (unsent m st)
            (stomp_nack fuel garbage m header)
            (request_text (text "NACK") (acknowledged memory.empty header))
            st
        × Submitted wire s m
            (unsent m st)
            (stomp_unsubscribe fuel garbage m (some d))
            (request_text (text "UNSUBSCRIBE") (unsubscribed m memory.empty d))
            st
  unfolding stomp_ack stomp_nack fail_with text
  acknowledgments-Submitted header d silent silent' enough enough' = (
    acknowledge-Submitted
        (fail_with m (text "Unable to write the frame data to the underlying connection"))
        (text "ACK") (unacknowledged m) header (λ u e. refl) silent (omega arith),
    acknowledge-Submitted (not_written fuel garbage m) (text "NACK") (unsent m st) header
        (not_written_lem fuel garbage m st) silent (omega arith),
    stomp_unsubscribe-Submitted d silent' enough',
  )
