-- ===== src/Messenger/Requests/Confirmed.antt =====
-- The requests with a receipt: the frame that is sent, and what the reply makes of it.
use libstomp.Prelude.{
  ℕ, ◌<◌, ◌≡◌, ◌∙◌, ap, true, some, Text, Buffer, text, length, strlen, ltb, negsuc, arith,
}
use libstomp.Exec.{done, bind-done}
use libstomp.Platform.{Apr, Wire, HasMemory, Unsplit}
use libstomp.Status.{StatusCode, failure}
use libstomp.Machine.{State, M}
use libstomp.Io.Base.{Connection}
use libstomp.Io.Read.Arrived.{Arrives}
use libstomp.Messenger.Base.{Messenger, DisconnectionHeader, TransactionHeader}
use libstomp.Messenger.Requests.{
  new_headers, stomp_write_receipt, stomp_write_transaction_id, request, not_written, submit_or,
  submit, stomp_disconnect, stomp_transaction, stomp_begin, stomp_commit, stomp_abort,
}
use libstomp.Messenger.Requests.Receipt.{
  verdict, Confirmed, ConfirmedOr, ConfirmedOr-mem, submit_or-Confirmed,
}
use libstomp.Messenger.Requests.Submit.{unsent, not_written_lem}
use libstomp.Messenger.Requests.Frames.{request-content_length, request_text, new_headers_lem}

module _ ⦃apr : Apr⦄ where
  -- The frame of a transaction that asks for a receipt, on a table `h`.
  abbrev pub transaction_text : apr.Hash → Text → TransactionHeader → Text
  transaction_text h kind d =
      request_text kind
        (stomp_write_receipt (stomp_write_transaction_id h d.transaction_id) d.receipt)

module _ ⦃apr : Apr⦄ (wire : Wire apr) (memory : HasMemory apr) (unsplit : Unsplit apr wire)
    (s : apr.Socket) (fuel : ℕ) (garbage : ℕ) (m : Messenger apr) (c : Connection apr)
    (opened : m.connection ≡ some c) (open_socket : c.socket ≡ some s) {command : Text}
    {body : Buffer} {rest : Text} {input : Text}
    (arrives : Arrives memory fuel command body rest input) (n : ℕ) (ends : strlen body ≡ some n)
    (st : State apr) (arrived : wire.input s st.net ≡ input) where
  abbrev Confirms : M (StatusCode × Messenger apr) → Text → Type 0
  Confirms run bs = Confirmed wire s m (verdict m command body) rest input run bs st

  with_receipt : (receipt : ℕ) → 0 < receipt → ltb 0 receipt ≡ true
  with_receipt receipt h = ground arith

  -- A request on a new table of headers, with its own way to fail.
  pub request_or-Confirmed :
      (failing : M (StatusCode × Messenger apr)) (lost : Messenger apr)
      (run : M (StatusCode × Messenger apr)) (kind : Text) (h : apr.Hash) (receipt : ℕ)
      → ((u : State apr) → u.engine_error ≡ st.engine_error → failing u ≡ done ((failure, lost), u))
      → 0 < receipt
      → run st
        ≡ submit_or fuel garbage failing m
            (request kind h)
            m.pool
            (ltb 0 receipt)
            (record st { mem = (apr.hash_make (some m.pool) st.mem).1 })
      → length (request_text kind h) < fuel
      → ConfirmedOr wire s m (verdict m command body) rest input lost run (request_text kind h) st
  request_or-Confirmed failing lost run kind h receipt fails asks e enough =
      let u : State apr = record st { mem = (apr.hash_make (some m.pool) st.mem).1 } in
      ConfirmedOr-mem wire s m (verdict m command body) rest input lost run
        (submit_or fuel garbage failing m (request kind h) m.pool true) (request_text kind h) st
        u.mem
        (e
          ∙ ap (λ b. submit_or fuel garbage failing m (request kind h) m.pool b u)
              (with_receipt receipt asks))
        (submit_or-Confirmed wire memory unsplit s fuel garbage m c opened open_socket arrives n
          ends failing lost (request kind h) m.pool (negsuc 0) u fails
          (request-content_length kind h) tt enough arrived)

  pub request-Confirmed :
      (run : M (StatusCode × Messenger apr)) (kind : Text) (h : apr.Hash) (receipt : ℕ)
      → 0 < receipt
      → run st
        ≡ submit fuel garbage m
            (request kind h)
            m.pool
            (ltb 0 receipt)
            (record st { mem = (apr.hash_make (some m.pool) st.mem).1 })
      → length (request_text kind h) < fuel
      → Confirms run (request_text kind h)
  unfolding submit
  request-Confirmed run kind h receipt =
      request_or-Confirmed (not_written fuel garbage m) (unsent m st) run kind h receipt
        (not_written_lem fuel garbage m st)

  -- With memory, fuel for the frames, a messenger with a connection, receives of one byte or more
  -- that bring all that they ask for, and a frame that has arrived, whose lines the reader takes,
  -- and whose body has a terminator: stomp_disconnect with a header that asks for a receipt ends.
  -- If the whole DISCONNECT frame has gone, the reply has been read, and nothing behind it; the
  -- call succeeds and leaves the messenger as it was if the command of the reply starts with
  -- RECEIPT, and fails with a message that has the command and the text of the body if not. If a
  -- prefix of the frame has gone, the call fails with the message of the engine and reads nothing.
  pub stomp_disconnect-Confirmed :
      (d : DisconnectionHeader)
      → 0 < d.receipt
      → length (request_text (text "DISCONNECT") (stomp_write_receipt memory.empty d.receipt))
        < fuel
      → Confirms
          (stomp_disconnect fuel garbage m (some d))
          (request_text (text "DISCONNECT") (stomp_write_receipt memory.empty d.receipt))
  unfolding stomp_disconnect
  stomp_disconnect-Confirmed d asks =
      request-Confirmed (stomp_disconnect fuel garbage m (some d)) (text "DISCONNECT") _ d.receipt
        asks (bind-done (new_headers m.pool) _ (new_headers_lem memory m.pool st))

  transaction-Confirmed :
      (d : TransactionHeader) (kind : Text)
      → 0 < d.receipt
      → length (transaction_text memory.empty kind d) < fuel
      → Confirms
          (stomp_transaction fuel garbage m (some d) kind)
          (transaction_text memory.empty kind d)
  unfolding stomp_transaction
  transaction-Confirmed d kind asks =
      request-Confirmed (stomp_transaction fuel garbage m (some d) kind) kind _ d.receipt asks
        (bind-done (new_headers m.pool) _ (new_headers_lem memory m.pool st))

  -- With memory, receives of one byte or more that bring all that they ask for, and a frame that
  -- has arrived and whose body has a terminator: stomp_begin, stomp_commit and stomp_abort each end
  -- on a header that asks for a receipt. If their whole frame has gone, with the transaction and
  -- the receipt, the reply has been read, and nothing behind it; the call succeeds and leaves the
  -- messenger as it was if the command of the reply starts with RECEIPT, and fails with a message
  -- about the reply if not. If a prefix of the frame has gone, the call fails with the message of
  -- the engine and reads nothing.
  pub transactions-Confirmed :
      (d : TransactionHeader)
      → 0 < d.receipt
      → length (transaction_text memory.empty (text "COMMIT") d) < fuel
      → Confirms
          (stomp_begin fuel garbage m (some d))
          (transaction_text memory.empty (text "BEGIN") d)
        × Confirms
            (stomp_commit fuel garbage m (some d))
            (transaction_text memory.empty (text "COMMIT") d)
        × Confirms
            (stomp_abort fuel garbage m (some d))
            (transaction_text memory.empty (text "ABORT") d)
  unfolding stomp_begin stomp_commit stomp_abort text
  transactions-Confirmed d asks enough = (
    transaction-Confirmed d (text "BEGIN") asks (omega arith),
    transaction-Confirmed d (text "COMMIT") asks (omega arith),
    transaction-Confirmed d (text "ABORT") asks (omega arith),
  )
