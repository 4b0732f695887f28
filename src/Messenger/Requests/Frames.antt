-- ===== src/Messenger/Requests/Frames.antt =====
-- The frames that stomp_begin, stomp_commit, stomp_abort and stomp_subscribe put on the wire when no
-- receipt is asked for.
use libstomp.Prelude.{
  pos, ◌∷◌, ℕ, ◌<◌, ◌+◌, length-append, arith, ◌≡◌, refl, ◌∙◌, Option, none, some, [], Text, text,
  length, negsuc, false, ltb, if◌then◌else◌, ap, to_int, is_positive,
}
use libstomp.Exec.{done, bind-done}
use libstomp.Platform.{Apr, Wire, HasMemory}
use libstomp.Status.{StatusCode}
use libstomp.Machine.{State, M}
use libstomp.Io.Base.{Connection}
use libstomp.Io.Frame.{content_length}
use libstomp.Io.Frame.Writes.{frame_text}
use libstomp.Messenger.Requests.Destination.{endpoint, destination_lem}
use libstomp.Messenger.Base.{SubscriptionHeader, Messenger, TransactionHeader}
use libstomp.Messenger.Requests.{
  stomp_subscribe, destination, submit, request, new_headers, stomp_transaction, stomp_begin,
  stomp_commit, stomp_abort, stomp_write_transaction_id, stomp_write_receipt,
}
use libstomp.Messenger.Requests.Submit.{Submitted, Submitted-after, unsent, submit-Submitted}

module _ ⦃apr : Apr⦄ where
  pub request-content_length :
      (command : Text) (h : apr.Hash) → content_length (request command h) ≡ some (negsuc 0)
  unfolding content_length to_int is_positive
  request-content_length command h = refl

  -- The text of a frame without a body, which announces the length -1.
  abbrev pub request_text : Text → apr.Hash → Text
  request_text command h = frame_text (request command h) (negsuc 0)

  pub new_headers_lem :
      (memory : HasMemory apr) (pool : apr.Pool) (st : State apr)
      → new_headers pool st
        ≡ done (memory.empty, record st { mem = (apr.hash_make (some pool) st.mem).1 })
  unfolding new_headers
  new_headers_lem memory pool st = rw memory.hash_made

  abbrev pub transaction_headers : Option TransactionHeader → apr.Hash → apr.Hash
  transaction_headers none h = h
  transaction_headers (some d) h = stomp_write_transaction_id h d.transaction_id

  abbrev pub NoReceipt : Option TransactionHeader → Type 0
  NoReceipt none = Unit
  NoReceipt (some d) = d.receipt ≡ 0

  -- The headers of a subscription: the destination of the messenger, and the id.
  abbrev pub subscription_headers :
      Messenger apr → apr.Hash → ℕ → Text → SubscriptionHeader → apr.Hash
  subscription_headers m h b path d =
      apr.hash_set (apr.hash_set h (text "destination") (some (endpoint m b path))) (text "id")
        (some (apr.itoa (pos d.id)))

  no_receipt :
      (h : apr.Hash) (receipt : ℕ)
      → receipt ≡ 0
      → (stomp_write_receipt h receipt ≡ h) × (ltb 0 receipt ≡ false)
  unfolding stomp_write_receipt
  no_receipt h receipt z = (rw (z, if◌then◌else◌, ltb), rw z)

module _ ⦃apr : Apr⦄ (wire : Wire apr) (memory : HasMemory apr) (s : apr.Socket) (fuel : ℕ)
    (garbage : ℕ) (m : Messenger apr) (c : Connection apr) (opened : m.connection ≡ some c)
    (open_socket : c.socket ≡ some s) (st : State apr) where
  request-Submitted :
      (run : M (StatusCode × Messenger apr)) (command : Text) (h : apr.Hash)
      → run st
        ≡ submit fuel garbage m
            (request command h)
            m.pool
            false
            (record st { mem = (apr.hash_make (some m.pool) st.mem).1 })
      → length (request_text command h) < fuel
      → Submitted wire s m (unsent m st) run (request_text command h) st
  request-Submitted run command h e enough =
      Submitted-after wire s m (unsent m st) run
        (submit fuel garbage m (request command h) m.pool false) _ st _ e refl
        (submit-Submitted wire s fuel garbage m c opened open_socket (request command h) m.pool
          (negsuc 0) (record st { mem = (apr.hash_make (some m.pool) st.mem).1 })
          (request-content_length command h) tt enough)

  submit_no_receipt :
      (command : Text) (h : apr.Hash) (receipt : ℕ) (u : State apr)
      → receipt ≡ 0
      → submit fuel garbage m
          (request command (stomp_write_receipt h receipt))
          m.pool
          (ltb 0 receipt)
          u
        ≡ submit fuel garbage m (request command h) m.pool false u
  submit_no_receipt command h receipt u z =
      ap (λ t. submit fuel garbage m (request command t) m.pool (ltb 0 receipt) u)
        (no_receipt h receipt z).0
      ∙ ap (λ b. submit fuel garbage m (request command h) m.pool b u) (no_receipt h receipt z).1

  stomp_transaction_run :
      (header : Option TransactionHeader) (command : Text)
      → NoReceipt header
      → stomp_transaction fuel garbage m header command st
        ≡ submit fuel garbage m
            (request command (transaction_headers header memory.empty))
            m.pool
            false
            (record st { mem = (apr.hash_make (some m.pool) st.mem).1 })
  unfolding stomp_transaction
  stomp_transaction_run none command z =
      bind-done (new_headers m.pool) _ (new_headers_lem memory m.pool st)
  stomp_transaction_run (some d) command z =
      bind-done (new_headers m.pool) _ (new_headers_lem memory m.pool st)
      ∙ submit_no_receipt command (stomp_write_transaction_id memory.empty d.transaction_id)
          d.receipt _ z

  stomp_transaction-Submitted :
      (header : Option TransactionHeader) (command : Text)
      → NoReceipt header
      → length command + length (request_text [] (transaction_headers header memory.empty)) < fuel
      → Submitted wire s m
          (unsent m st)
          (stomp_transaction fuel garbage m header command)
          (request_text command (transaction_headers header memory.empty))
          st
  stomp_transaction-Submitted header command z enough =
      request-Submitted (stomp_transaction fuel garbage m header command) command _
        (stomp_transaction_run header command z)
        (omega (
          arith,
          length-append command (request_text [] (transaction_headers header memory.empty)),
        ))

  -- With memory, and for a header that asks for no receipt, stomp_begin, stomp_commit and
  -- stomp_abort each end. They succeed and change nothing in the messenger if the whole text of
  -- their frame has gone, and fail with the message of the engine behind theirs if a prefix has.
  pub transactions-Submitted :
      (header : Option TransactionHeader)
      → NoReceipt header
      → 6 + length (request_text [] (transaction_headers header memory.empty)) < fuel
      → Submitted wire s m
          (unsent m st)
          (stomp_begin fuel garbage m header)
          (request_text (text "BEGIN") (transaction_headers header memory.empty))
          st
        × Submitted wire s m
            (unsent m st)
            (stomp_commit fuel garbage m header)
            (request_text (text "COMMIT") (transaction_headers header memory.empty))
            st
        × Submitted wire s m
            (unsent m st)
            (stomp_abort fuel garbage m header)
            (request_text (text "ABORT") (transaction_headers header memory.empty))
            st
  unfolding stomp_begin stomp_commit stomp_abort text
  transactions-Submitted header z enough = (
    stomp_transaction-Submitted header (text "BEGIN") z (omega arith),
    stomp_transaction-Submitted header (text "COMMIT") z (omega arith),
    stomp_transaction-Submitted header (text "ABORT") z (omega arith),
  )

  module _ (b : ℕ) (path : Text) (rooted : m.uri.path ≡ some (b ∷ path)) (d : SubscriptionHeader)
      (silent : d.receipt ≡ 0) where
    stomp_subscribe_run :
        stomp_subscribe fuel garbage m (some d) st
        ≡ submit fuel garbage m
            (request (text "SUBSCRIBE") (subscription_headers m memory.empty b path d))
            m.pool
            false
            (record st { mem = (apr.hash_make (some m.pool) st.mem).1 })
    unfolding stomp_subscribe
    stomp_subscribe_run =
        bind-done (new_headers m.pool) _ (new_headers_lem memory m.pool st)
        ∙ bind-done (destination m) _ (destination_lem m b path _ rooted)
        ∙ submit_no_receipt (text "SUBSCRIBE") _ d.receipt _ silent

    -- With memory, for a messenger with an endpoint and a header that asks for no receipt,
    -- stomp_subscribe ends. It succeeds and leaves the messenger as it was if the whole SUBSCRIBE
    -- frame has gone, and fails with the message of the engine behind its own if a prefix has.
    pub stomp_subscribe-Submitted :
        length (request_text (text "SUBSCRIBE") (subscription_headers m memory.empty b path d))
          < fuel
        → Submitted wire s m
            (unsent m st)
            (stomp_subscribe fuel garbage m (some d))
            (request_text (text "SUBSCRIBE") (subscription_headers m memory.empty b path d))
            st
    stomp_subscribe-Submitted =
        request-Submitted (stomp_subscribe fuel garbage m (some d)) (text "SUBSCRIBE")
          (subscription_headers m memory.empty b path d) stomp_subscribe_run
