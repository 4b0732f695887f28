-- ===== src/Messenger/Requests.antt =====
-- The frames that a messenger sends without a body, and the receipts that it waits for.
pub mod Destination
pub mod Submit
pub mod Receipt
pub mod Confirmed
pub mod Answered
pub mod Settled
pub mod Total
pub mod Calls
pub mod Ids
pub mod Frames
pub mod Acknowledge
use libstomp.Prelude.{
  ℕ, ◌-◌, Bool, true, false, Option, none, some, [], ◌∷◌, ◌++◌, Text, Buffer, text, c_str, strlen,
  has_prefix, ltb, ◌==◌, if◌then◌else◌, ℤ, pos, to_int, to_size, is_natural, size_mod,
}
use libstomp.Exec.{◌>>=◌, deref, pure, crash}
use libstomp.Platform.{Apr}
use libstomp.Status.{StatusCode, success}
use libstomp.Machine.{M, on_mem}
use libstomp.Io.Base.{Connection, Frame}
use libstomp.Io.Frame.{stomp_write}
use libstomp.Io.Read.{Incoming, frame, no_frame, stomp_read, stomp_io_can_read}
use libstomp.Messenger.Base.{
  Messenger, DisconnectionHeader, SubscriptionHeader, AckHeader, TransactionHeader, strips_root,
  fail_with, fail_with_engine,
}

-- `(int) id` for an int64_t
unfoldable pub narrowed : ℤ → ℤ
narrowed id = to_int (to_size id)

module _ ⦃apr : Apr⦄ where
  -- apr_hash_make, whose null is passed on to apr_hash_set
  unfoldable pub new_headers : apr.Pool → M apr.Hash
  new_headers pool = do h ← on_mem (apr.hash_make (some pool)); deref h

  -- apr_itoa takes an int, and a receipt is a uint32_t.
  unfoldable pub stomp_write_receipt : apr.Hash → ℕ → apr.Hash
  stomp_write_receipt h receipt =
      if ltb 0 receipt
      then apr.hash_set h (text "receipt") (some (apr.itoa (to_int receipt)))
      else h

  unfoldable pub stomp_write_message_id : apr.Hash → ℤ → apr.Hash
  unfolding narrowed
  stomp_write_message_id h message_id =
      if is_natural message_id
      then apr.hash_set h (text "id") (some (apr.itoa (narrowed message_id)))
      else h

  unfoldable pub stomp_write_transaction_id : apr.Hash → ℤ → apr.Hash
  unfolding narrowed
  stomp_write_transaction_id h transaction_id =
      if is_natural transaction_id
      then apr.hash_set h (text "transaction") (some (apr.itoa (narrowed transaction_id)))
      else h

  -- messenger->uri.path, or &messenger->uri.path[1]
  unfoldable pub stripped : Option Text → M (Option Text)
  stripped none = crash
  stripped (some []) = crash
  stripped (some (_ ∷ path)) = pure (some path)

  unfoldable pub destination : Messenger apr → M (Option Text)
  unfolding strips_root stripped
  destination m = if strips_root m then stripped m.uri.path else pure m.uri.path

  -- A frame without a body.
  abbrev pub request : Text → apr.Hash → Frame apr
  request command h = record {
    command = command;
    headers = some h;
    body = none;
    body_length = size_mod - 1;
  }

  abbrev pub ack_headers : apr.Hash → AckHeader → apr.Hash
  ack_headers h d =
      stomp_write_receipt
        (stomp_write_transaction_id (stomp_write_message_id h d.message_id) d.transaction_id)
        d.receipt

module _ ⦃apr : Apr⦄ (fuel : ℕ) (garbage : ℕ) where
  -- The body is printed too, and the read runs on where it has no terminator.
  unfoldable pub bad_receipt : Messenger apr → Text → Option Buffer → M (StatusCode × Messenger apr)
  unfolding fail_with
  bad_receipt m command none =
      fail_with m (text "Invalid disconnection reply: " ++ (command ++ text " (null)"))
  bad_receipt m command (some body) = do
    _ ← deref (strlen body)
    fail_with m (
        text "Invalid disconnection reply: "
        ++ (command ++ (text " (" ++ (c_str body ++ text ")"))))

  unfoldable pub check_receipt : Messenger apr → Incoming apr → M (StatusCode × Messenger apr)
  unfolding fail_with_engine bad_receipt
  check_receipt m (no_frame stat) =
      fail_with_engine m (text "Unable to read the frame data to the underlying connection: ")
  check_receipt m (frame reply_frame) =
      if has_prefix reply_frame.command (text "RECEIPT")
      then pure (success, m)
      else bad_receipt m reply_frame.command reply_frame.body

  -- After the wait for the reply.
  unfoldable pub receipt_from :
      Messenger apr → Connection apr → Bool → M (StatusCode × Messenger apr)
  unfolding fail_with check_receipt
  receipt_from m connection false = fail_with m (text "Timed out while trying to read data")
  receipt_from m connection true = do
    reply ← stomp_read fuel connection m.pool garbage
    check_receipt m reply

  unfoldable pub stomp_process_receipt : Messenger apr → M (StatusCode × Messenger apr)
  unfolding receipt_from
  stomp_process_receipt m = do
    connection ← deref m.connection
    can_read ← stomp_io_can_read connection
    receipt_from m connection can_read

  -- The end of every request: the frame is written, and its receipt awaited where it has one.
  unfoldable pub submit_or :
      M (StatusCode × Messenger apr)
      → Messenger apr
      → Frame apr
      → apr.Pool
      → Bool
      → M (StatusCode × Messenger apr)
  submit_or failed m f pool receipt = do
    connection ← deref m.connection
    stat ← stomp_write fuel connection f pool
    elim (stat == 0) [
      | false ↦ failed
      | true ↦ if receipt then stomp_process_receipt m else pure (success, m)
    ]

  abbrev pub not_written : Messenger apr → M (StatusCode × Messenger apr)
  not_written m =
      fail_with_engine m (text "Unable to write the frame data to the underlying connection: ")

  unfoldable pub submit :
      Messenger apr → Frame apr → apr.Pool → Bool → M (StatusCode × Messenger apr)
  unfolding submit_or
  submit m = submit_or (not_written m) m

  unfoldable pub stomp_disconnect :
      Messenger apr → Option DisconnectionHeader → M (StatusCode × Messenger apr)
  unfolding new_headers stomp_write_receipt submit
  stomp_disconnect m header = do
    h ← new_headers m.pool
    elim header [
      | none ↦ submit m (request (text "DISCONNECT") h) m.pool false
      | some d ↦
          submit m (request (text "DISCONNECT") (stomp_write_receipt h d.receipt)) m.pool
            (ltb 0 d.receipt)
    ]

  unfoldable pub stomp_subscribe :
      Messenger apr → Option SubscriptionHeader → M (StatusCode × Messenger apr)
  unfolding new_headers destination stomp_write_receipt submit fail_with
  stomp_subscribe m header = do
    h ← new_headers m.pool
    path ← destination m
    elim header [
      | none ↦ fail_with m (text "A STOMP subscription requires a subscription ID")
      | some d ↦ do
        let h' = apr.hash_set h (text "destination") path
        let h'' = apr.hash_set h' (text "id") (some (apr.itoa (pos d.id)))
        submit m (request (text "SUBSCRIBE") (stomp_write_receipt h'' d.receipt)) m.pool
            (ltb 0 d.receipt)
    ]

  -- The header is read before it is compared with null, and the path keeps its root.
  unfoldable pub stomp_unsubscribe :
      Messenger apr → Option SubscriptionHeader → M (StatusCode × Messenger apr)
  unfolding new_headers stomp_write_receipt submit
  stomp_unsubscribe m header = do
    h ← new_headers m.pool
    d ← deref header
    let h' = apr.hash_set h (text "destination") m.uri.path
    let h'' = apr.hash_set h' (text "id") (some (apr.itoa (pos d.id)))
    submit m (request (text "UNSUBSCRIBE") (stomp_write_receipt h'' d.receipt)) m.pool
        (ltb 0 d.receipt)

  -- What stomp_ack and stomp_nack share: they differ in the command and in how they fail.
  unfoldable pub acknowledge :
      M (StatusCode × Messenger apr)
      → Text
      → Messenger apr
      → Option AckHeader
      → M (StatusCode × Messenger apr)
  unfolding new_headers stomp_write_receipt stomp_write_transaction_id stomp_write_message_id
      submit_or
  acknowledge failed command m header = do
    h ← new_headers m.pool
    elim header [
      | none ↦ submit_or failed m (request command h) m.pool false
      | some d ↦ submit_or failed m (request command (ack_headers h d)) m.pool (ltb 0 d.receipt)
    ]

  unfoldable pub stomp_ack : Messenger apr → Option AckHeader → M (StatusCode × Messenger apr)
  unfolding acknowledge fail_with
  stomp_ack m =
      acknowledge (fail_with m (text "Unable to write the frame data to the underlying connection"))
        (text "ACK") m

  unfoldable pub stomp_nack : Messenger apr → Option AckHeader → M (StatusCode × Messenger apr)
  unfolding acknowledge
  stomp_nack m = acknowledge (not_written m) (text "NACK") m

  unfoldable pub stomp_transaction :
      Messenger apr → Option TransactionHeader → Text → M (StatusCode × Messenger apr)
  unfolding new_headers stomp_write_receipt stomp_write_transaction_id submit
  stomp_transaction m header command = do
    h ← new_headers m.pool
    elim header [
      | none ↦ submit m (request command h) m.pool false
      | some d ↦
          submit m
            (request command
              (stomp_write_receipt (stomp_write_transaction_id h d.transaction_id) d.receipt))
            m.pool (ltb 0 d.receipt)
    ]

  unfoldable pub stomp_begin :
      Messenger apr → Option TransactionHeader → M (StatusCode × Messenger apr)
  unfolding stomp_transaction
  stomp_begin m header = stomp_transaction m header (text "BEGIN")

  unfoldable pub stomp_commit :
      Messenger apr → Option TransactionHeader → M (StatusCode × Messenger apr)
  unfolding stomp_transaction
  stomp_commit m header = stomp_transaction m header (text "COMMIT")

  unfoldable pub stomp_abort :
      Messenger apr → Option TransactionHeader → M (StatusCode × Messenger apr)
  unfolding stomp_transaction
  stomp_abort m header = stomp_transaction m header (text "ABORT")
