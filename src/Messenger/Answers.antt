-- ===== src/Messenger/Answers.antt =====
-- What a request answers, on every branch: it leaves the messenger alone and succeeds, or it fails and
-- says why in the messenger's status.
pub mod Opening
use libstomp.Prelude.{ℕ, Bool, false, Option, none, some, ◌++◌, Text, Buffer, printed, ◌==◌}
use libstomp.Exec.{Ensures, Ensures-bind, Ensures-if, Ensures-elim, pure, deref}
use libstomp.Platform.{Apr}
use libstomp.Status.{StatusCode, failure, success}
use libstomp.Engine.{stomp_engine_last_status}
use libstomp.Machine.{M}
use libstomp.Io.Base.{Frame}
use libstomp.Io.Frame.{stomp_write}
use libstomp.Io.Read.{stomp_read, stomp_io_can_read, Incoming, frame, no_frame}
use libstomp.Messenger.Base.{
  Messenger, DisconnectionHeader, SubscriptionHeader, AckHeader, TransactionHeader, SendHeader,
  messenger_status_set, fail_with, fail_with_engine,
}
use libstomp.Message.{Message}
use libstomp.Messenger.Requests.{
  new_headers, destination, bad_receipt, check_receipt, stomp_process_receipt, submit_or,
  not_written, submit, stomp_disconnect, stomp_subscribe, stomp_unsubscribe, acknowledge, stomp_ack,
  stomp_nack, stomp_transaction,
}
use libstomp.Messenger.Exchange.{stomp_send}

module _ ⦃apr : Apr⦄ where
  pub data Answer (m : Messenger apr) : StatusCode × Messenger apr → Type 0 where
    fine : Answer m (success, m)
    refused : (t : Text) → Answer m (failure, messenger_status_set m failure t)

  abbrev pub Answers : Messenger apr → M (StatusCode × Messenger apr) → Type 0
  Answers m = Ensures (Answer m)

  module _ (m : Messenger apr) where
    pub Answers-fine : Answers m (pure (success, m))
    Answers-fine = record { at = λ s. fine }

    pub Answers-fail_with : (t : Text) → Answers m (fail_with m t)
    unfolding fail_with
    Answers-fail_with t = record { at = λ s. refused t }

    pub Answers-fail_with_engine : (t : Text) → Answers m (fail_with_engine m t)
    unfolding fail_with_engine
    Answers-fail_with_engine t =
        Ensures-bind stomp_engine_last_status _ (λ e. Answers-fail_with (t ++ printed e.message))

module _ ⦃apr : Apr⦄ (fuel : ℕ) (garbage : ℕ) (m : Messenger apr) where
  bad_receipt-Answers :
      (command : Text) (b : Option Buffer) → Answers m (bad_receipt fuel garbage m command b)
  unfolding bad_receipt
  bad_receipt-Answers command none = Answers-fail_with m _
  bad_receipt-Answers command (some b) = search (Ensures-bind, Answers-fail_with)

  check_receipt-Answers : (r : Incoming apr) → Answers m (check_receipt fuel garbage m r)
  unfolding check_receipt
  check_receipt-Answers (no_frame stat) = Answers-fail_with_engine m _
  check_receipt-Answers (frame f) =
      Ensures-if _ _ _ (Answers-fine m) (bad_receipt-Answers f.command f.body)

  pub stomp_process_receipt-Answers : Answers m (stomp_process_receipt fuel garbage m)
  unfolding stomp_process_receipt
  stomp_process_receipt-Answers = Ensures-bind (deref m.connection) _ λ connection.
      Ensures-bind (stomp_io_can_read connection) _ λ can_read.
        Ensures-elim can_read _ _
          (Ensures-bind (stomp_read fuel connection m.pool garbage) _ check_receipt-Answers)
          (Answers-fail_with m _)

  -- A failure to write may be told in its own words.
  pub submit_or-Answers :
      (failed : M (StatusCode × Messenger apr)) (f : Frame apr) (pool : apr.Pool) (b : Bool)
      → Answers m failed
      → Answers m (submit_or fuel garbage failed m f pool b)
  unfolding submit_or
  submit_or-Answers failed f pool b told = Ensures-bind (deref m.connection) _ λ connection.
      Ensures-bind (stomp_write fuel connection f pool) _ λ stat.
        Ensures-elim (stat == 0) _ _
          (Ensures-if b _ _ stomp_process_receipt-Answers (Answers-fine m)) told

  pub submit-Answers :
      (f : Frame apr) (pool : apr.Pool) (b : Bool) → Answers m (submit fuel garbage m f pool b)
  unfolding submit
  submit-Answers f pool b =
      submit_or-Answers (not_written fuel garbage m) f pool b (Answers-fail_with_engine m _)

  pub disconnect-Answers :
      (header : Option DisconnectionHeader) → Answers m (stomp_disconnect fuel garbage m header)
  unfolding stomp_disconnect
  disconnect-Answers none = Ensures-bind (new_headers m.pool) _ λ h. submit-Answers _ _ false
  disconnect-Answers (some d) = Ensures-bind (new_headers m.pool) _ λ h. submit-Answers _ _ _

  pub subscribe-Answers :
      (header : Option SubscriptionHeader) → Answers m (stomp_subscribe fuel garbage m header)
  unfolding stomp_subscribe
  subscribe-Answers none =
      Ensures-bind (new_headers m.pool) _
        λ h. Ensures-bind (destination m) _ λ path. Answers-fail_with m _
  subscribe-Answers (some d) =
      Ensures-bind (new_headers m.pool) _
        λ h. Ensures-bind (destination m) _ λ path. submit-Answers _ _ _

  pub unsubscribe-Answers :
      (header : Option SubscriptionHeader) → Answers m (stomp_unsubscribe fuel garbage m header)
  unfolding stomp_unsubscribe
  unsubscribe-Answers header =
      Ensures-bind (new_headers m.pool) _
        λ h. Ensures-bind (deref header) _ λ d. submit-Answers _ _ _

  acknowledge-Answers :
      (failed : M (StatusCode × Messenger apr)) (command : Text) (header : Option AckHeader)
      → Answers m failed
      → Answers m (acknowledge fuel garbage failed command m header)
  unfolding acknowledge
  acknowledge-Answers failed command none told =
      Ensures-bind (new_headers m.pool) _ λ h. submit_or-Answers failed _ _ false told
  acknowledge-Answers failed command (some d) told =
      Ensures-bind (new_headers m.pool) _ λ h. submit_or-Answers failed _ _ _ told

  pub ack-Answers : (header : Option AckHeader) → Answers m (stomp_ack fuel garbage m header)
  unfolding stomp_ack
  ack-Answers header = acknowledge-Answers _ _ header (Answers-fail_with m _)

  pub nack-Answers : (header : Option AckHeader) → Answers m (stomp_nack fuel garbage m header)
  unfolding stomp_nack
  nack-Answers header = acknowledge-Answers _ _ header (Answers-fail_with_engine m _)

  pub transaction-Answers :
      (header : Option TransactionHeader) (command : Text)
      → Answers m (stomp_transaction fuel garbage m header command)
  unfolding stomp_transaction
  transaction-Answers none command =
      Ensures-bind (new_headers m.pool) _ λ h. submit-Answers _ _ false
  transaction-Answers (some d) command =
      Ensures-bind (new_headers m.pool) _ λ h. submit-Answers _ _ _

  pub send-Answers :
      (header : Option SendHeader) (message : Message apr)
      → Answers m (stomp_send fuel garbage m header message)
  unfolding stomp_send
  send-Answers header message = Ensures-bind (deref m.exchange_properties) _ λ properties.
      Ensures-bind (deref properties.hash) _
        λ h. Ensures-bind (destination m) _ λ path. submit-Answers _ _ _
