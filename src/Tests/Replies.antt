-- ===== src/Tests/Replies.antt =====
-- Requests whose reply has arrived.
use libstomp.Prelude.{
  ◌≡◌, List, [], ◌∷◌, ◌++◌, Text, text, none, some, false, refl, arith, decimal, to_int,
  is_positive, same_text, strlen, pos, negsuc, is_natural, to_size,
}
use libstomp.Platform.Script.{script_hash, script_memory}
use libstomp.Platform.Script.Wiring.{script_wire, script_unsplit}
use libstomp.Platform.Table.{insert}
use libstomp.Status.{StatusCode}
use libstomp.Machine.{M}
use libstomp.Io.Frame.{content_length}
use libstomp.Io.Frame.Writes.{header_text, frame_text}
use libstomp.Io.Read.Arrived.{Arrives, closed}
use libstomp.Messenger.Base.{
  Messenger, strips_root, TransactionHeader, SendHeader, AckHeader, SubscriptionHeader,
}
use libstomp.Messenger.Requests.{
  stomp_write_receipt, stomp_write_transaction_id, narrowed, stomp_disconnect, stomp_begin,
  stomp_commit, stomp_abort, stomp_ack, stomp_nack, stomp_subscribe, stomp_unsubscribe,
  stomp_write_message_id,
}
use libstomp.Messenger.Requests.Acknowledge.{unacknowledged}
use libstomp.Messenger.Requests.Answered.{
  ack_text, subscription_text, unsubscription_text, requests-Confirmed,
}
use libstomp.Messenger.Requests.Frames.{request_text}
use libstomp.Messenger.Requests.Receipt.{verdict, Confirmed, ConfirmedOr}
use libstomp.Messenger.Requests.Confirmed.{stomp_disconnect-Confirmed, transaction_text}
use libstomp.Messenger.Exchange.{connect_headers, handshake, stomp_send}
use libstomp.Messenger.Exchange.Handshake.{greeted, handshake-Confirmed}
use libstomp.Messenger.Exchange.Table.{sent_value, send_text, stomp_send-Table}
use libstomp.Platform.{find}
use libstomp.Messenger.Exchange.Send.{sent_frame, stomp_send-Confirmed}
use libstomp.Tests.Fixtures.{quiet, connected, start, ready, note}

-- A frame without headers and with an empty body, and an x behind it.
abbrev reply : Text → Text
reply command = command ++ 10 ∷ (header_text [] ++ 10 ∷ ([] ++ 0 ∷ 10 ∷ text "x"))

receipt-Arrives :
    Arrives (script_memory false) 300 (text "RECEIPT") (0 ∷ []) (text "x") (reply (text "RECEIPT"))
unfolding text
receipt-Arrives = closed [] [] (omega arith) (omega arith) (omega arith) refl refl

connected-Arrives :
    Arrives
      (script_memory false)
      300
      (text "CONNECTED")
      (0 ∷ [])
      (text "x")
      (reply (text "CONNECTED"))
unfolding text
connected-Arrives = closed [] [] (omega arith) (omega arith) (omega arith) refl refl

stomp_disconnect-Confirmed_example :
    Confirmed
      (script_wire false)
      tt
      ready
      (verdict ready (text "RECEIPT") (0 ∷ []))
      (text "x")
      (reply (text "RECEIPT"))
      (stomp_disconnect 300 0 ready (some (record { receipt = 124 })))
      (request_text (text "DISCONNECT") (stomp_write_receipt [] 124))
      (start (reply (text "RECEIPT")))
unfolding text decimal to_int insert same_text stomp_write_receipt strlen
stomp_disconnect-Confirmed_example =
    stomp_disconnect-Confirmed (script_wire false) (script_memory false) (script_unsplit false) tt
      300 0 ready connected refl refl receipt-Arrives 0 refl (start (reply (text "RECEIPT"))) refl
      (record { receipt = 124 }) (omega arith) (omega arith)

handshake-Confirmed_example :
    Confirmed
      (script_wire false)
      tt
      ready
      (greeted ready (text "CONNECTED"))
      (text "x")
      (reply (text "CONNECTED"))
      (handshake 300 0 ready none)
      (request_text (text "CONNECT") (connect_headers [] none))
      (start (reply (text "CONNECTED")))
unfolding text decimal insert same_text connect_headers
handshake-Confirmed_example =
    handshake-Confirmed (script_wire false) (script_memory false) (script_unsplit false) tt 300 0
      ready connected refl refl connected-Arrives none (start (reply (text "CONNECTED")))
      (omega arith) refl

abbrev work : TransactionHeader
work = record { transaction_id = pos 42; receipt = 7 }

abbrev Settles : M (StatusCode × Messenger quiet) → Text → Type 0
Settles run bs =
    Confirmed (script_wire false) tt ready (verdict ready (text "RECEIPT") (0 ∷ [])) (text "x")
      (reply (text "RECEIPT")) run bs (start (reply (text "RECEIPT")))

abbrev seen : AckHeader
seen = record { receipt = 7; message_id = pos 3; transaction_id = pos 42 }

abbrev listener : SubscriptionHeader
listener = record { receipt = 7; id = 3 }

abbrev SettlesOr : Messenger quiet → M (StatusCode × Messenger quiet) → Text → Type 0
SettlesOr lost run bs =
    ConfirmedOr (script_wire false) tt ready (verdict ready (text "RECEIPT") (0 ∷ [])) (text "x")
      (reply (text "RECEIPT")) lost run bs (start (reply (text "RECEIPT")))

requests-Confirmed_example :
    Settles (stomp_begin 300 0 ready (some work)) (transaction_text [] (text "BEGIN") work)
    × Settles (stomp_commit 300 0 ready (some work)) (transaction_text [] (text "COMMIT") work)
    × Settles (stomp_abort 300 0 ready (some work)) (transaction_text [] (text "ABORT") work)
    × SettlesOr
        (unacknowledged ready)
        (stomp_ack 300 0 ready (some seen))
        (ack_text [] (text "ACK") seen)
    × Settles (stomp_nack 300 0 ready (some seen)) (ack_text [] (text "NACK") seen)
    × Settles
        (stomp_subscribe 300 0 ready (some listener))
        (subscription_text ready [] 47 (text "q") listener)
    × Settles
        (stomp_unsubscribe 300 0 ready (some listener))
        (unsubscription_text ready [] listener)
unfolding text decimal to_int to_size insert same_text stomp_write_receipt
    stomp_write_transaction_id stomp_write_message_id is_natural strlen narrowed strips_root
requests-Confirmed_example =
    requests-Confirmed (script_wire false) (script_memory false) (script_unsplit false) tt 300 0
      ready connected refl refl receipt-Arrives 0 refl (start (reply (text "RECEIPT"))) refl work
      seen listener 47 (text "q") refl (omega arith) (omega arith) (omega arith) (omega arith)
      (omega arith) (omega arith) (omega arith)

abbrev asking : SendHeader
asking = record { receipt = 124; transaction_id = negsuc 0 }

stomp_send-Confirmed_example : Settles (stomp_send 300 0 ready (some asking) note) (
    frame_text
      (sent_frame ready ((text "lang", text "c") ∷ []) 47 (text "q") (some asking) note)
      (pos 3))
unfolding text insert same_text decimal content_length to_int to_size is_positive strips_root
    stomp_write_receipt stomp_write_transaction_id is_natural strlen narrowed
stomp_send-Confirmed_example =
    stomp_send-Confirmed (script_wire false) tt 300 0 ready connected refl refl
      (record { hash = some ((text "lang", text "c") ∷ []) }) ((text "lang", text "c") ∷ []) refl
      refl 47 (text "q") refl (script_memory false) (script_unsplit false) receipt-Arrives 0 refl
      (some asking) note (pos 3) (start (reply (text "RECEIPT"))) refl refl refl (omega arith)
      (omega arith)

-- A call that asks for a receipt and has a transaction.
abbrev transacted : SendHeader
transacted = record { receipt = 7; transaction_id = pos 42 }

stomp_send-Table_example :
    (entries : List (Text × Text)) × ((name : Text)
      → find name entries
        ≡ sent_value ⦃apr = quiet⦄
            (some transacted)
            (some (text "q"))
            (quiet.hash_get ((text "lang", text "c") ∷ []))
            name)
    × Settles
        (stomp_send 300 0 ready (some transacted) note)
        (send_text ⦃apr = quiet⦄ entries (pos 3) note.body)
unfolding text insert same_text decimal content_length to_int to_size is_positive strips_root
    stomp_write_receipt stomp_write_transaction_id is_natural strlen narrowed
stomp_send-Table_example =
    stomp_send-Table (script_wire false) (script_memory false) (script_unsplit false)
      (script_hash false) tt 300 0 ready connected refl refl
      (record { hash = some ((text "lang", text "c") ∷ []) }) ((text "lang", text "c") ∷ []) refl
      refl 47 (text "q") refl receipt-Arrives 0 refl (some transacted) note (pos 3)
      (start (reply (text "RECEIPT"))) refl refl refl (omega arith) (omega arith)
