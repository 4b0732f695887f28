-- ===== src/Tests/Requests.antt =====
-- Requests of a messenger, and its endpoint.
use libstomp.Prelude.{
  ◌≡◌, ◌+◌, ◌*◌, ◌^◌, ◌⊎◌, refl, [], ◌∷◌, text, false, some, none, pos, to_int, to_size,
  is_positive, is_natural, decimal, arith, same_text, refl,
}
use libstomp.Platform.Script.{script_memory}
use libstomp.Platform.Script.Wiring.{script_wire}
use libstomp.Platform.Table.{insert}
use libstomp.Io.Base.{Frame}
use libstomp.Io.Frame.{content_length}
use libstomp.Io.Frame.Writes.{frame_text}
use libstomp.Messenger.Requests.{
  stomp_begin, stomp_subscribe, stomp_commit, stomp_abort, stomp_write_transaction_id,
  stomp_write_message_id, narrowed,
}
use libstomp.Messenger.Requests.Ids.{ids_narrowed}
use libstomp.Messenger.Requests.Submit.{Submitted, unsent}
use libstomp.Messenger.Requests.Frames.{
  request_text, transaction_headers, subscription_headers, stomp_subscribe-Submitted,
  transactions-Submitted,
}
use libstomp.Messenger.Setup.Endpoint.{Accepted, Rejected, stomp_set_endpoint-Destination}
use libstomp.Messenger.Base.{SubscriptionHeader, TransactionHeader, strips_root}
use libstomp.Messenger.Exchange.{stomp_send}
use libstomp.Messenger.Exchange.Send.{sent_frame, stomp_send-Submitted}
use libstomp.Tests.Fixtures.{quiet, connected, start, ready, note}

stomp_set_endpoint-Destination_example :
    Accepted ready (start []) (text "/queue") (quiet.uri_parse (text "/queue"))
    ⊎ Rejected ready (start []) (text "/queue") (quiet.uri_parse (text "/queue"))
stomp_set_endpoint-Destination_example =
    stomp_set_endpoint-Destination ready (start []) (text "/queue")

abbrev work : TransactionHeader
work = record { transaction_id = pos 42; receipt = 0 }

transactions-Submitted_example :
    Submitted
      (script_wire false)
      tt
      ready
      (unsent ready (start []))
      (stomp_begin 100 0 ready (some work))
      (request_text (text "BEGIN") (transaction_headers (some work) []))
      (start [])
    × Submitted
        (script_wire false)
        tt
        ready
        (unsent ready (start []))
        (stomp_commit 100 0 ready (some work))
        (request_text (text "COMMIT") (transaction_headers (some work) []))
        (start [])
    × Submitted
        (script_wire false)
        tt
        ready
        (unsent ready (start []))
        (stomp_abort 100 0 ready (some work))
        (request_text (text "ABORT") (transaction_headers (some work) []))
        (start [])
unfolding text decimal stomp_write_transaction_id narrowed to_size to_int insert same_text
    is_natural
transactions-Submitted_example =
    transactions-Submitted (script_wire false) (script_memory false) tt 100 0 ready connected refl
      refl (start []) (some work) refl (omega arith)

abbrev note_frame : Frame quiet
note_frame = sent_frame ready ((text "lang", text "c") ∷ []) 47 (text "q") none note

stomp_send-Submitted_example :
    Submitted
      (script_wire false)
      tt
      ready
      (unsent ready (start []))
      (stomp_send 200 0 ready none note)
      (frame_text note_frame (pos 3))
      (start [])
unfolding text insert same_text decimal content_length to_int to_size is_positive strips_root
stomp_send-Submitted_example =
    stomp_send-Submitted (script_wire false) tt 200 0 ready connected refl refl
      (record { hash = some ((text "lang", text "c") ∷ []) }) ((text "lang", text "c") ∷ []) refl
      refl 47 (text "q") refl none note (pos 3) (start []) refl refl (omega arith) (omega arith)

ids_narrowed_example :
    (stomp_write_message_id ⦃apr = quiet⦄ [] (pos (7 + 2 ^ 32 * 1))
      ≡ quiet.hash_set [] (text "id") (some (quiet.itoa (pos 7))))
    × (stomp_write_transaction_id ⦃apr = quiet⦄ [] (pos (7 + 2 ^ 32 * 1))
        ≡ quiet.hash_set [] (text "transaction") (some (quiet.itoa (pos 7))))
ids_narrowed_example = ids_narrowed ⦃apr = quiet⦄ [] 7 1 (omega arith)

abbrev listener : SubscriptionHeader
listener = record { receipt = 0; id = 3 }

stomp_subscribe-Submitted_example :
    Submitted
      (script_wire false)
      tt
      ready
      (unsent ready (start []))
      (stomp_subscribe 100 0 ready (some listener))
      (request_text (text "SUBSCRIBE") (subscription_headers ready [] 47 (text "q") listener))
      (start [])
unfolding text decimal insert same_text strips_root
stomp_subscribe-Submitted_example =
    stomp_subscribe-Submitted (script_wire false) (script_memory false) tt 100 0 ready connected
      refl refl (start []) 47 (text "q") refl listener refl (omega arith)
