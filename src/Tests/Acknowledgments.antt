-- ===== src/Tests/Acknowledgments.antt =====
-- Acknowledgments of a messenger, and the end of a subscription.
use libstomp.Prelude.{
  refl, [], false, text, some, pos, to_int, to_size, is_natural, decimal, arith, same_text,
}
use libstomp.Platform.Script.{script_memory}
use libstomp.Platform.Script.Wiring.{script_wire}
use libstomp.Platform.Table.{insert}
use libstomp.Messenger.Base.{AckHeader, SubscriptionHeader}
use libstomp.Messenger.Requests.{
  stomp_ack, stomp_nack, stomp_unsubscribe, stomp_write_receipt, stomp_write_transaction_id,
  stomp_write_message_id, narrowed,
}
use libstomp.Messenger.Requests.Submit.{Submitted, unsent}
use libstomp.Messenger.Requests.Frames.{request_text}
use libstomp.Messenger.Requests.Acknowledge.{
  acknowledged, unacknowledged, unsubscribed, acknowledgments-Submitted,
}
use libstomp.Tests.Fixtures.{quiet, connected, start, ready}

abbrev seen : AckHeader
seen = record { receipt = 0; message_id = pos 7; transaction_id = pos 42 }

abbrev listening : SubscriptionHeader
listening = record { receipt = 0; id = 3 }

acknowledgments-Submitted_example :
    Submitted
      (script_wire false)
      tt
      ready
      (unacknowledged ready)
      (stomp_ack 100 0 ready (some seen))
      (request_text (text "ACK") (acknowledged [] (some seen)))
      (start [])
    × Submitted
        (script_wire false)
        tt
        ready
        (unsent ready (start []))
        (stomp_nack 100 0 ready (some seen))
        (request_text (text "NACK") (acknowledged [] (some seen)))
        (start [])
    × Submitted
        (script_wire false)
        tt
        ready
        (unsent ready (start []))
        (stomp_unsubscribe 100 0 ready (some listening))
        (request_text (text "UNSUBSCRIBE") (unsubscribed ready [] listening))
        (start [])
unfolding text decimal stomp_write_receipt stomp_write_transaction_id stomp_write_message_id
    narrowed to_size to_int insert same_text is_natural
acknowledgments-Submitted_example =
    acknowledgments-Submitted (script_wire false) (script_memory false) tt 100 0 ready connected
      refl refl (start []) (some seen) listening refl refl (omega arith) (omega arith)
