-- ===== src/Tests/Accepted.antt =====
-- Writes that all succeed, and the requests on them.
use libstomp.Prelude.{
  ◌≡◌, refl, ◌++◌, [], ◌∷◌, text, some, none, pos, arith, decimal, to_int, to_size, is_positive,
  is_natural,
}
use libstomp.Exec.{done}
use libstomp.Machine.{State}
use libstomp.Io.Base.{Frame}
use libstomp.Io.Frame.{content_length, stomp_write}
use libstomp.Io.Frame.Writes.{frame_text}
use libstomp.Io.Frame.Accepted.{stomp_write-accepted}
use libstomp.Platform.Table.{insert}
use libstomp.Prelude.{Text, same_text, strlen, has_prefix}
use libstomp.Io.Frame.Writes.{header_text}
use libstomp.Io.Read.Arrived.{Arrives, closed}
use libstomp.Messenger.Base.{Messenger, strips_root}
use libstomp.Messenger.Requests.{narrowed, stomp_write_receipt, stomp_write_transaction_id}
use libstomp.Example.Messenger.Client.{publish}
use libstomp.Example.Messenger.Talks.{delivery_text}
use libstomp.Example.Messenger.Publish.{stamped, test_message, written}
use libstomp.Example.Messenger.Succeeds.{Succeeds, publish-Succeeds}
use libstomp.Tests.Fixtures.{clean}
use libstomp.Tests.Roomy.{
  roomy, roomy_wire, roomy-Accepting, line, fresh, roomy_memory, roomy_unsplit,
}

abbrev hello : Frame roomy
hello = record {
  command = text "SEND";
  headers = some ((text "a", text "b") ∷ []);
  body = some (104 ∷ 105 ∷ 0 ∷ []);
  body_length = 2;
}

stomp_write-accepted_example :
    (u : State roomy) × (stomp_write ⦃apr = roomy⦄ 99 line hello tt fresh ≡ done (0, u))
    × (u.net.output ≡ [] ++ frame_text ⦃apr = roomy⦄ hello (pos 2))
    × (u.net.input ≡ text "x")
unfolding text decimal content_length to_int to_size is_positive
stomp_write-accepted_example =
    stomp_write-accepted ⦃apr = roomy⦄ roomy_wire tt roomy-Accepting 99 line refl hello tt (pos 2)
      fresh refl (omega arith) (omega arith)

-- A messenger on that connection, and a receipt that has arrived.
abbrev client : Messenger roomy
client = record {
  connection = some line;
  exchange_properties = none;
  status = clean;
  pool = tt;
  uri = record { hostname = none; port = 0; path = none };
  options = 1;
}

abbrev receipt_text : Text
receipt_text =
    text "RECEIPT" ++ 10 ∷ (header_text ⦃apr = roomy⦄ [] ++ 10 ∷ ([] ++ 0 ∷ 10 ∷ text "x"))

-- The same with an endpoint and properties, and two receipts that have arrived.
abbrev addressed : Messenger roomy
addressed = record client {
  exchange_properties = some (record { hash = some ((text "lang", text "c") ∷ []) });
  uri = record { hostname = some (text "h"); port = 61613; path = some (text "/q") };
}

abbrev receipts : Text
receipts =
    text "RECEIPT" ++ 10 ∷ (header_text ⦃apr = roomy⦄ [] ++ 10 ∷ ([] ++ 0 ∷ 10 ∷ receipt_text))

later-Arrives :
    Arrives ⦃apr = roomy⦄ roomy_memory 400 (text "RECEIPT") (0 ∷ []) (text "x") receipt_text
unfolding text
later-Arrives = closed [] [] (omega arith) (omega arith) (omega arith) refl refl

receipts-Arrives :
    Arrives ⦃apr = roomy⦄ roomy_memory 400 (text "RECEIPT") (0 ∷ []) receipt_text receipts
unfolding text
receipts-Arrives = closed [] [] (omega arith) (omega arith) (omega arith) refl refl

abbrev answered : State roomy
answered = record fresh { net = record fresh.net { input = receipts } }

publish-Succeeds_example :
    Succeeds ⦃apr = roomy⦄ roomy_wire tt
      (publish ⦃apr = roomy⦄ 400 0 addressed)
      (delivery_text ⦃apr = roomy⦄ addressed 47
        (text "q")
        []
        (stamped ⦃apr = roomy⦄ ((text "lang", text "c") ∷ []) (written ⦃apr = roomy⦄ answered))
        (test_message ⦃apr = roomy⦄ tt)
        (pos 20))
      (text "x")
      answered
unfolding text decimal insert same_text strlen strips_root to_int to_size stomp_write_receipt
    stomp_write_transaction_id is_natural narrowed has_prefix
publish-Succeeds_example =
    publish-Succeeds ⦃apr = roomy⦄ roomy_wire roomy_memory roomy_unsplit roomy-Accepting tt 400 0
      line refl 47 (text "q") receipts-Arrives refl refl later-Arrives refl refl addressed
      ((text "lang", text "c") ∷ []) tt answered refl refl refl (λ h. refl) (omega arith)
      (omega arith) refl
