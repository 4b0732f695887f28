-- ===== src/Tests/Programs.antt =====
-- The programs of example/engine against a broker that has replied.
use libstomp.Prelude.{
  pos, to_int, is_natural, [], ◌∷◌, ◌++◌, Text, text, false, refl, arith, decimal, same_text,
  strlen, to_size,
}
use libstomp.Platform.Script.{script_memory}
use libstomp.Platform.Script.Wiring.{script_wire, script_unsplit, script-Closing}
use libstomp.Platform.Table.{insert}
use libstomp.Io.Frame.Writes.{header_text}
use libstomp.Io.Read.Arrived.{Arrives, closed}
use libstomp.Example.Engine.Client as EngineClient
use libstomp.Example.Engine.Server as EngineServer
use libstomp.Example.Messenger.Client.{publish}
use libstomp.Example.Messenger.Talks.{delivery_text}
use libstomp.Example.Messenger.Publish.{stamped, written, test_message, publish-Tells}
use libstomp.Messenger.Base.{strips_root}
use libstomp.Messenger.Requests.{narrowed, stomp_write_receipt, stomp_write_transaction_id}
use libstomp.Example.Engine.Steps.{Tells, Converses}
use libstomp.Example.Engine.Talks.{client_text, server_text, client-Converses, server-Converses}
use libstomp.Tests.Fixtures.{quiet, connected, start, ready}

-- A frame without headers and with an empty body, and what is behind it.
abbrev before : Text → Text → Text
before command rest = command ++ 10 ∷ (header_text ⦃apr = quiet⦄ [] ++ 10 ∷ ([] ++ 0 ∷ 10 ∷ rest))

abbrev greeting_text : Text
greeting_text = before (text "CONNECTED") []

abbrev dialogue : Text
dialogue = before (text "CONNECTED") (before (text "MESSAGE") [])

greeting-Arrives : Arrives (script_memory false) 300 (text "CONNECTED") (0 ∷ []) [] greeting_text
unfolding text
greeting-Arrives = closed [] [] (omega arith) (omega arith) (omega arith) refl refl

message-Arrives :
    Arrives (script_memory false) 300 (text "MESSAGE") (0 ∷ []) [] (before (text "MESSAGE") [])
unfolding text
message-Arrives = closed [] [] (omega arith) (omega arith) (omega arith) refl refl

dialogue-Arrives :
    Arrives
      (script_memory false)
      300
      (text "CONNECTED")
      (0 ∷ [])
      (before (text "MESSAGE") [])
      dialogue
unfolding text
dialogue-Arrives = closed [] [] (omega arith) (omega arith) (omega arith) refl refl

client-Converses_example :
    Converses
      (script_wire false)
      tt
      (EngineClient.talk 300 0 connected tt)
      (client_text [])
      greeting_text
unfolding text decimal insert same_text strlen to_size
client-Converses_example =
    client-Converses (script_wire false) (script_memory false) (script_unsplit false)
      (script-Closing false) tt connected refl 300 0 tt greeting-Arrives refl (omega arith)
      (omega arith)

server-Converses_example :
    Converses
      (script_wire false)
      tt
      (EngineServer.talk 300 0 connected tt)
      (server_text [])
      dialogue
unfolding text decimal insert same_text strlen
server-Converses_example =
    server-Converses (script_wire false) (script_memory false) (script_unsplit false)
      (script-Closing false) tt connected refl 300 0 tt dialogue-Arrives refl message-Arrives refl
      (omega arith) (omega arith) (omega arith)

-- Two receipts, one after the other.
abbrev receipts : Text
receipts = before (text "RECEIPT") (before (text "RECEIPT") [])

receipt-Arrives :
    Arrives (script_memory false) 400 (text "RECEIPT") (0 ∷ []) [] (before (text "RECEIPT") [])
unfolding text
receipt-Arrives = closed [] [] (omega arith) (omega arith) (omega arith) refl refl

receipts-Arrives :
    Arrives
      (script_memory false)
      400
      (text "RECEIPT")
      (0 ∷ [])
      (before (text "RECEIPT") [])
      receipts
unfolding text
receipts-Arrives = closed [] [] (omega arith) (omega arith) (omega arith) refl refl

publish-Tells_example :
    Tells
      (script_wire false)
      tt
      (publish 400 0 ready)
      (delivery_text ready 47
        (text "q")
        []
        (stamped ((text "lang", text "c") ∷ []) (written (start receipts)))
        (test_message tt)
        (pos 20))
      (start receipts)
unfolding text decimal insert same_text strlen strips_root to_int to_size stomp_write_receipt
    stomp_write_transaction_id is_natural narrowed
publish-Tells_example =
    publish-Tells (script_wire false) (script_memory false) (script_unsplit false) tt 400 0
      connected refl 47 (text "q") receipts-Arrives refl receipt-Arrives refl ready refl refl
      ((text "lang", text "c") ∷ []) refl tt (λ h. refl) (start receipts) (omega arith)
      (omega arith) refl
