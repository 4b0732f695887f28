-- ===== src/Tests/Endings.antt =====
-- Calls that end whatever the broker sends.
use libstomp.Prelude.{
  true, [], ◌∷◌, ◌++◌, Text, text, none, some, false, refl, pos, arith, decimal, same_text, to_int,
}
use libstomp.Exec.{Returns}
use libstomp.Platform.Script.{script_memory, script_codes, script_objects}
use libstomp.Platform.Script.Wiring.{script_wire, script-Finished}
use libstomp.Platform.Table.{insert}
use libstomp.Io.Input.{Quiet}
use libstomp.Engine.{stomp_engine_connect, connect_socket, describe_socket}
use libstomp.Messenger.Exchange.{connect_headers, stomp_receive, stomp_connect}
use libstomp.Io.Frame.{frame_end}
use libstomp.Io.Frame.Writes.{header_text}
use libstomp.Messenger.Requests.{stomp_write_receipt}
use libstomp.Messenger.Requests.Total.{Ends}
use libstomp.Messenger.Session.{disconnect, perform}
use libstomp.Messenger.Session.Total.{perform-Ends}
use libstomp.Messenger.Exchange.Total.{Received, stomp_receive-Ends}
use libstomp.Messenger.Exchange.Greeting.{login_frame}
use libstomp.Messenger.Exchange.Connect.{Reached, stomp_connect-Ends}
use libstomp.Tests.Fixtures.{quiet, connected, start, ready, note}

-- A frame that is cut off inside its headers.
abbrev cut_off : Text
cut_off = text "MESSAGE" ++ 10 ∷ text "id:7"

stomp_receive-Ends_example :
    Returns
      (λ (r, u).
        Received
          (script_wire false)
          tt
          50
          0
          ready
          connected
          ((text "lang", text "c") ∷ [])
          note
          (start cut_off)
          r
        × Quiet (script_wire false) tt (start cut_off) u)
      (stomp_receive 50 0 ready note (start cut_off))
unfolding text
stomp_receive-Ends_example =
    stomp_receive-Ends (script_wire false) (script_memory false) (script-Finished false)
      (script_codes false) tt 50 0 ready connected refl refl
      (record { hash = some ((text "lang", text "c") ∷ []) }) ((text "lang", text "c") ∷ []) refl
      refl note (start cut_off) (omega arith) (omega arith)

stomp_connect-Ends_example :
    Returns
      (Reached ⦃apr = quiet⦄ 99 0 ready (login_frame ⦃apr = quiet⦄ [] none) (start cut_off))
      (stomp_connect 99 0 ready none (pos 1000) (start cut_off))
unfolding text decimal insert same_text connect_headers stomp_engine_connect connect_socket
    describe_socket
stomp_connect-Ends_example =
    stomp_connect-Ends (script_wire false) (script_memory false) (script-Finished false)
      (script_codes false) (script_objects false) 99 0 ready none (pos 1000) (start cut_off)
      (omega arith) (λ s. (omega arith, omega arith))

-- A reply that is no receipt, with a body of two bytes and without a terminator.
abbrev refusal : Text
refusal =
    text "ERROR"
    ++ 10 ∷ (header_text ((text "content-length", text "2") ∷ []) ++ 10 ∷ (104 ∷ 105 ∷ frame_end))

perform-Ends_example :
    Ends
      (script_wire false)
      tt
      99
      0
      ready
      connected
      (start refusal)
      true
      (perform 99 0 (disconnect (some (record { receipt = 7 }))) ready (start refusal))
unfolding text decimal insert same_text stomp_write_receipt to_int
perform-Ends_example =
    perform-Ends (script_wire false) (script_memory false) (script-Finished false)
      (script_codes false) (script_objects false) tt 99 0 ready connected refl refl
      ((text "lang", text "c") ∷ []) refl 47 (text "q") refl (start refusal) (omega arith)
      (omega arith) (disconnect (some (record { receipt = 7 }))) (omega arith)
