-- ===== src/Tests/Messages.antt =====
-- Messages received and messages on their own.
use libstomp.Prelude.{
  List, none, pos, decimal, to_int, is_positive, append-nonempty, ◌≡◌, ◌+◌, refl, Text, false, some,
  [], ◌∷◌, Buffer, text, length, c_str, has_prefix, if◌then◌else◌, same_text, to_size, arith,
}
use libstomp.Exec.{done}
use libstomp.Platform.Script.{script_hash, to_number, script_memory}
use libstomp.Platform.Script.Wiring.{script_wire, script_unsplit}
use libstomp.Platform.Table.{insert, overlay}
use libstomp.Status.{success, failure}
use libstomp.Machine.{State}
use libstomp.Io.Input.{Reads}
use libstomp.Io.Read.Table.{set_all}
use libstomp.Message.{stomp_message_format}
use libstomp.Message.Text.{copy, Terminated, stomp_message_format_lem}
use libstomp.Messenger.Exchange.{stomp_receive}
use libstomp.Messenger.Exchange.Receive.{with_headers, stomp_receive_announced}
use libstomp.Messenger.Base.{Messenger, strips_root}
use libstomp.Messenger.Exchange.{stomp_send}
use libstomp.Messenger.Exchange.Table.{send_text, received_length_sent}
use libstomp.Messenger.Requests.Submit.{Submitted, unsent}
use libstomp.Io.Read.Table.{IsHead}
use libstomp.Io.Frame.{content_length}
use libstomp.Platform.{find}
use libstomp.Status.{StatusCode}
use libstomp.Message.{Message}
use libstomp.Tests.Fixtures.{
  quiet, connected, start, ready, note, entries, announced_text, announced-IsHead,
}

stomp_receive_announced_example :
    (u : State quiet) × (b : Buffer) × (stomp_receive 50 0 ready note (start announced_text)
      ≡ done (
        (
          if has_prefix (text "MESSAGE") (text "MESSAGE") then success else failure,
          with_headers ready (set_all [] entries) ((text "lang", text "c") ∷ []),
          record note { size = length (c_str (104 ∷ 0 ∷ 105 ∷ [])) + 1; body = some b },
        ),
        u,
      ))
    × Terminated (c_str (104 ∷ 0 ∷ 105 ∷ [])) 4 b
    × Reads (script_wire false) tt (start announced_text) [] u
unfolding text to_size to_number insert same_text
stomp_receive_announced_example =
    stomp_receive_announced (script_wire false) (script_memory false) (script_unsplit false) tt 50 0
      ready connected refl refl (record { hash = some ((text "lang", text "c") ∷ []) })
      ((text "lang", text "c") ∷ []) refl refl note (text "MESSAGE") (104 ∷ 0 ∷ 105 ∷ []) []
      (text "3") entries (start announced_text) announced-IsHead refl refl
      (append-nonempty [] 104 _) (omega arith) refl

stomp_message_format_lem_example :
    (b : Buffer) × (stomp_message_format note (104 ∷ 0 ∷ 105 ∷ []) 3 (start [])
      ≡ done (
        record note { size = length (copy (104 ∷ 0 ∷ 105 ∷ []) 3) + 1; body = some b },
        start [],
      ))
    × Terminated (copy (104 ∷ 0 ∷ 105 ∷ []) 3) 4 b
stomp_message_format_lem_example =
    stomp_message_format_lem (script_memory false) note (104 ∷ 0 ∷ 105 ∷ []) 3 (start [])
      (omega arith) (omega arith)

entries-IsHead : IsHead 300 (text "MESSAGE") entries
unfolding text
entries-IsHead = omega arith

received_length_sent_example :
    (m : Messenger quiet) × (u : State quiet) × (code : StatusCode) × (taken : Message quiet)
    × (sent : List (Text × Text)) × (stomp_receive 300 0 ready note (start announced_text)
        ≡ done ((code, m, taken), u))
    × (find (text "content-length") sent ≡ some (text "3"))
    × Submitted
        (script_wire false)
        tt
        m
        (unsent m u)
        (stomp_send 300 0 m none note)
        (send_text ⦃apr = quiet⦄ sent (pos 3) note.body)
        u
unfolding text decimal to_size to_int to_number insert same_text content_length is_positive
    strips_root overlay
received_length_sent_example =
    received_length_sent (script_wire false) (script_memory false) (script_unsplit false)
      (script_hash false) tt 300 0 ready connected refl refl
      (record { hash = some ((text "lang", text "c") ∷ []) }) ((text "lang", text "c") ∷ []) refl
      refl 47 (text "q") refl note (text "MESSAGE") (104 ∷ 0 ∷ 105 ∷ []) [] (text "3") entries
      (start announced_text) none note (pos 3) entries-IsHead refl refl (append-nonempty [] 104 _)
      (omega arith) refl refl refl (omega arith) (omega arith)
