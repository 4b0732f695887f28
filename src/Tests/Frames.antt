-- ===== src/Tests/Frames.antt =====
-- Frames written and read.
use libstomp.Prelude.{
  append-nonempty, ◌≡◌, refl, [], ◌∷◌, ◌++◌, Text, text, false, pos, to_int, to_size, is_positive,
  decimal, same_text, arith,
}
use libstomp.Exec.{done}
use libstomp.Platform.Script.{to_number, script_memory}
use libstomp.Platform.Script.Wiring.{script_wire, script_unsplit}
use libstomp.Platform.Table.{insert}
use libstomp.Machine.{State}
use libstomp.Io.Input.{Reads}
use libstomp.Io.Delivery.{Sends}
use libstomp.Io.Frame.{content_length, stomp_write}
use libstomp.Io.Frame.Writes.{frame_text, header_text, stomp_write-Sends}
use libstomp.Io.Line.{line, stomp_read_line}
use libstomp.Io.Line.Reads.{stomp_read_line-Reads}
use libstomp.Io.Body.{body, stomp_read_buffer}
use libstomp.Io.Body.Reads.{stomp_read_buffer-Reads}
use libstomp.Io.Read.{stomp_read}
use libstomp.Io.Read.Table.{IsHead}
use libstomp.Io.Read.Frames.{read_result, stomp_read_announced, stomp_read_unannounced}
use libstomp.Tests.Fixtures.{
  announced_text, announced-IsHead, quiet, connected, start, greeting, entries, short_entries,
}

stomp_write-Sends_example :
    Sends
      (script_wire false)
      tt
      (stomp_write 100 connected greeting tt)
      (frame_text greeting (pos 2))
      (start [])
unfolding content_length to_int to_size is_positive text decimal
stomp_write-Sends_example =
    stomp_write-Sends (script_wire false) tt 100 connected refl greeting tt (pos 2) (start []) refl
      (omega arith) (omega arith)

stomp_read_line-Reads_example :
    (u : State quiet) × (stomp_read_line 9 connected tt (start (111 ∷ 107 ∷ 10 ∷ 120 ∷ []))
      ≡ done (line (111 ∷ 107 ∷ 0 ∷ []) (pos 2), u))
    × Reads (script_wire false) tt (start (111 ∷ 107 ∷ 10 ∷ 120 ∷ [])) (120 ∷ []) u
stomp_read_line-Reads_example =
    stomp_read_line-Reads (script_wire false) (script_memory false) tt connected refl 9 tt
      (111 ∷ 107 ∷ []) (120 ∷ []) (start (111 ∷ 107 ∷ 10 ∷ 120 ∷ [])) (omega arith) (omega arith)
      (omega arith) refl

stomp_read_buffer-Reads_example :
    (u : State quiet) × (stomp_read_buffer 9 connected 0 tt (start (111 ∷ 107 ∷ 0 ∷ 10 ∷ 120 ∷ []))
      ≡ done (body (111 ∷ 107 ∷ 0 ∷ []) 3, u))
    × Reads (script_wire false) tt (start (111 ∷ 107 ∷ 0 ∷ 10 ∷ 120 ∷ [])) (120 ∷ []) u
stomp_read_buffer-Reads_example =
    stomp_read_buffer-Reads (script_wire false) (script_memory false) tt connected refl 0 9 tt
      (111 ∷ 107 ∷ []) (120 ∷ []) (start (111 ∷ 107 ∷ 0 ∷ 10 ∷ 120 ∷ [])) (omega arith)
      (omega arith) refl

stomp_read_announced_example :
    (u : State quiet) × (stomp_read 50 connected tt 0 (start announced_text)
      ≡ done (
        read_result (script_memory false) (text "MESSAGE") entries (body (104 ∷ 0 ∷ 105 ∷ []) 3),
        u,
      ))
    × Reads (script_wire false) tt (start announced_text) [] u
unfolding text to_size to_number insert same_text
stomp_read_announced_example =
    stomp_read_announced (script_wire false) (script_memory false) tt connected refl 50 tt
      (script_unsplit false) 0 (text "MESSAGE") (104 ∷ 0 ∷ 105 ∷ []) [] (text "3") entries
      (start announced_text) announced-IsHead refl refl (append-nonempty [] 104 _) refl

abbrev unannounced_text : Text
unannounced_text =
    text "RECEIPT" ++ 10 ∷ (header_text short_entries ++ 10 ∷ ((111 ∷ 107 ∷ []) ++ 0 ∷ 10 ∷ []))

unannounced-IsHead : IsHead 50 (text "RECEIPT") short_entries
unfolding text
unannounced-IsHead = omega arith

stomp_read_unannounced_example :
    (u : State quiet) × (stomp_read 50 connected tt 0 (start unannounced_text)
      ≡ done (
        read_result
            (script_memory false)
            (text "RECEIPT")
            short_entries
            (body (111 ∷ 107 ∷ 0 ∷ []) 3),
        u,
      ))
    × Reads (script_wire false) tt (start unannounced_text) [] u
unfolding text insert same_text
stomp_read_unannounced_example =
    stomp_read_unannounced (script_wire false) (script_memory false) tt connected refl 50 tt 0
      (text "RECEIPT") (111 ∷ 107 ∷ []) [] short_entries (start unannounced_text) unannounced-IsHead
      (omega arith) (omega arith) refl refl
