-- ===== src/Tests/Totals.antt =====
-- Readers at inputs that are not well-formed, and a connection.
use libstomp.Prelude.{◌++◌, [], ◌∷◌, Text, text, none, some, false, refl, arith}
use libstomp.Exec.{Returns}
use libstomp.Platform.Script.{script_memory, script_codes, script_objects}
use libstomp.Platform.Script.Wiring.{script_wire, script-Finished}
use libstomp.Io.Line.{stomp_read_line}
use libstomp.Io.Line.Next.{next_line}
use libstomp.Io.Line.Total.{LineOf, stomp_read_line-LineOf}
use libstomp.Io.Read.{stomp_read}
use libstomp.Io.Read.Total.{FrameEnds, stomp_read-FrameEnds}
use libstomp.Engine.{stomp_engine_connect}
use libstomp.Engine.Connect.{Connected, stomp_engine_connect-Connected}
use libstomp.Tests.Fixtures.{quiet, connected, start}

-- A header line without a colon, and then nothing.
abbrev no_colon : Text
no_colon = text "CONNECTED" ++ 10 ∷ (text "session" ++ 10 ∷ [])

stomp_read_line-LineOf_example :
    Returns
      (LineOf (script_wire false) tt (start no_colon) (next_line no_colon))
      (stomp_read_line 50 connected tt (start no_colon))
unfolding text
stomp_read_line-LineOf_example =
    stomp_read_line-LineOf (script_wire false) (script_memory false) (script-Finished false) tt
      connected refl 50 tt (start no_colon) (omega arith) (omega arith)

stomp_read-FrameEnds_example :
    Returns
      (FrameEnds (script_wire false) tt (start no_colon))
      (stomp_read 50 connected tt 0 (start no_colon))
unfolding text
stomp_read-FrameEnds_example =
    stomp_read-FrameEnds (script_wire false) (script_memory false) (script-Finished false)
      (script_codes false) tt connected refl 50 tt 0 (start no_colon) (omega arith) (omega arith)

stomp_engine_connect-Connected_example :
    Returns
      (Connected (script_objects false) none (some (text "h")) (start []))
      (stomp_engine_connect none (some (text "h")) 61613 tt (start []))
stomp_engine_connect-Connected_example =
    stomp_engine_connect-Connected (script_objects false) none (some (text "h"))
      (script_codes false) 61613 tt (start [])
