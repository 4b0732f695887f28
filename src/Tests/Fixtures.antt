-- ===== src/Tests/Fixtures.antt =====
-- A connection, frames and peers on the platform that runs.
use libstomp.Prelude.{◌++◌, arith, false, some, none, List, [], ◌∷◌, Text, text}
use libstomp.Platform.{Apr}
use libstomp.Platform.Script.{script}
use libstomp.Status.{Status}
use libstomp.Machine.{State}
use libstomp.Io.Frame.{frame_end}
use libstomp.Io.Frame.Writes.{header_text}
use libstomp.Io.Read.Table.{IsHead}
use libstomp.Io.Base.{Connection, Frame}
use libstomp.Message.{Message}
use libstomp.Messenger.Base.{Messenger}

instance abbrev pub quiet : Apr
quiet = script false

abbrev pub connected : Connection quiet
connected = record {
  socket = some tt;
  local_sa = none;
  local_ip = none;
  remote_sa = none;
  remote_ip = none;
}

abbrev pub clean : Status
clean = record { code = 1; message = none }

-- The peer takes three bytes at a time, a hundred times, and has sent `input`.
abbrev pub start : Text → State quiet
start input = record {
  net = record { input = input; output = []; chunk = 2; sends_left = 100 };
  mem = tt;
  io_error = clean;
  engine_error = clean;
}

abbrev pub greeting : Frame quiet
greeting = record {
  command = text "SEND";
  headers = some ((text "destination", text "q") ∷ []);
  body = some (104 ∷ 105 ∷ 0 ∷ []);
  body_length = 2;
}

abbrev pub entries : List (Text × Text)
entries = (text "id", text "a:b") ∷ (text "content-length", text "3") ∷ []

abbrev pub short_entries : List (Text × Text)
short_entries = (text "id", text "7") ∷ []

-- A messenger with that connection and an endpoint.
abbrev pub ready : Messenger quiet
ready = record {
  connection = some connected;
  exchange_properties = some (record { hash = some ((text "lang", text "c") ∷ []) });
  status = clean;
  pool = tt;
  uri = record { hostname = some (text "h"); port = 61613; path = some (text "/q") };
  options = 1;
}

abbrev pub note : Message quiet
note = record { size = 3; body = some (104 ∷ 105 ∷ 0 ∷ []); pool = tt }

-- A frame with a body that has a terminator in it.
abbrev pub announced_text : Text
announced_text =
    text "MESSAGE" ++ 10 ∷ (header_text entries ++ 10 ∷ ((104 ∷ 0 ∷ 105 ∷ []) ++ (frame_end ++ [])))

pub announced-IsHead : IsHead 50 (text "MESSAGE") entries
unfolding text
announced-IsHead = omega arith
