-- ===== src/Tests/Streams.antt =====
-- Frames that are written on one side, and read on the other.
use libstomp.Prelude.{
  ◌≡◌, false, refl, some, none, take, Text, same_text, List, [], ◌∷◌, ◌++◌, text, ℤ, pos, decimal,
  to_int, to_size, is_positive, arith,
}
use libstomp.Exec.{done}
use libstomp.Platform.{HashLaws}
use libstomp.Platform.Script.{to_number, script_hash}
use libstomp.Machine.{State}
use libstomp.Io.Base.{Frame}
use libstomp.Io.Input.{Reads}
use libstomp.Io.Frame.{content_length}
use libstomp.Io.Frame.{stomp_write}
use libstomp.Io.Read.{Incoming, stomp_read}
use libstomp.Io.Read.Written.{IsSendable, IsCopy, stomp_read-stomp_write}
use libstomp.Message.{Message}
use libstomp.Messenger.Base.{Messenger}
use libstomp.Messenger.Exchange.Written.{Takes, stomp_receive-stomp_write}
use libstomp.Tests.Fixtures.{clean}
use libstomp.Io.Stream.{write_frames, read_frames, AreCopies, read_frames-write_frames}
use libstomp.Tests.Roomy.{
  roomy, roomy_wire, roomy-Accepting, line, fresh, roomy_memory, roomy_unsplit,
}

abbrev first_frame : Frame roomy
first_frame = record {
  command = text "MESSAGE";
  headers = some ((text "id", text "1") ∷ []);
  body = some (104 ∷ 0 ∷ 10 ∷ []);
  body_length = 3;
}

abbrev second_frame : Frame roomy
second_frame = record {
  command = text "RECEIPT";
  headers = some [];
  body = some (0 ∷ []);
  body_length = 1;
}

abbrev two : List (Frame roomy × ℤ)
two = (first_frame, pos 3) ∷ (second_frame, pos 1) ∷ []

first_frame-IsSendable : IsSendable ⦃apr = roomy⦄ 99 first_frame (pos 3)
unfolding text decimal to_int to_size is_positive content_length to_number
first_frame-IsSendable = record {
  table = (text "id", text "1") ∷ [];
  bytes = 104 ∷ 0 ∷ 10 ∷ [];
  its_headers = refl;
  its_body = refl;
  announced = refl;
  fits = omega arith;
  some_bytes = omega arith;
  read_back = refl;
  head = omega arith;
  room = omega arith;
}

second_frame-IsSendable : IsSendable ⦃apr = roomy⦄ 99 second_frame (pos 1)
unfolding text decimal to_int to_size is_positive content_length to_number
second_frame-IsSendable = record {
  table = [];
  bytes = 0 ∷ [];
  its_headers = refl;
  its_body = refl;
  announced = refl;
  fits = omega arith;
  some_bytes = omega arith;
  read_back = refl;
  head = omega arith;
  room = omega arith;
}

roomy_hash : HashLaws roomy
roomy_hash = record {
  get-set = (script_hash false).get-set;
  get-copy = (script_hash false).get-copy;
  get-overlay = (script_hash false).get-overlay;
  get-clear = (script_hash false).get-clear;
  find-entries = (script_hash false).find-entries;
}

-- What the other side is in, once `t` has arrived.
abbrev waiting : Text → State roomy
waiting t = record fresh { net = record fresh.net { input = t } }

stomp_read-stomp_write_example :
    (u : State roomy) × (t : Text) × (stomp_write ⦃apr = roomy⦄ 99 line first_frame tt fresh
      ≡ done (0, u))
    × (u.net.output ≡ [] ++ t)
    × ((v : State roomy) × (r : Incoming roomy) × (stomp_read ⦃apr = roomy⦄ 99 line tt 0
            (waiting (t ++ text "x"))
          ≡ done (r, v))
        × IsCopy ⦃apr = roomy⦄ first_frame (pos 3) r
        × Reads ⦃apr = roomy⦄ roomy_wire tt (waiting (t ++ text "x")) (text "x") v)
stomp_read-stomp_write_example =
    stomp_read-stomp_write ⦃apr = roomy⦄ roomy_wire roomy_memory roomy_unsplit roomy_hash tt line
      refl 99 tt 0 roomy-Accepting tt line waiting first_frame (pos 3) (text "x") fresh refl
      (λ t. refl) first_frame-IsSendable

read_frames-write_frames_example :
    (u : State roomy) × (t : Text) × (write_frames ⦃apr = roomy⦄ 99 line tt two fresh ≡ done (0, u))
    × (u.net.output ≡ [] ++ t)
    × ((v : State roomy) × (rs : List (Incoming roomy)) × (read_frames ⦃apr = roomy⦄ 99 line tt 0
            two
            (waiting (t ++ text "x"))
          ≡ done (rs, v))
        × AreCopies ⦃apr = roomy⦄ two rs
        × Reads ⦃apr = roomy⦄ roomy_wire tt (waiting (t ++ text "x")) (text "x") v)
read_frames-write_frames_example =
    read_frames-write_frames ⦃apr = roomy⦄ roomy_wire 99 tt roomy_memory roomy_unsplit roomy_hash tt
      line refl 0 roomy-Accepting tt line waiting two (text "x") fresh refl (λ t. refl)
      (first_frame-IsSendable, (second_frame-IsSendable, tt))

abbrev receiver : Messenger roomy
receiver = record {
  connection = some line;
  exchange_properties = some (record { hash = some ((text "lang", text "c") ∷ []) });
  status = clean;
  pool = tt;
  uri = record { hostname = none; port = 0; path = none };
  options = 1;
}

abbrev blank : Message roomy
blank = record { size = 0; body = none; pool = tt }

stomp_receive-stomp_write_example :
    (u : State roomy) × (t : Text) × (stomp_write ⦃apr = roomy⦄ 99 line first_frame tt fresh
      ≡ done (0, u))
    × (u.net.output ≡ [] ++ t)
    × Takes ⦃apr = roomy⦄ roomy_wire tt 99 0 receiver
        ((text "lang", text "c") ∷ [])
        blank
        first_frame
        ((text "id", text "1") ∷ [])
        (take (to_size (pos 3)) (104 ∷ 0 ∷ 10 ∷ []))
        (pos 3)
        (waiting (t ++ text "x"))
        (text "x")
unfolding to_size first_frame-IsSendable same_text
stomp_receive-stomp_write_example =
    stomp_receive-stomp_write ⦃apr = roomy⦄ roomy_wire roomy_memory roomy_unsplit roomy_hash tt 99 0
      receiver line refl refl (record { hash = some ((text "lang", text "c") ∷ []) })
      ((text "lang", text "c") ∷ []) refl refl roomy-Accepting tt line tt waiting blank first_frame
      (pos 3) (text "x") fresh refl (λ t. refl) first_frame-IsSendable (omega arith)
