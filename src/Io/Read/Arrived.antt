-- ===== src/Io/Read/Arrived.antt =====
-- The two forms of the text of a frame that stomp_read takes, as one description of what has arrived.
use libstomp.Prelude.{
  ℕ, ◌<◌, ◌≡◌, ◌≢◌, refl, sym, ap, IsText, append-nonempty, none, some, List, [], ◌∷◌, ◌++◌, Text,
  Buffer, text, length, to_size,
}
use libstomp.Exec.{done}
use libstomp.Platform.{Apr, Wire, HasMemory, Unsplit}
use libstomp.Machine.{State}
use libstomp.Io.Base.{Connection, Frame}
use libstomp.Io.Input.{Reads}
use libstomp.Io.Frame.{frame_end}
use libstomp.Io.Frame.Writes.{header_text}
use libstomp.Io.Read.{frame, stomp_read}
use libstomp.Io.Read.Table.{IsHead, set_all}
use libstomp.Io.Read.Frames.{stomp_read_announced, stomp_read_unannounced}

module _ ⦃apr : Apr⦄ (memory : HasMemory apr) (fuel : ℕ) where
  -- An input that starts with a frame of that command and body, and goes on with `rest`.
  pub data Arrives (command : Text) (body : Buffer) (rest : Text) : Text → Type 0 where
    closed :
        (entries : List (Text × Text)) (t : Text)
        → IsHead fuel command entries
        → length t < fuel
        → IsText t
        → apr.hash_get (set_all memory.empty entries) (text "content-length") ≡ none
        → body ≡ t ++ 0 ∷ []
        → Arrives command body rest
            (command ++ 10 ∷ (header_text entries ++ 10 ∷ (t ++ 0 ∷ 10 ∷ rest)))
    measured :
        (entries : List (Text × Text)) (announced : Text)
        → IsHead fuel command entries
        → apr.hash_get (set_all memory.empty entries) (text "content-length") ≡ some announced
        → to_size (apr.atoi64 announced) ≡ length body
        → body ≢ []
        → Arrives command body rest
            (command ++ 10 ∷ (header_text entries ++ 10 ∷ (body ++ (frame_end ++ rest))))

  pub Arrives-nonempty :
      {command input rest : Text} {body : Buffer} → Arrives command body rest input → input ≢ []
  Arrives-nonempty {command} (closed entries t a enough b absent e) = append-nonempty command 10 _
  Arrives-nonempty {command} (measured entries announced a present e ne) =
      append-nonempty command 10 _

module _ ⦃apr : Apr⦄ (wire : Wire apr) (memory : HasMemory apr) (unsplit : Unsplit apr wire)
    (s : apr.Socket) (c : Connection apr) (open_socket : c.socket ≡ some s) (fuel : ℕ)
    (pool : apr.Pool) (garbage : ℕ) where
  -- A frame with that command and body, and all of it is read.
  pub record Taken (command : Text) (body : Buffer) (rest : Text) (st : State apr) : Type 0 where
    pub reply : Frame apr
    pub final : State apr
    pub runs : stomp_read fuel c pool garbage st ≡ done (frame reply, final)
    pub its_command : reply.command ≡ command
    pub its_body : reply.body ≡ some body
    pub reads : Reads wire s st rest final

  pub stomp_read-Taken :
      {command input rest : Text} {body : Buffer} (st : State apr)
      → Arrives memory fuel command body rest input
      → wire.input s st.net ≡ input
      → Taken command body rest st
  stomp_read-Taken {command} {input} {rest} {body} st (closed entries t a enough b absent e)
        arrived =
      let r =
        stomp_read_unannounced wire memory s c open_socket fuel pool garbage command t rest entries
          st a enough b absent arrived in
      record {
        reply = _;
        final = r.0;
        runs = r.1;
        its_command = refl;
        its_body = ap some (sym e);
        reads = r.2;
      }
  stomp_read-Taken {command} {input} {rest} {body} st (measured entries announced a present e ne)
        arrived =
      let r =
        stomp_read_announced wire memory s c open_socket fuel pool unsplit garbage command body rest
          announced entries st a present e ne arrived in
      record {
        reply = _;
        final = r.0;
        runs = r.1;
        its_command = refl;
        its_body = refl;
        reads = r.2;
      }
