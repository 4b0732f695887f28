-- ===== src/Io/Read/Frames.antt =====
-- stomp_read returns the frame that has arrived, with a body of an announced length or without one.
use libstomp.Prelude.{
  append-nonempty, ◌≢◌, ℕ, ◌+◌, ◌-◌, ◌<◌, ◌≡◌, ◌≢◌, refl, sym, ap, ◌∙◌, none, some, List, [], ◌∷◌,
  ◌++◌, append-nil, Text, Buffer, text, length, replicate, IsText, c_str-terminated, to_size, arith,
}
use mathlib.Core.Path.{subst}
use libstomp.Exec.{done, bind-done, pure, ◌>>=◌}
use libstomp.Platform.{Apr, Wire, HasMemory, Unsplit}
use libstomp.Machine.{State, M}
use libstomp.Io.Base.{Connection, recv, recv_lem}
use libstomp.Io.Input.{Reads, Reads-trans, Reads-mem}
use libstomp.Io.Line.{stomp_read_line}
use libstomp.Io.Line.Reads.{stomp_read_line-Reads}
use libstomp.Io.Body.{Body, body, stomp_read_buffer, stomp_debug}
use libstomp.Io.Body.Reads.{stomp_read_buffer-Reads}
use libstomp.Io.Frame.{frame_end}
use libstomp.Io.Frame.Writes.{header_text}
use native.Mathlib.Nat.{sub_self}
use libstomp.Io.Read.{
  is_frame_end, frame_size, receive_body, Incoming, header_loop, read_frame_end, read_announced,
  read_unannounced, read_body, incoming, read_rest, stomp_read,
}
use libstomp.Io.Read.Table.{IsHead, set_all, text_bytes, header_loop-Reads}

-- What is returned for a command, headers and a body.
abbrev pub read_result :
    ⦃apr : Apr⦄ → HasMemory apr → Text → List (Text × Text) → Body → Incoming apr
read_result memory command entries = incoming command (set_all memory.empty entries)

module _ ⦃apr : Apr⦄ (wire : Wire apr) (memory : HasMemory apr) (s : apr.Socket)
    (connection : Connection apr) (open_socket : connection.socket ≡ some s) (fuel : ℕ)
    (pool : apr.Pool) where
  -- The body of a frame, as its reader returns it.
  record ReadsBody (m : M Body) (bytes : Buffer) (n : ℕ) (rest : Text) (st : State apr)
      : Type 0 where
    final : State apr
    runs : m st ≡ done (body bytes n, final)
    reads : Reads wire s st rest final

  read_unannounced-Reads :
      (garbage : ℕ) (t rest : Text) (st : State apr)
      → length t < fuel
      → IsText t
      → wire.input s st.net ≡ t ++ 0 ∷ 10 ∷ rest
      → ReadsBody
          (read_unannounced fuel connection pool garbage)
          (t ++ 0 ∷ [])
          (length t + 1)
          rest
          st
  unfolding read_unannounced
  read_unannounced-Reads garbage t rest st enough a arrived =
      let r =
        stomp_read_buffer-Reads wire memory s connection open_socket garbage fuel pool t rest st
          enough a arrived in
      record {
        final = r.0;
        runs = bind-done (stomp_read_buffer fuel connection garbage pool) _ r.1;
        reads = r.2;
      }

  module _ (unsplit : Unsplit apr wire) where
    abbrev after : ℕ → State apr → State apr
    after n st = record st { net = (apr.socket_recv s n st.net).1 }

    whole :
        (bs rest : Text) (st : State apr)
        → bs ≢ []
        → wire.input s st.net ≡ bs ++ rest
        → recv connection (length bs) st ≡ done ((0, bs), after (length bs) st)
    whole bs rest st ne arrived =
        recv_lem connection open_socket st (length bs)
        ∙ ap (λ r. done (r, after (length bs) st)) (unsplit.recv_whole s bs rest st.net ne arrived)

    after-Reads :
        (bs rest : Text) (st : State apr)
        → bs ≢ []
        → wire.input s st.net ≡ bs ++ rest
        → Reads wire s st rest (after (length bs) st)
    after-Reads bs rest st ne arrived = record {
      input_left = unsplit.input-recv_whole s bs rest st.net ne arrived;
      output_kept = wire.output-recv s (length bs) st.net;
      io_kept = refl;
      engine_kept = refl;
    }

    padded : (bs : Buffer) → bs ++ replicate (length bs - length bs) 0 ≡ bs
    padded bs = rw sub_self (append-nil bs)

    frame_end_nonempty : frame_end ≢ []
    frame_end_nonempty = append-nonempty [] 0 _

    read_frame_end-Reads :
        (bs : Buffer) (n : ℕ) (rest : Text) (st : State apr)
        → wire.input s st.net ≡ frame_end ++ rest
        → ReadsBody (read_frame_end fuel connection pool bs n) bs n rest st
    unfolding read_frame_end is_frame_end
    read_frame_end-Reads bs n rest st arrived = record {
      final = after 2 st;
      runs = bind-done (recv connection 2) _ (whole frame_end rest st frame_end_nonempty arrived);
      reads = after-Reads frame_end rest st frame_end_nonempty arrived;
    }

    receive_body-Reads :
        (bs rest : Text) (st : State apr)
        → bs ≢ []
        → wire.input s st.net ≡ bs ++ (frame_end ++ rest)
        → ReadsBody (receive_body fuel connection pool (length bs)) bs (length bs) rest st
    unfolding receive_body
    receive_body-Reads bs rest st ne arrived =
        let v : State apr = record st { mem = (apr.pcalloc pool (length bs) st.mem).1 } in
        let e =
          read_frame_end-Reads bs (length bs) rest (after (length bs) v)
            (unsplit.input-recv_whole s bs (frame_end ++ rest) st.net ne arrived) in
        record {
          final = e.final;
          runs = rw memory.allocated (
              bind-done (recv connection (length bs)) _ (whole bs (frame_end ++ rest) v ne arrived)
              ∙ ap (λ b. read_frame_end fuel connection pool b (length bs) (after (length bs) v))
                  (padded bs)
              ∙ e.runs);
          reads =
              Reads-trans wire s (Reads-mem wire s st v.mem arrived)
                (Reads-trans wire s (after-Reads bs (frame_end ++ rest) v ne arrived) e.reads);
        }

    read_announced-Reads :
        (content_length : Text) (bs rest : Text) (st : State apr)
        → to_size (apr.atoi64 content_length) ≡ length bs
        → bs ≢ []
        → wire.input s st.net ≡ bs ++ (frame_end ++ rest)
        → ReadsBody (read_announced fuel connection pool content_length) bs (length bs) rest st
    unfolding read_announced
    read_announced-Reads content_length bs rest st announced ne arrived =
        subst (λ n. ReadsBody (receive_body fuel connection pool n) bs (length bs) rest st)
          (sym announced) (receive_body-Reads bs rest st ne arrived)

  -- The head of a frame, and then its body.
  read_head :
      (garbage : ℕ) (command : Text) (entries : List (Text × Text)) (tail : Text) (st : State apr)
      → IsHead fuel command entries
      → wire.input s st.net ≡ command ++ 10 ∷ (header_text entries ++ 10 ∷ tail)
      → (u : State apr) × (stomp_read fuel connection pool garbage st
          ≡ (read_body fuel connection pool garbage
                  (apr.hash_get (set_all memory.empty entries) (text "content-length"))
                >>= λ b. pure (read_result memory command entries b))
              u)
        × Reads wire s st tail u
  unfolding stomp_read stomp_debug read_rest read_body
  read_head garbage command entries tail st a arrived =
      let v : State apr = record st {
        mem =
            (apr.hash_make (some pool)
              (apr.pcalloc pool frame_size (apr.env_get (text "STOMP_DEBUG") st.mem).1).1).1;
      } in
      let l =
        stomp_read_line-Reads wire memory s connection open_socket fuel pool command
          (header_text entries ++ 10 ∷ tail) v a.command_fits a.command_small a.command_bytes
          arrived in
      let h =
        header_loop-Reads wire memory s connection open_socket fuel pool fuel memory.empty entries
          tail l.0 (omega (arith, a.entries_fit)) a.entries_fit a.entries_lines l.2.input_left in
      (
        h.0,
        rw (memory.allocated, memory.hash_made)
            (bind-done (stomp_read_line fuel connection pool) _ l.1
              ∙ rw (c_str-terminated command [] (text_bytes command a.command_bytes)) (
                  unfold read_rest in
                  bind-done (header_loop fuel connection pool fuel memory.empty) _ h.1)),
        Reads-trans wire s (Reads-trans wire s (Reads-mem wire s st v.mem arrived) l.2) h.2,
      )

  -- stomp_read at a frame that announces no length and ends in a terminator and a newline: it
  -- returns APR_SUCCESS with the command, a table of the headers, and the body with its terminator.
  -- All of the frame is read, nothing is sent and no error is set.
  pub stomp_read_unannounced :
      (garbage : ℕ) (command t rest : Text) (entries : List (Text × Text)) (st : State apr)
      → IsHead fuel command entries
      → length t < fuel
      → IsText t
      → apr.hash_get (set_all memory.empty entries) (text "content-length") ≡ none
      → wire.input s st.net ≡ command ++ 10 ∷ (header_text entries ++ 10 ∷ (t ++ 0 ∷ 10 ∷ rest))
      → (u : State apr) × (stomp_read fuel connection pool garbage st
          ≡ done (read_result memory command entries (body (t ++ 0 ∷ []) (length t + 1)), u))
        × Reads wire s st rest u
  unfolding read_body
  stomp_read_unannounced garbage command t rest entries st a enough b absent arrived =
      let h = read_head garbage command entries (t ++ 0 ∷ 10 ∷ rest) st a arrived in
      let r = read_unannounced-Reads garbage t rest h.0 enough b h.2.input_left in
      (
        r.final,
        h.1 ∙ rw absent (bind-done (read_unannounced fuel connection pool garbage) _ r.runs),
        Reads-trans wire s h.2 r.reads,
      )

  -- stomp_read at a frame whose last `content-length` is the length of its body, which is not empty
  -- and may hold any bytes: it returns APR_SUCCESS with the command, a table of the headers and
  -- that body. All of the frame is read, nothing is sent and no error is set. There is memory, fuel
  -- for its lines, the reader takes the lines of the frame, and a receive of one byte or more
  -- brings all that it asks for.
  pub stomp_read_announced :
      Unsplit apr wire
      → (garbage : ℕ) (command bs rest announced : Text) (entries : List (Text × Text))
        (st : State apr)
      → IsHead fuel command entries
      → apr.hash_get (set_all memory.empty entries) (text "content-length") ≡ some announced
      → to_size (apr.atoi64 announced) ≡ length bs
      → bs ≢ []
      → wire.input s st.net
        ≡ command ++ 10 ∷ (header_text entries ++ 10 ∷ (bs ++ (frame_end ++ rest)))
      → (u : State apr) × (stomp_read fuel connection pool garbage st
          ≡ done (read_result memory command entries (body bs (length bs)), u))
        × Reads wire s st rest u
  unfolding read_body
  stomp_read_announced unsplit garbage command bs rest announced entries st a present e ne arrived =
      let h = read_head garbage command entries (bs ++ (frame_end ++ rest)) st a arrived in
      let r = read_announced-Reads unsplit announced bs rest h.0 e ne h.2.input_left in
      (
        r.final,
        h.1 ∙ rw present (bind-done (read_announced fuel connection pool announced) _ r.runs),
        Reads-trans wire s h.2 r.reads,
      )
