-- ===== src/Io/Body/Reads.antt =====
-- stomp_read_buffer returns the body that has arrived.
use libstomp.Prelude.{
  ℕ, zero, suc, ◌+◌, ◌<◌, ◌≡◌, ap, ◌∙◌, some, [], ◌∷◌, ◌++◌, Text, text, length, length-append,
  ne→==, IsText, arith,
}
use libstomp.Exec.{done, bind-done, ◌>>=◌}
use libstomp.Platform.{Apr, Wire, HasMemory}
use libstomp.Machine.{State}
use libstomp.Io.Base.{Connection, recv}
use libstomp.Io.Blocks.{
  Blocks, no_blocks, contents, HasRoom, no_blocks-HasRoom, put_byte, data_block_list_size,
}
use libstomp.Io.Input.{Reads, Reads-trans, Reads-mem, received, recv_arrived, received-Reads}
use libstomp.Io.Line.{scanned, with_room}
use libstomp.Io.Line.Reads.{Scans, Scans-step, Scans-end, with_room-Scans}
use libstomp.Io.Body.{body, read_endline, body_loop, body_of, stomp_debug, stomp_read_buffer}

module _ ⦃apr : Apr⦄ (wire : Wire apr) (memory : HasMemory apr) (s : apr.Socket)
    (connection : Connection apr) (open_socket : connection.socket ≡ some s) (garbage : ℕ) where
  read_endline-Scans :
      (blocks : Blocks) (rest : Text) (st : State apr)
      → HasRoom blocks
      → wire.input s st.net ≡ 10 ∷ rest
      → Scans wire s
          (read_endline connection garbage (put_byte 0 blocks))
          (contents blocks ++ 0 ∷ [])
          rest
          st
  unfolding read_endline
  read_endline-Scans blocks rest st h arrived =
      Scans-end wire s _ 0 blocks rest st (received wire s st)
        (bind-done (recv connection 1) _
          (recv_arrived wire s st 10 rest arrived connection open_socket))
        h (received-Reads wire s st 10 rest arrived)

  body_loop-Scans :
      (tpool : apr.Pool) (fuel : ℕ) (blocks : Blocks) (t rest : Text) (st : State apr)
      → length t < fuel
      → IsText t
      → HasRoom blocks
      → wire.input s st.net ≡ t ++ 0 ∷ 10 ∷ rest
      → Scans wire s
          (body_loop connection garbage fuel tpool blocks)
          (contents blocks ++ (t ++ 0 ∷ []))
          rest
          st
  unfolding body_loop
  body_loop-Scans tpool zero blocks t rest st enough a h arrived = elim enough [ ]
  body_loop-Scans tpool (suc fuel) blocks [] rest st enough a h arrived =
      Scans-step wire s _ (read_endline connection garbage (put_byte 0 blocks)) _ _ rest st
        (received wire s st)
        (bind-done (recv connection 1) _
          (recv_arrived wire s st 0 (10 ∷ rest) arrived connection open_socket))
        (received-Reads wire s st 0 (10 ∷ rest) arrived)
        (read_endline-Scans blocks rest _ h (wire.input-recv s 0 (10 ∷ rest) st.net arrived))
  body_loop-Scans tpool (suc fuel) blocks (b ∷ t) rest st enough (ne, a) h arrived =
      let after : Text = t ++ 0 ∷ 10 ∷ rest in
      Scans-step wire s _
        (with_room tpool (put_byte b blocks) (body_loop connection garbage fuel tpool)) _ _ rest st
        (received wire s st)
        (bind-done (recv connection 1) _
            (recv_arrived wire s st b after arrived connection open_socket)
          ∙ rw (ne→== b 0 ne))
        (received-Reads wire s st b after arrived)
        (with_room-Scans wire s memory tpool _ b blocks (t ++ 0 ∷ []) rest after
          (received wire s st) h (wire.input-recv s b after st.net arrived)
          (λ more u room e left.
            body_loop-Scans tpool fuel more t rest u (omega arith) a room left))

  body-Scans :
      (tpool : apr.Pool) (fuel : ℕ) (t rest : Text) (st : State apr)
      → length t < fuel
      → IsText t
      → wire.input s st.net ≡ t ++ 0 ∷ 10 ∷ rest
      → Scans wire s (body_loop connection garbage fuel tpool no_blocks) (t ++ 0 ∷ []) rest st
  unfolding contents
  body-Scans tpool fuel t rest st enough a arrived =
      body_loop-Scans tpool fuel no_blocks t rest st enough a no_blocks-HasRoom arrived

  abbrev pub temporary : apr.Pool → State apr → (ℕ × apr.Pool) × apr.Mem
  temporary pool st = apr.pool_create (some pool) (apr.env_get (text "STOMP_DEBUG") st.mem).1

  abbrev pub start : apr.Pool → State apr → State apr
  start pool st = record st {
    mem = (apr.pcalloc (temporary pool st).0.1 data_block_list_size (temporary pool st).1).1;
  }

  pub opened :
      (fuel : ℕ) (pool : apr.Pool) (st : State apr)
      → let tpool = (temporary pool st).0.1 in
        stomp_read_buffer fuel connection garbage pool st
        ≡ (body_loop connection garbage fuel tpool no_blocks >>= body_of pool tpool) (start pool st)
  unfolding stomp_read_buffer stomp_debug
  opened fuel pool st = ground (
    arith,
    memory.pool_created (some pool) (apr.env_get (text "STOMP_DEBUG") st.mem).1,
    memory.allocated (temporary pool st).0.1 data_block_list_size (temporary pool st).1,
  )

  module _ (fuel : ℕ) (pool : apr.Pool) (t rest : Text) (st : State apr) (enough : length t < fuel)
      (a : IsText t) (arrived : wire.input s st.net ≡ t ++ 0 ∷ 10 ∷ rest) where
    scan :
        Scans wire s
          (body_loop connection garbage fuel (temporary pool st).0.1 no_blocks)
          (t ++ 0 ∷ [])
          rest
          (start pool st)
    scan = body-Scans (temporary pool st).0.1 fuel t rest (start pool st) enough a arrived

    after_scan :
        stomp_read_buffer fuel connection garbage pool st
        ≡ body_of pool (temporary pool st).0.1 (scanned scan.blocks) scan.final
    after_scan =
        opened fuel pool st
        ∙ bind-done (body_loop connection garbage fuel (temporary pool st).0.1 no_blocks) _
            scan.runs

    -- There is memory. stomp_read_buffer returns APR_SUCCESS with the bytes up to and with
    -- the first terminator that is to come, however many they are, where a newline follows it. The
    -- newline is read too and dropped, nothing is sent and no error is set.
    pub stomp_read_buffer-Reads :
        (u : State apr) × (stomp_read_buffer fuel connection garbage pool st
          ≡ done (body (t ++ 0 ∷ []) (length t + 1), u))
        × Reads wire s st rest u
    unfolding body_of
    stomp_read_buffer-Reads =
        let u : State apr = record scan.final {
          mem =
              apr.pool_destroy (temporary pool st).0.1
                (apr.pcalloc pool scan.blocks.bytes_read scan.final.mem).1;
        } in
        (
          u,
          after_scan
              ∙ rw (memory.allocated, scan.content)
                  (ap (λ n. done (body (t ++ 0 ∷ []) n, u))
                    (omega (arith, scan.counted, length-append t (0 ∷ [])))),
          Reads-trans wire s
              (Reads-trans wire s (Reads-mem wire s st (start pool st).mem arrived) scan.reads)
              (Reads-mem wire s scan.final u.mem scan.reads.input_left),
        )
