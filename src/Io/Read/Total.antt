-- ===== src/Io/Read/Total.antt =====
-- stomp_read ends on every input, well-formed or not.
use libstomp.Prelude.{
  ℕ, ◌-◌, ◌<◌, ◌≤◌, ◌≡◌, inl, inr, refl, Option, some, none, ◌++◌, Text, Buffer, text, length,
  length-append, replicate, ◌==◌, Bool-cases, int_limit, c_str, to_size, arith,
}
use libstomp.Exec.{bind-done, ◌>>=◌, Returns, Returns-eq, Returns-map, Returns-bind, pure}
use libstomp.Platform.{Apr, Wire, HasMemory, Finished, Codes}
use libstomp.Machine.{State, M}
use libstomp.Io.Base.{Connection, recv, recv_lem, io_status_set}
use libstomp.Io.Input.{Quiet, Quiet-trans, Refuses, Refuses-after, reported, received-Quiet}
use libstomp.Io.Line.{Line, line, no_line, stomp_read_line}
use libstomp.Io.Body.{Body, body, no_body, stomp_debug, stomp_read_buffer}
use libstomp.Io.Body.Ends.{BodyEnds, stomp_read_buffer-Ends}
use libstomp.Io.Read.Ends.{LineEnds, HeadersEnd, line-Ends, header_loop-Ends}
use libstomp.Io.Read.{
  Headers, headers, bad_headers, Incoming, frame, no_frame, incoming, read_content, is_frame_end,
  frame_size, header_loop, read_frame_end, receive_body, read_announced, remainder,
  read_unannounced, read_body, read_rest, stomp_read,
}

module _ ⦃apr : Apr⦄ (wire : Wire apr) (s : apr.Socket) where
  abbrev Bodies : State apr → Body × State apr → Type 0
  Bodies st = BodyEnds wire s st

  -- Whatever stomp_read returns: a frame with a table of headers and a body that has as many bytes
  -- as its length says, which had all arrived; or a status that is no success, and a message about it.
  abbrev pub FrameEnds : State apr → Incoming apr × State apr → Type 0
  FrameEnds st (frame f, u) =
      ((h : apr.Hash) × (f.headers ≡ some h))
      × ((b : Buffer) × (f.body ≡ some b) × (f.body_length ≤ length b))
      × (f.body_length ≤ length (wire.input s st.net))
      × Quiet wire s st u
  FrameEnds st (no_frame rc, u) = Refuses wire s st rc u

  incoming-Ends :
      (command : Text) (h : apr.Hash) (st : State apr) (b : Body) (u : State apr)
      → Bodies st (b, u)
      → FrameEnds st (incoming command h b, u)
  incoming-Ends command h st (body bytes n) u (fits, le, q) =
      ((h, refl), (bytes, refl, fits), le, q)
  incoming-Ends command h st (no_body rc) u r = r

  FrameEnds-after :
      {st u : State apr}
      → length (wire.input s u.net) ≤ length (wire.input s st.net)
      → Quiet wire s st u
      → (r : Incoming apr × State apr) → FrameEnds u r
      → FrameEnds st r
  FrameEnds-after le q (frame f, v) (h, b, le', q') = (h, b, omega arith, Quiet-trans wire s q q')
  FrameEnds-after le q (no_frame rc, v) r = Refuses-after wire s q r

module _ ⦃apr : Apr⦄ (wire : Wire apr) (memory : HasMemory apr) (finished : Finished apr wire)
    (codes : Codes apr) (s : apr.Socket) (connection : Connection apr)
    (open_socket : connection.socket ≡ some s) (fuel : ℕ) (pool : apr.Pool) (garbage : ℕ) where
  recv-Ends :
      (n : ℕ) (st u : State apr) (f : ℕ × Buffer → M Body)
      → Returns
          (Bodies wire s st)
          (f (apr.socket_recv s n u.net).0 (record u { net = (apr.socket_recv s n u.net).1 }))
      → Returns (Bodies wire s st) ((recv connection n >>= f) u)
  recv-Ends n st u f =
      Returns-eq (Bodies wire s st)
        (bind-done (recv connection n) f (recv_lem connection open_socket u n))

  read_frame_end-Ends :
      (bytes : Buffer) (n : ℕ) (st u : State apr)
      → n ≤ length bytes
      → n ≤ length (wire.input s st.net)
      → Quiet wire s st u
      → Returns (Bodies wire s st) (read_frame_end fuel connection pool bytes n u)
  unfolding read_frame_end io_status_set
  read_frame_end-Ends bytes n st u fits le q =
      let r = apr.socket_recv s 2 u.net in
      let q' = Quiet-trans wire s q (received-Quiet wire s 2 u) in
      recv-Ends 2 st u _ (elim (Bool-cases (r.0.0 == 0)) [
        | inr failed ↦ rw (failed, Returns) (reported wire s q' (ground arith) _ u.mem)
        | inl arrived ↦
            rw (arrived, Returns)
              (elim (Bool-cases (is_frame_end r.0.1)) [
                | inl ended ↦ rw ended (fits, le, q')
                | inr other ↦ rw other (reported wire s q' codes.egeneral_error _ u.mem)
              ])
      ])

  receive_body-Ends :
      (n : ℕ) (st : State apr) → Returns (Bodies wire s st) (receive_body fuel connection pool n st)
  unfolding receive_body io_status_set
  receive_body-Ends n st =
      let u : State apr = record st { mem = (apr.pcalloc pool n st.mem).1 } in
      let r = apr.socket_recv s n st.net in
      let v : State apr = record u { net = r.1 } in
      let q : Quiet wire s st v = record {
        output_kept = wire.output-recv s n st.net;
        engine_kept = refl;
      } in
      rw (memory.allocated, Returns)
        (recv-Ends n st u _ (elim (Bool-cases (r.0.0 == 0)) [
          | inr failed ↦ rw (failed, Returns) (reported wire s q (ground arith) _ u.mem)
          | inl arrived ↦
              rw (arrived, Returns)
                (read_frame_end-Ends (r.0.1 ++ replicate (n - length r.0.1) 0) (length r.0.1) st v
                  (omega (arith, length-append r.0.1 (replicate (n - length r.0.1) 0)))
                  (wire.recv_le s n st.net) q)
        ]))

  remainder-Ends :
      (st : State apr) (b : Body) (u : State apr)
      → Bodies wire s st (b, u)
      → Returns (Bodies wire s st) (remainder fuel connection pool b u)
  unfolding remainder io_status_set
  remainder-Ends st (body bytes n) u r = r
  remainder-Ends st (no_body rc) u r = reported wire s r.quiet r.is_error _ u.mem

  read_unannounced-Ends :
      (st : State apr)
      → length (wire.input s st.net) < fuel
      → Returns (Bodies wire s st) (read_unannounced fuel connection pool garbage st)
  unfolding read_unannounced
  read_unannounced-Ends st enough =
      Returns-bind (Bodies wire s st) (Bodies wire s st) (remainder fuel connection pool)
        (remainder-Ends st) (stomp_read_buffer fuel connection garbage pool) st
        (stomp_read_buffer-Ends wire memory finished codes s connection open_socket garbage fuel
          pool st enough)

  read_body-Ends :
      (o : Option Text) (st : State apr)
      → length (wire.input s st.net) < fuel
      → Returns (Bodies wire s st) (read_body fuel connection pool garbage o st)
  unfolding read_body read_announced
  read_body-Ends none st enough = read_unannounced-Ends st enough
  read_body-Ends (some t) st enough = receive_body-Ends (to_size (apr.atoi64 t)) st

  module _ where
    read_content-Ends :
        (command : Text) (st : State apr)
        → length (wire.input s st.net) < fuel
        → (r : Headers apr) (u : State apr) → HeadersEnd wire s st (r, u)
        → Returns (FrameEnds wire s st) (read_content fuel connection pool garbage command r u)
    unfolding read_content
    read_content-Ends command st enough (bad_headers rc) u r = r
    read_content-Ends command st enough (headers h) u (le, q) =
        Returns-bind (Bodies wire s u) (FrameEnds wire s st) (λ b. pure (incoming command h b))
          (λ b v r.
            FrameEnds-after wire s le q (incoming command h b, v)
              (incoming-Ends wire s command h u b v r))
          (read_body fuel connection pool garbage (apr.hash_get h (text "content-length"))) u
          (read_body-Ends (apr.hash_get h (text "content-length")) u (omega arith))

    read_rest-Ends :
        (h : apr.Hash) (st : State apr)
        → length (wire.input s st.net) < fuel
        → length (wire.input s st.net) < int_limit
        → (l : Line) (u : State apr) → LineEnds wire s st (l, u)
        → Returns (FrameEnds wire s st) (read_rest fuel connection pool garbage h l u)
    unfolding read_rest
    read_rest-Ends h st enough small (no_line rc) u r = r
    read_rest-Ends h st enough small (line p n) u (lt, q) =
        Returns-map (FrameEnds wire s u) (FrameEnds wire s st) _
          (FrameEnds-after wire s (omega arith) q)
          (Returns-bind (HeadersEnd wire s u) (FrameEnds wire s u)
            (read_content fuel connection pool garbage (c_str p))
            (read_content-Ends (c_str p) u (omega arith)) (header_loop fuel connection pool fuel h)
            u
            (header_loop-Ends wire memory finished codes s connection open_socket fuel pool fuel h u
              (omega arith) (omega arith) (omega arith)))

    -- stomp_read ends on every input, well-formed or not, with memory, from a peer that has sent
    -- all that it will send, with fuel above the length of that, which is less than INT_MAX. It
    -- never faults. It returns APR_SUCCESS with a frame that has a table of headers and a body with
    -- as many bytes as its length says, which had all arrived; or an error, and the status of the
    -- io is STOMP_FAILURE with a message. In both cases nothing is sent, and the engine's status
    -- stays as it was.
    pub stomp_read-FrameEnds :
        (st : State apr)
        → length (wire.input s st.net) < fuel
        → length (wire.input s st.net) < int_limit
        → Returns (FrameEnds wire s st) (stomp_read fuel connection pool garbage st)
    unfolding stomp_read stomp_debug
    stomp_read-FrameEnds st enough small =
        let u : State apr = record st {
          mem =
              (apr.hash_make (some pool)
                (apr.pcalloc pool frame_size (apr.env_get (text "STOMP_DEBUG") st.mem).1).1).1;
        } in
        let begun : Quiet wire s st u = record { output_kept = refl; engine_kept = refl } in
        rw (memory.allocated, memory.hash_made, Returns)
          (Returns-map (FrameEnds wire s u) (FrameEnds wire s st) _
            (FrameEnds-after wire s (omega arith) begun)
            (Returns-bind (LineEnds wire s u) (FrameEnds wire s u)
              (read_rest fuel connection pool garbage memory.empty)
              (read_rest-Ends memory.empty u enough small) (stomp_read_line fuel connection pool) u
              (line-Ends wire memory finished codes s connection open_socket fuel pool u enough
                small)))
