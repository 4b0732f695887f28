-- ===== src/Io/Body/Ends.antt =====
-- The loop of stomp_read_buffer ends on every input.
use libstomp.Prelude.{
  ℕ, zero, suc, ◌+◌, ◌≤◌, ◌<◌, ◌≡◌, ap, inl, inr, refl, some, [], ◌∷◌, ◌++◌, Text, Buffer, text,
  length, length-append, ne→==, ◌==◌, Bool-cases, arith,
}
use libstomp.Exec.{bind-done, ◌>>=◌, Returns, Returns-eq, Returns-map, Returns-bind}
use libstomp.Platform.{Apr, Wire, HasMemory, Finished, Codes}
use libstomp.Machine.{State, M}
use libstomp.Io.Base.{Connection, recv, recv_lem, io_status_set, set_error}
use libstomp.Io.Blocks.{
  no_blocks, no_blocks-HasRoom, Blocks, copied, contents, HasRoom, put_byte, next_block, is_full,
  copied-put_byte, put_byte-HasRoom, next_block-HasRoom, data_block_list_size,
}
use libstomp.Io.Input.{
  Quiet, Quiet-trans, Quiet-mem, Refuses, Refuses-after, reported, received, received-Quiet,
  recv_arrived,
}
use libstomp.Io.Line.{Scan, scanned, failed, with_room}
use libstomp.Io.Body.Reads.{opened, temporary, start}
use libstomp.Io.Body.{Body, body, no_body, body_of, stomp_read_buffer, read_endline, body_loop}

put_byte-counted :
    (b : ℕ) (blocks : Blocks)
    → HasRoom blocks
    → (put_byte b blocks).bytes_read ≡ length (copied (put_byte b blocks))
unfolding put_byte
put_byte-counted b blocks h =
    let c : length (copied (put_byte b blocks)) ≡ length (contents blocks ++ b ∷ []) =
      ap length (copied-put_byte b blocks h) in
    omega (arith, c, length-append (contents blocks) (b ∷ []), h.counted)

put_byte-read : (b : ℕ) (blocks : Blocks) → (put_byte b blocks).bytes_read ≡ suc blocks.bytes_read
unfolding put_byte
put_byte-read b blocks = omega arith

put_byte-most :
    {most : ℕ} (b : ℕ) (blocks : Blocks)
    → blocks.bytes_read < most
    → (put_byte b blocks).bytes_read ≤ most
put_byte-most b blocks h = omega (arith, put_byte-read b blocks)

next_block-read :
    (b : ℕ) (blocks : Blocks) → (next_block (put_byte b blocks)).bytes_read ≡ suc blocks.bytes_read
unfolding next_block put_byte
next_block-read b blocks = omega arith

module _ ⦃apr : Apr⦄ (wire : Wire apr) (s : apr.Socket) where
  -- The blocks hold as many bytes as were counted, `most` at the most; or there is an error and a
  -- message.
  abbrev pub ScanEnds : ℕ → State apr → Scan × State apr → Type 0
  ScanEnds most st (scanned blocks, u) =
      (blocks.bytes_read ≡ length (copied blocks)) × (blocks.bytes_read ≤ most) × Quiet wire s st u
  ScanEnds most st (failed rc, u) = Refuses wire s st rc u

  -- A body with as many bytes as its length says, and no more than had arrived; or an error and a
  -- message.
  abbrev pub BodyEnds : State apr → Body × State apr → Type 0
  BodyEnds st (body bytes n, u) =
      (n ≤ length bytes) × (n ≤ length (wire.input s st.net)) × Quiet wire s st u
  BodyEnds st (no_body rc, u) = Refuses wire s st rc u

  ScanEnds-after :
      {st u : State apr} (most : ℕ)
      → Quiet wire s st u
      → (r : Scan × State apr) → ScanEnds most u r
      → ScanEnds most st r
  ScanEnds-after most q (scanned blocks, v) (n, le, q') = (n, le, Quiet-trans wire s q q')
  ScanEnds-after most q (failed rc, v) r = Refuses-after wire s q r

module _ ⦃apr : Apr⦄ (wire : Wire apr) (memory : HasMemory apr) (finished : Finished apr wire)
    (codes : Codes apr) (s : apr.Socket) (connection : Connection apr)
    (open_socket : connection.socket ≡ some s) (garbage : ℕ) (most : ℕ) where
  abbrev Ends : State apr → M Scan → State apr → Type 0
  Ends st m u = Returns (ScanEnds wire s most st) (m u)

  -- After a receive, which there is always an answer to.
  recv-Ends :
      (st u : State apr) (f : ℕ × Buffer → M Scan)
      → Ends st (f (apr.socket_recv s 1 u.net).0) (received wire s u)
      → Ends st (recv connection 1 >>= f) u
  recv-Ends st u f =
      Returns-eq (ScanEnds wire s most st)
        (bind-done (recv connection 1) f (recv_lem connection open_socket u 1))

  read_endline-Ends :
      (blocks : Blocks) (st : State apr)
      → HasRoom blocks
      → blocks.bytes_read < most
      → Ends st (read_endline connection garbage (put_byte 0 blocks)) st
  unfolding read_endline io_status_set
  read_endline-Ends blocks st h fits =
      let endline : ℕ = elim (apr.socket_recv s 1 st.net).0.1 [ [] ↦ garbage | b ∷ _ ↦ b ] in
      recv-Ends st st _ (elim (Bool-cases (endline == 10)) [
        | inl newline ↦
            rw (newline, Returns)
              (put_byte-counted 0 blocks h, put_byte-most 0 blocks fits, received-Quiet wire s 1 st)
        | inr other ↦
            rw (other, Returns)
              (reported wire s (received-Quiet wire s 1 st) codes.egeneral_error
                (text "protocol error") st.mem)
      ])

  -- The block for the next byte is there, and it has room.
  with_room-Ends :
      (tpool : apr.Pool) (k : Blocks → M Scan) (b : ℕ) (blocks : Blocks) (st u : State apr)
      → HasRoom blocks
      → ((more : Blocks) (mem : apr.Mem)
          → HasRoom more
          → more.bytes_read ≡ suc blocks.bytes_read
          → Ends st (k more) (record u { mem = mem }))
      → Ends st (with_room tpool (put_byte b blocks) k) u
  unfolding with_room
  with_room-Ends tpool k b blocks st u h go = elim (Bool-cases (is_full (put_byte b blocks))) [
    | inl full ↦
        rw (full, Returns, memory.allocated)
          (go (next_block (put_byte b blocks)) (apr.pcalloc tpool data_block_list_size u.mem).1
            (next_block-HasRoom b blocks h full) (next_block-read b blocks))
    | inr room ↦
        rw (room, Returns)
          (go (put_byte b blocks) u.mem (put_byte-HasRoom b blocks h room) (put_byte-read b blocks))
  ]

  -- Whatever has arrived, with fuel above its length.
  pub body_loop-Ends :
      (fuel : ℕ) (tpool : apr.Pool) (blocks : Blocks) (input : Text) (st : State apr)
      → length input < fuel
      → HasRoom blocks
      → wire.input s st.net ≡ input
      → blocks.bytes_read + length input ≤ most
      → Ends st (body_loop connection garbage fuel tpool blocks) st
  unfolding body_loop set_error io_status_set
  body_loop-Ends zero tpool blocks input st enough h arrived fits = elim enough [ ]
  body_loop-Ends (suc fuel) tpool blocks [] st enough h arrived fits =
      let ne = finished.recv_end s st.net arrived in
      recv-Ends st st _ (
        rw (ne→== (apr.socket_recv s 1 st.net).0.0 0 ne, Returns)
          (reported wire s (received-Quiet wire s 1 st) ne _ (apr.pool_destroy tpool st.mem)))
  body_loop-Ends (suc fuel) tpool blocks (b ∷ input) st enough h arrived fits =
      Returns-eq (ScanEnds wire s most st)
        (bind-done (recv connection 1) _
          (recv_arrived wire s st b input arrived connection open_socket))
        (elim (Bool-cases (b == 0)) [
          | inl z ↦
              rw (z, Returns)
                (Returns-map (ScanEnds wire s most (received wire s st)) (ScanEnds wire s most st) _
                  (ScanEnds-after wire s most (received-Quiet wire s 1 st))
                  (read_endline-Ends blocks (received wire s st) h (omega arith)))
          | inr more ↦
              rw (more, Returns)
                (with_room-Ends tpool (body_loop connection garbage fuel tpool) b blocks st
                  (received wire s st) h
                  λ bl mem room count.
                    let u : State apr = record st {
                      net = (apr.socket_recv s 1 st.net).1;
                      mem = mem;
                    } in
                    Returns-map (ScanEnds wire s most u) (ScanEnds wire s most st) _
                      (ScanEnds-after wire s most
                        (Quiet-mem wire s (received-Quiet wire s 1 st) mem))
                      (body_loop-Ends fuel tpool bl input u (omega arith) room
                        (wire.input-recv s b input st.net arrived) (omega arith)))
        ])

module _ ⦃apr : Apr⦄ (wire : Wire apr) (memory : HasMemory apr) (finished : Finished apr wire)
    (codes : Codes apr) (s : apr.Socket) (connection : Connection apr)
    (open_socket : connection.socket ≡ some s) (garbage : ℕ) where
  body_of-Ends :
      (pool tpool : apr.Pool) (st : State apr) (scan : Scan) (u : State apr)
      → ScanEnds wire s (length (wire.input s st.net)) st (scan, u)
      → Returns (BodyEnds wire s st) (body_of pool tpool scan u)
  unfolding body_of
  body_of-Ends pool tpool st (failed rc) u r = r
  body_of-Ends pool tpool st (scanned blocks) u (counted, le, q) =
      rw (memory.allocated, Returns) (omega (arith, counted), le, Quiet-mem wire s q _)

  -- stomp_read_buffer, whether STOMP_DEBUG is set or not.
  pub stomp_read_buffer-Ends :
      (fuel : ℕ) (pool : apr.Pool) (st : State apr)
      → length (wire.input s st.net) < fuel
      → Returns (BodyEnds wire s st) (stomp_read_buffer fuel connection garbage pool st)
  stomp_read_buffer-Ends fuel pool st enough =
      let u = start wire memory s connection open_socket garbage pool st in
      let tpool = (temporary wire memory s connection open_socket garbage pool st).0.1 in
      let begun : Quiet wire s st u = record { output_kept = refl; engine_kept = refl } in
      Returns-eq (BodyEnds wire s st)
        (opened wire memory s connection open_socket garbage fuel pool st)
        (Returns-bind (ScanEnds wire s (length (wire.input s st.net)) u) (BodyEnds wire s st)
          (body_of pool tpool)
          (λ scan v r.
            body_of-Ends pool tpool st scan v
              (ScanEnds-after wire s (length (wire.input s st.net)) begun (scan, v) r))
          (body_loop connection garbage fuel tpool no_blocks) u
          (body_loop-Ends wire memory finished codes s connection open_socket garbage
            (length (wire.input s st.net)) fuel tpool no_blocks (wire.input s st.net) u enough
            no_blocks-HasRoom refl (omega arith)))
