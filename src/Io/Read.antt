-- ===== src/Io/Read.antt =====
-- stomp_read of stomp_io.c: a frame from the wire, and stomp_io_can_read.
pub mod Table
pub mod Ends
pub mod Total
pub mod Frames
pub mod Arrived
pub mod Ready
pub mod Written
use libstomp.Prelude.{
  ℕ, zero, suc, ◌+◌, ◌-◌, Bool, true, false, Option, none, some, List, [], ◌∷◌, ◌++◌, ◌&&◌, Text,
  Buffer, text, c_str, length, replicate, ◌==◌, if◌then◌else◌, to_size, is_zero,
}
use libstomp.Exec.{done, fault, out_of_fuel, ◌>>=◌, ◌>>◌, deref, pure, stuck, crash}
use libstomp.Platform.{Apr}
use libstomp.Machine.{State, M, on_net, on_mem}
use libstomp.Io.Base.{Connection, Frame, io_status_set, recv}
use libstomp.Io.Line.{Line, line, no_line, stomp_read_line}
use libstomp.Io.Body.{Body, body, no_body, stomp_debug, stomp_read_buffer}

-- p2 = strstr(p, ":"); the key before it, and the value behind it
unfoldable pub split_header : Text → Option (Text × Text)
split_header [] = none
split_header (b ∷ bs) =
    let rest = split_header bs in
    if b == 58
    then some ([], bs)
    else elim rest [ none ↦ none | some (key, value) ↦ some (b ∷ key, value) ]

-- len_receive == 2, endbuffer[0] == '\0' and endbuffer[1] == '\n'
unfoldable pub is_frame_end : Buffer → Bool
is_frame_end (a ∷ b ∷ []) = a == 0 && b == 10
is_frame_end _ = false

-- sizeof (stomp_frame)
abbrev pub frame_size : ℕ
frame_size = 32

pub data Headers (apr : Apr) : Type 0 where
  headers : apr.Hash → Headers apr
  bad_headers : ℕ → Headers apr

-- `*frame` with APR_SUCCESS, or the error that is returned.
pub data Incoming (apr : Apr) : Type 0 where
  frame : Frame apr → Incoming apr
  no_frame : ℕ → Incoming apr

abbrev pub incoming : ⦃apr : Apr⦄ → Text → apr.Hash → Body → Incoming apr
incoming command h (no_body rc) = no_frame rc
incoming command h (body bytes n) =
    frame (record { command = command; headers = some h; body = some bytes; body_length = n })

module _ ⦃apr : Apr⦄ (fuel : ℕ) (connection : Connection apr) (pool : apr.Pool) where
  abbrev header_error : Text → Text
  header_error p =
      text "protocol error (expected : within received string but got none in string '"
      ++ (p ++ text "')")

  -- One header line: an empty one ends the headers.
  unfoldable pub header_line : (apr.Hash → M (Headers apr)) → apr.Hash → Line → M (Headers apr)
  unfolding io_status_set
  header_line continue h (no_line rc) = pure (bad_headers rc)
  header_line continue h (line p length) = elim (is_zero length) [
    | true ↦ pure (headers h)
    | false ↦ elim (split_header (c_str p)) [
      | none ↦ do io_status_set (header_error (c_str p)); pure (bad_headers apr.egeneral)
      | some (key, value) ↦ continue (apr.hash_set h key (some value))
    ]
  ]

  -- The loop over the header lines.
  unfoldable pub header_loop : ℕ → apr.Hash → M (Headers apr)
  unfolding header_line
  header_loop zero h = stuck
  header_loop (suc rounds) h = do
    l ← stomp_read_line fuel connection pool
    header_line (header_loop rounds) h l

  -- The two bytes behind a body of an announced length.
  unfoldable pub read_frame_end : Buffer → ℕ → M Body
  unfolding io_status_set
  read_frame_end bytes body_length = do
    (rc, endbuffer) ← recv connection 2
    elim (rc == 0) [
      | false ↦ do
        io_status_set (text "protocol error (expected newline not present)")
        pure (no_body rc)
      | true ↦ elim (is_frame_end endbuffer) [
        | true ↦ pure (body bytes body_length)
        | false ↦ do
          io_status_set (text "protocol error (missing data and/or character terminators)")
          pure (no_body apr.egeneral)
      ]
    ]

  -- One receive for the whole body, into the zeros of apr_pcalloc.
  unfoldable pub receive_body : ℕ → M Body
  unfolding read_frame_end io_status_set
  receive_body n = do
    allocated ← on_mem (apr.pcalloc pool n)
    elim allocated [
      | false ↦ crash
      | true ↦ do
        (rc, received) ← recv connection n
        elim (rc == 0) [
          | false ↦ do
            io_status_set (text "I/O error (unable to receive from socket)")
            pure (no_body rc)
          | true ↦ read_frame_end (received ++ replicate (n - length received) 0) (length received)
        ]
    ]

  unfoldable pub read_announced : Text → M Body
  unfolding receive_body
  read_announced content_length = receive_body (to_size (apr.atoi64 content_length))

  unfoldable pub remainder : Body → M Body
  unfolding io_status_set
  remainder (body bytes n) = pure (body bytes n)
  remainder (no_body rc) = do
    io_status_set (text "protocol error (failed to read remainder of the buffer)")
    pure (no_body rc)

  unfoldable pub read_unannounced : ℕ → M Body
  unfolding remainder
  read_unannounced garbage = do b ← stomp_read_buffer fuel connection garbage pool; remainder b

  unfoldable pub read_body : ℕ → Option Text → M Body
  read_body garbage none = read_unannounced garbage
  read_body garbage (some content_length) = read_announced content_length

  unfoldable pub read_content : ℕ → Text → Headers apr → M (Incoming apr)
  unfolding read_body
  read_content garbage command (bad_headers rc) = pure (no_frame rc)
  read_content garbage command (headers h) = do
    b ← read_body garbage (apr.hash_get h (text "content-length"))
    pure (incoming command h b)

  unfoldable pub read_rest : ℕ → apr.Hash → Line → M (Incoming apr)
  unfolding header_loop read_content
  read_rest garbage h (no_line rc) = pure (no_frame rc)
  read_rest garbage h (line p length) = do
    parsed ← header_loop fuel h
    read_content garbage (c_str p) parsed

  unfoldable pub stomp_read : ℕ → M (Incoming apr)
  unfolding stomp_debug io_status_set
  stomp_read garbage = do
    _ ← stomp_debug pool
    f ← on_mem (apr.pcalloc pool frame_size)
    elim f [
      | false ↦ do io_status_set (text "not enough memory"); pure (no_frame apr.enomem)
      | true ↦ do
        h ← on_mem (apr.hash_make (some pool))
        elim h [
          | none ↦ do io_status_set (text "not enough memory"); pure (no_frame apr.enomem)
          | some table ↦ do l ← stomp_read_line fuel connection pool; read_rest garbage table l
        ]
    ]

-- stomp_io_can_read; the third argument of apr_wait_for_io_or_timeout asks for reading
unfoldable pub stomp_io_can_read : ⦃apr : Apr⦄ → Connection apr → M Bool
unfolding io_status_set
stomp_io_can_read ⦃apr⦄ connection = do
  socket ← deref connection.socket
  rc ← on_net (apr.wait_for_io socket)
  elim (rc == 0) [
    | true ↦ pure true
    | false ↦ elim (rc == apr.timeup) [
      | true ↦ pure false
      | false ↦ do io_status_set (text "unhandled error trying to read from the socket"); pure false
    ]
  ]
