-- ===== src/Io/Frame.antt =====
-- stomp_write of stomp_io.c: a frame on the wire. The loops of stomp_write_buffer run on fuel.
pub mod Writes
pub mod Accepted
use libstomp.Prelude.{
  ℕ, zero, suc, ◌+◌, Option, none, some, List, [], ◌∷◌, ◌++◌, Text, Buffer, text, length, leb, true,
  false, ◌==◌, if◌then◌else◌, ℤ, to_int, to_size, is_positive, strlen,
}
use libstomp.Exec.{done, fault, out_of_fuel, ◌>>=◌, ◌>>◌, ◌⊳◌, deref, pure}
use libstomp.Platform.{Apr}
use libstomp.Machine.{State, M, on_mem, update_mem}
use libstomp.Io.Base.{Connection, Frame, set_error}
use libstomp.Io.Write.{stomp_write_buffer}

abbrev pub newline : Text
newline = 10 ∷ []

-- "\0\n"
abbrev pub frame_end : Text
frame_end = 0 ∷ 10 ∷ []

-- The `int body_length` of stomp_write; `none` where strlen runs past the end of the body.
unfoldable pub content_length : ⦃apr : Apr⦄ → Frame apr → Option ℤ
content_length frame =
    let n = to_int frame.body_length in
    if is_positive n then some n else elim frame.body [
      | none ↦ some n
      | some body ↦ elim (strlen body) [ none ↦ none | some k ↦ some (to_int (k + 1)) ]
    ]

module _ ⦃apr : Apr⦄ (fuel : ℕ) (connection : Connection apr) where
  -- A C string, without its terminator.
  abbrev pub write_text : Text → M ℕ
  write_text t = stomp_write_buffer fuel connection t (length t)

  unfoldable pub write_headers : List (Text × Text) → M ℕ
  write_headers [] = pure 0
  write_headers ((key, value) ∷ entries) =
      write_text key
      ⊳ write_text (58 ∷ [])
      ⊳ write_text value
      ⊳ write_text newline
      ⊳ write_headers entries

  -- `body_length >= 0` is a test of an unsigned number. The last argument is the `content_length`.
  unfoldable pub write_content_length : ℕ → apr.Pool → Option ℤ → M ℕ
  write_content_length body_length pool announced =
      if leb 0 body_length
      then (do
        (_, length_pool) ← on_mem (apr.pool_create (some pool))
        write_text (text "content-length:") ⊳ (do
          n ← deref announced
          write_text (apr.itoa n)
              ⊳ write_text newline
              ⊳ (do update_mem (apr.pool_destroy length_pool); pure 0)))
      else pure 0

  unfoldable pub write_all_headers : Option apr.Hash → ℕ → apr.Pool → Option ℤ → M ℕ
  unfolding write_headers write_content_length
  write_all_headers none body_length pool announced = pure 0
  write_all_headers (some h) body_length pool announced =
      write_headers (apr.hash_entries h) ⊳ write_content_length body_length pool announced

  unfoldable pub write_body : Option Buffer → Option ℤ → M ℕ
  write_body none announced = pure 0
  write_body (some body) announced = do
    n ← deref announced
    stomp_write_buffer fuel connection body (to_size n)

  unfoldable pub write_parts : Frame apr → apr.Pool → Option ℤ → M ℕ
  unfolding write_all_headers write_body
  write_parts frame pool announced =
      write_text frame.command
      ⊳ write_text newline
      ⊳ write_all_headers frame.headers frame.body_length pool announced
      ⊳ write_text newline
      ⊳ write_body frame.body announced
      ⊳ write_text frame_end

  unfoldable pub stomp_write : Frame apr → apr.Pool → M ℕ
  unfolding write_parts content_length set_error
  stomp_write frame pool = do
    rc ← write_parts frame pool (content_length frame)
    if rc == 0 then pure 0 else do set_error rc (text "unable to read data: %s"); pure rc
