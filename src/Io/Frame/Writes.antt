-- ===== src/Io/Frame/Writes.antt =====
-- stomp_write delivers the frame's text.
use libstomp.Prelude.{
  ℕ, ◌<◌, ◌≤◌, ◌≡◌, zero-leb, Option, none, some, List, [], ◌∷◌, ◌++◌, append-nil, Text, Buffer,
  text, length, ℤ, to_size, take,
}
use mathlib.Core.Path.{subst}
use libstomp.Exec.{◌>>◌, ◌⊳◌, pure}
use libstomp.Platform.{Apr, Wire}
use libstomp.Machine.{State, M, update_mem}
use libstomp.Io.Base.{Connection, Frame}
use libstomp.Io.Delivery.{Sends}
use libstomp.Io.Rules.{
  Writes, Writes-seq, Writes-done, Writes-on_mem, Writes-release, Writes-or_report,
  write_text-Writes, stomp_write_buffer-Writes,
}
use libstomp.Io.Frame.{
  newline, frame_end, content_length, write_text, write_headers, write_content_length,
  write_all_headers, write_body, write_parts, stomp_write,
}

-- The text of a frame whose `content-length` is `n`.
module _ ⦃apr : Apr⦄ where
  abbrev pub header_text : List (Text × Text) → Text
  header_text [] = []
  header_text ((key, value) ∷ entries) =
      key ++ ((58 ∷ []) ++ (value ++ (newline ++ header_text entries)))

  abbrev pub length_text : ℤ → Text
  length_text n = text "content-length:" ++ (apr.itoa n ++ newline)

  abbrev pub headers_text : Option apr.Hash → ℤ → Text
  headers_text none n = []
  headers_text (some h) n = header_text (apr.hash_entries h) ++ length_text n

  abbrev pub body_text : Option Buffer → ℤ → Text
  body_text none n = []
  body_text (some b) n = take (to_size n) b

  abbrev pub frame_text : Frame apr → ℤ → Text
  frame_text frame n =
      frame.command
      ++ (newline
          ++ (headers_text frame.headers n ++ (newline ++ (body_text frame.body n ++ frame_end))))

  -- The body has the bytes that are announced.
  abbrev pub BodyFits : Option Buffer → ℤ → Type 0
  BodyFits none n = Unit
  BodyFits (some b) n = to_size n ≤ length b

module _ ⦃apr : Apr⦄ (wire : Wire apr) (s : apr.Socket) (fuel : ℕ) (connection : Connection apr)
    (open_socket : connection.socket ≡ some s) where
  abbrev Delivers : M ℕ → Text → Type 0
  Delivers = Writes wire s fuel

  write-text : (t : Text) → Delivers (write_text fuel connection t) t
  write-text = write_text-Writes wire s fuel connection open_socket

  seq : (m k : M ℕ) (a b : Text) → Delivers m a → Delivers k b → Delivers (m ⊳ k) (a ++ b)
  seq = Writes-seq wire s fuel

  write_headers-Writes :
      (entries : List (Text × Text))
      → Delivers (write_headers fuel connection entries) (header_text entries)
  unfolding write_headers
  write_headers-Writes [] = Writes-done wire s fuel
  write_headers-Writes ((key, value) ∷ entries) = seq _ _ _ _ (write-text key) (
      seq _ _ _ _ (write-text (58 ∷ [])) (
        seq _ _ _ _ (write-text value)
          (seq _ _ _ _ (write-text newline) (write_headers-Writes entries))))

  module _ (k : ℕ) (pool : apr.Pool) (n : ℤ) where
    write_content_length-Writes :
        Delivers (write_content_length fuel connection k pool (some n)) (length_text n)
    unfolding write_content_length
    write_content_length-Writes = rw zero-leb (
        Writes-on_mem wire s fuel (apr.pool_create (some pool)) _ _ λ a.
          seq _ _ _ _ (write-text (text "content-length:")) (
            seq _
              (write_text fuel connection newline ⊳ (update_mem (apr.pool_destroy a.1) >> pure 0)) _
              _ (write-text (apr.itoa n))
              (subst
                (λ t.
                  Delivers
                    (write_text fuel connection newline
                      ⊳ (update_mem (apr.pool_destroy a.1) >> pure 0))
                    t)
                (append-nil newline)
                (seq _ _ _ _ (write-text newline)
                  (Writes-release wire s fuel (apr.pool_destroy a.1))))))

    write_all_headers-Writes :
        (h : Option apr.Hash)
        → Delivers (write_all_headers fuel connection h k pool (some n)) (headers_text h n)
    unfolding write_all_headers
    write_all_headers-Writes none = Writes-done wire s fuel
    write_all_headers-Writes (some h) =
        seq _ _ _ _ (write_headers-Writes (apr.hash_entries h)) write_content_length-Writes

  write_body-Writes :
      (b : Option Buffer) (n : ℤ)
      → BodyFits b n
      → Delivers (write_body fuel connection b (some n)) (body_text b n)
  unfolding write_body
  write_body-Writes none n fits = Writes-done wire s fuel
  write_body-Writes (some b) n fits =
      stomp_write_buffer-Writes wire s fuel connection open_socket b (to_size n) fits

  write_parts-Writes :
      (frame : Frame apr) (pool : apr.Pool) (n : ℤ)
      → BodyFits frame.body n
      → Delivers (write_parts fuel connection frame pool (some n)) (frame_text frame n)
  unfolding write_parts
  write_parts-Writes frame pool n fits = seq _ _ _ _ (write-text frame.command) (
      seq _ _ _ _ (write-text newline) (
        seq _ _ _ _ (write_all_headers-Writes frame.body_length pool n frame.headers) (
          seq _ _ _ _ (write-text newline)
            (seq _ _ _ _ (write_body-Writes frame.body n fits) (write-text frame_end)))))

  -- stomp_write ends. It returns APR_SUCCESS if the whole text of the frame has gone to the socket,
  -- and otherwise an error, when a prefix of the text has gone. It reads nothing.
  pub stomp_write-Sends :
      (frame : Frame apr) (pool : apr.Pool) (n : ℤ) (st : State apr)
      → content_length frame ≡ some n
      → BodyFits frame.body n
      → length (frame_text frame n) < fuel
      → Sends wire s (stomp_write fuel connection frame pool) (frame_text frame n) st
  unfolding stomp_write
  stomp_write-Sends frame pool n st announced fits enough = rw announced (
      Writes-or_report wire s fuel _ (text "unable to read data: %s") _
        (write_parts-Writes frame pool n fits) st enough)
