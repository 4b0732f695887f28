-- ===== src/Io/Stream.antt =====
-- Frames written one after another, and read one after another on the other side.
use libstomp.Prelude.{
  ℕ, ◌≡◌, refl, sym, ◌∙◌, ap, some, List, [], ◌∷◌, ◌++◌, append_assoc, append-nil, Text, ℤ,
}
use libstomp.Exec.{done, ◌>>=◌, ◌⊳◌, pure, bind-done, then-success}
use libstomp.Platform.{Apr, Wire, HasMemory, Unsplit, Accepting, HashLaws}
use libstomp.Machine.{State, M}
use libstomp.Io.Base.{Connection, Frame}
use libstomp.Io.Input.{Reads, Reads-refl, Reads-trans}
use libstomp.Io.Frame.{stomp_write}
use libstomp.Io.Frame.Writes.{frame_text}
use libstomp.Io.Read.{Incoming, stomp_read}
use libstomp.Io.Read.Written.{IsSendable, IsCopy, stomp_read-frame_text, sent-accepted}

module _ ⦃apr : Apr⦄ where
  -- The text of frames with their content-lengths.
  abbrev pub stream_text : List (Frame apr × ℤ) → Text
  stream_text [] = []
  stream_text ((f, n) ∷ fs) = frame_text f n ++ stream_text fs

  module _ (fuel : ℕ) (c : Connection apr) (pool : apr.Pool) where
    -- A program that writes frames, and stops at an error.
    unfoldable pub write_frames : List (Frame apr × ℤ) → M ℕ
    write_frames [] = pure 0
    write_frames ((f, n) ∷ fs) = stomp_write fuel c f pool ⊳ write_frames fs

    -- A program that reads as many frames as there are in a list.
    unfoldable pub read_frames : (garbage : ℕ) → List (Frame apr × ℤ) → M (List (Incoming apr))
    read_frames garbage [] = pure []
    read_frames garbage (_ ∷ fs) = do
      r ← stomp_read fuel c pool garbage
      rs ← read_frames garbage fs
      pure (r ∷ rs)

  abbrev pub AreSendable : ℕ → List (Frame apr × ℤ) → Type 0
  AreSendable fuel [] = Unit
  AreSendable fuel ((f, n) ∷ fs) = IsSendable fuel f n × AreSendable fuel fs

  -- One copy of each frame, in the same order.
  abbrev pub AreCopies : List (Frame apr × ℤ) → List (Incoming apr) → Type 0
  AreCopies [] [] = Unit
  AreCopies [] (r ∷ rs) = ⊥
  AreCopies ((f, n) ∷ fs) [] = ⊥
  AreCopies ((f, n) ∷ fs) (r ∷ rs) = IsCopy f n r × AreCopies fs rs

module _ ⦃apr : Apr⦄ (wire : Wire apr) (fuel : ℕ) (pool : apr.Pool) where
  write_frames-accepted :
      (accepting : Accepting apr) (s : apr.Socket) (c : Connection apr)
      → c.socket ≡ some s
      → (fs : List (Frame apr × ℤ)) (st : State apr) → AreSendable fuel fs
      → (u : State apr) × (write_frames fuel c pool fs st ≡ done (0, u))
        × (wire.output s u.net ≡ wire.output s st.net ++ stream_text fs)
  unfolding write_frames
  write_frames-accepted accepting s c open_socket [] st all = (st, refl, sym (append-nil _))
  write_frames-accepted accepting s c open_socket ((f, n) ∷ fs) st (a, all) =
      let (u, runs, out) = sent-accepted wire fuel pool accepting s c open_socket f n st a in
      let (v, runs', out') = write_frames-accepted accepting s c open_socket fs u all in
      (
        v,
        then-success (stomp_write fuel c f pool) (write_frames fuel c pool fs) runs refl ∙ runs',
        out'
            ∙ ap (λ t. t ++ stream_text fs) out
            ∙ append_assoc (wire.output s st.net) (frame_text f n) (stream_text fs),
      )

  module _ (memory : HasMemory apr) (unsplit : Unsplit apr wire) (laws : HashLaws apr)
      (s : apr.Socket) (c : Connection apr) (open_socket : c.socket ≡ some s) (garbage : ℕ) where
    read_frames-written :
        (fs : List (Frame apr × ℤ)) (rest : Text) (st : State apr)
        → AreSendable fuel fs
        → wire.input s st.net ≡ stream_text fs ++ rest
        → (u : State apr) × (rs : List (Incoming apr)) × (read_frames fuel c pool garbage fs st
            ≡ done (rs, u))
          × AreCopies fs rs
          × Reads wire s st rest u
    unfolding read_frames
    read_frames-written [] rest st all arrived = (st, [], refl, tt, Reads-refl wire s st arrived)
    read_frames-written ((f, n) ∷ fs) rest st (a, all) arrived =
        let (u, r, runs, copied, reads) =
          stomp_read-frame_text wire memory unsplit laws s c open_socket fuel pool garbage f n
            (stream_text fs ++ rest) st a
            (arrived ∙ append_assoc (frame_text f n) (stream_text fs) rest) in
        let (v, rs, runs', copies, reads') = read_frames-written fs rest u all reads.input_left in
        (
          v,
          r ∷ rs,
          bind-done (stomp_read fuel c pool garbage) _ runs
              ∙ bind-done (read_frames fuel c pool garbage fs) _ runs',
          (copied, copies),
          Reads-trans wire s reads reads',
        )

    -- No send fails, there is memory, fuel for the text of a frame, a receive of one byte or more
    -- brings all that it asks for, and hash tables are finite maps. Each of the frames has headers
    -- and a body, the reader takes its lines, and apr_atoi64 reads back its content-length, which
    -- is positive and which the body reaches. Then stomp_write, called for one frame after another,
    -- always succeeds. Where all that it has put on the wire has arrived on the other side,
    -- whatever follows it, as many calls of stomp_read all succeed, and return a copy of each frame
    -- in the same order: the command, every header, with the content-length in the place of any
    -- that there was, and the announced bytes of the body. They read all that was written and
    -- nothing else.
    pub read_frames-write_frames :
        (accepting : Accepting apr) (sender : apr.Socket) (c' : Connection apr)
        (reader : Text → State apr) (fs : List (Frame apr × ℤ)) (rest : Text) (st : State apr)
        → c'.socket ≡ some sender
        → ((t : Text) → wire.input s (reader t).net ≡ t)
        → AreSendable fuel fs
        → (u : State apr) × (t : Text) × (write_frames fuel c' pool fs st ≡ done (0, u))
          × (wire.output sender u.net ≡ wire.output sender st.net ++ t)
          × ((v : State apr) × (rs : List (Incoming apr)) × (read_frames fuel c pool garbage fs
                  (reader (t ++ rest))
                ≡ done (rs, v))
              × AreCopies fs rs
              × Reads wire s (reader (t ++ rest)) rest v)
    read_frames-write_frames accepting sender c' reader fs rest st opened arrives all =
        let (u, runs, out) = write_frames-accepted accepting sender c' opened fs st all in
        (
          u,
          stream_text fs,
          runs,
          out,
          read_frames-written fs rest (reader (stream_text fs ++ rest)) all
              (arrives (stream_text fs ++ rest)),
        )
