-- ===== src/Io/Read/Written.antt =====
-- What stomp_write puts on the wire is read back by stomp_read.
use libstomp.Prelude.{
  ℕ, ◌<◌, arith, length-nonempty, ◌≤◌, ◌≡◌, refl, sym, ◌∙◌, ap, inl, inr, Bool, true, false,
  Bool-cases, Option, none, some, List, [], ◌∷◌, ◌++◌, append_assoc, Text, Buffer, text, length,
  take, length-take_within, ℤ, to_size, same_text, same_text_refl, if◌then◌else◌,
}
use mathlib.Core.Path.{subst}
use libstomp.Exec.{done}
use libstomp.Platform.{Apr, Wire, HasMemory, Unsplit, Accepting, HashLaws, find, first}
use libstomp.Machine.{State}
use libstomp.Io.Base.{Connection, Frame}
use libstomp.Io.Input.{Reads}
use libstomp.Io.Frame.{newline, frame_end, content_length, stomp_write}
use libstomp.Io.Frame.Accepted.{stomp_write-accepted}
use libstomp.Io.Frame.Writes.{BodyFits, header_text, length_text, body_text, frame_text}
use libstomp.Io.Read.{Incoming, frame, stomp_read}
use libstomp.Io.Read.Table.{IsHead, set_all}
use libstomp.Io.Read.Frames.{stomp_read_announced}

first_assoc : (a b c : Option Text) → first (first a b) c ≡ first a (first b c)
first_assoc none b c = refl
first_assoc (some t) b c = refl

first_if :
    (b : Bool) (t : Text) (o : Option Text)
    → first (if b then some t else none) o ≡ (if b then some t else o)
first_if true t o = refl
first_if false t o = refl

first-none : (o : Option Text) → first o none ≡ o
first-none none = refl
first-none (some t) = refl

module _ ⦃apr : Apr⦄ (laws : HashLaws apr) where
  set_first :
      (h : apr.Hash) (j v k : Text)
      → apr.hash_get (apr.hash_set h j (some v)) k
        ≡ first (if same_text j k then some v else none) (apr.hash_get h k)
  set_first h j v k = laws.get-set h j k (some v) ∙ elim (Bool-cases (same_text j k)) [
    | inl e ↦ rw (e, if◌then◌else◌)
    | inr e ↦ rw (e, if◌then◌else◌)
  ]

  get-set_all :
      (h : apr.Hash) (entries : List (Text × Text)) (k : Text)
      → apr.hash_get (set_all h entries) k ≡ first (find k entries) (apr.hash_get h k)
  get-set_all h [] k = refl
  get-set_all h ((j, v) ∷ entries) k =
      get-set_all (apr.hash_set h j (some v)) entries k
      ∙ ap (λ o. first (find k entries) o) (set_first h j v k)
      ∙ sym (first_assoc (find k entries) _ _)

-- An entry behind the others.
module _ ⦃apr : Apr⦄ (key value : Text) where
  find_last :
      (entries : List (Text × Text)) (k : Text)
      → find k (entries ++ (key, value) ∷ [])
        ≡ first (if same_text key k then some value else none) (find k entries)
  find_last [] k = sym (first-none _)
  find_last ((j, v) ∷ entries) k =
      ap (λ o. first o (if same_text j k then some v else none)) (find_last entries k)
      ∙ first_assoc _ (find k entries) _

  header_text_last :
      (entries : List (Text × Text))
      → header_text (entries ++ (key, value) ∷ [])
        ≡ header_text entries ++ (key ++ ((58 ∷ []) ++ (value ++ newline)))
  header_text_last [] = refl
  header_text_last ((j, v) ∷ entries) = simp (append_assoc, header_text_last entries)

module _ ⦃apr : Apr⦄ where
  -- The headers that stomp_write sends.
  abbrev pub sent_entries : apr.Hash → ℤ → List (Text × Text)
  sent_entries h n = apr.hash_entries h ++ (text "content-length", apr.itoa n) ∷ []

  -- The table has the headers of the frame and the length that was announced.
  abbrev pub TableOf : apr.Hash → ℤ → apr.Hash → Type 0
  TableOf h n table =
      (k : Text)
      → apr.hash_get table k
        ≡ (if same_text (text "content-length") k then some (apr.itoa n) else apr.hash_get h k)

  -- A frame with a table of headers and a body, whose lines a reader takes, and whose content-length
  -- is positive, the body reaches and apr_atoi64 reads back.
  pub record IsSendable (fuel : ℕ) (f : Frame apr) (n : ℤ) : Type 0 where
    pub table : apr.Hash
    pub bytes : Buffer
    pub its_headers : f.headers ≡ some table
    pub its_body : f.body ≡ some bytes
    pub announced : content_length f ≡ some n
    pub fits : to_size n ≤ length bytes
    pub some_bytes : 0 < to_size n
    pub read_back : apr.atoi64 (apr.itoa n) ≡ n
    pub head : IsHead fuel f.command (sent_entries table n)
    pub room : length (frame_text f n) < fuel

  -- The same command, headers and body, with the content-length among the headers.
  abbrev pub IsCopy : Frame apr → ℤ → Incoming apr → Type 0
  IsCopy f n r =
      (h : apr.Hash) × (b : Buffer) × (table : apr.Hash) × (f.headers ≡ some h)
      × (f.body ≡ some b)
      × TableOf h n table
      × (r
          ≡ frame (record {
            command = f.command;
            headers = some table;
            body = some (take (to_size n) b);
            body_length = to_size n;
          }))

  length_text_lem :
      (n : ℤ) → length_text n ≡ text "content-length" ++ ((58 ∷ []) ++ (apr.itoa n ++ newline))
  unfolding text
  length_text_lem n = refl

  frame_text_lem :
      (f : Frame apr) (h : apr.Hash) (n : ℤ) (rest : Text)
      → f.headers ≡ some h
      → frame_text f n ++ rest
        ≡ f.command
          ++ 10
            ∷ (header_text (sent_entries h n) ++ 10 ∷ (body_text f.body n ++ (frame_end ++ rest)))
  frame_text_lem f h n rest e = rw e (
      simp (
        append_assoc,
        header_text_last (text "content-length") (apr.itoa n) (apr.hash_entries h),
        length_text_lem n,
      ))

  pub frame_text_body :
      (f : Frame apr) (h : apr.Hash) (b : Buffer) (n : ℤ) (rest : Text)
      → f.headers ≡ some h
      → f.body ≡ some b
      → frame_text f n ++ rest
        ≡ f.command
          ++ 10
            ∷ (header_text (sent_entries h n) ++ 10 ∷ (take (to_size n) b ++ (frame_end ++ rest)))
  frame_text_body f h b n rest e e' =
      frame_text_lem f h n rest e
      ∙ ap
          (λ o.
            f.command
            ++ 10 ∷ (header_text (sent_entries h n) ++ 10 ∷ (body_text o n ++ (frame_end ++ rest))))
          e'

module _ ⦃apr : Apr⦄ (memory : HasMemory apr) (laws : HashLaws apr) where
  pub sent_entries-TableOf :
      (h : apr.Hash) (n : ℤ) → TableOf h n (set_all memory.empty (sent_entries h n))
  sent_entries-TableOf h n k =
      get-set_all laws memory.empty (sent_entries h n) k
      ∙ ap (λ o. first (find k (sent_entries h n)) o) (memory.get-empty k)
      ∙ first-none _
      ∙ find_last (text "content-length") (apr.itoa n) (apr.hash_entries h) k
      ∙ ap (λ o. first (if same_text (text "content-length") k then some (apr.itoa n) else none) o)
          (laws.find-entries h k)
      ∙ first_if (same_text (text "content-length") k) (apr.itoa n) (apr.hash_get h k)

module _ ⦃apr : Apr⦄ (wire : Wire apr) (fuel : ℕ) (pool : apr.Pool) where
  -- A frame that can be sent goes out whole where no send fails.
  pub sent-accepted :
      (accepting : Accepting apr) (s : apr.Socket) (c : Connection apr)
      → c.socket ≡ some s
      → (f : Frame apr) (n : ℤ) (st : State apr) → IsSendable fuel f n
      → (u : State apr) × (stomp_write fuel c f pool st ≡ done (0, u))
        × (wire.output s u.net ≡ wire.output s st.net ++ frame_text f n)
  sent-accepted accepting s c open_socket f n st a =
      let (u, runs, out, left) =
        stomp_write-accepted wire s accepting fuel c open_socket f pool n st a.announced
          (subst (λ o. BodyFits o n) (sym a.its_body) a.fits) a.room in
      (u, runs, out)

module _ ⦃apr : Apr⦄ (wire : Wire apr) (memory : HasMemory apr) (unsplit : Unsplit apr wire)
    (laws : HashLaws apr) (s : apr.Socket) (connection : Connection apr)
    (open_socket : connection.socket ≡ some s) (fuel : ℕ) (pool : apr.Pool) (garbage : ℕ) where
  -- The text of a frame has arrived.
  pub stomp_read-frame_text :
      (f : Frame apr) (n : ℤ) (rest : Text) (st : State apr)
      → IsSendable fuel f n
      → wire.input s st.net ≡ frame_text f n ++ rest
      → (u : State apr) × (r : Incoming apr) × (stomp_read fuel connection pool garbage st
          ≡ done (r, u))
        × IsCopy f n r
        × Reads wire s st rest u
  stomp_read-frame_text f n rest st a arrived =
      let measured = length-take_within (to_size n) a.bytes a.fits in
      let known = sent_entries-TableOf memory laws a.table n in
      let r =
        stomp_read_announced wire memory s connection open_socket fuel pool unsplit garbage
          f.command (take (to_size n) a.bytes) rest (apr.itoa n) (sent_entries a.table n) st a.head
          (known (text "content-length")
            ∙ rw (same_text_refl (text "content-length"), if◌then◌else◌))
          (ap to_size a.read_back ∙ sym measured)
          (length-nonempty (take (to_size n) a.bytes) (omega (arith, measured, a.some_bytes)))
          (arrived ∙ frame_text_body f a.table a.bytes n rest a.its_headers a.its_body) in
      (
        r.0,
        _,
        r.1,
        (
          a.table,
          a.bytes,
          set_all memory.empty (sent_entries a.table n),
          a.its_headers,
          a.its_body,
          known,
          ap
              (λ k. frame (record {
                command = f.command;
                headers = some (set_all memory.empty (sent_entries a.table n));
                body = some (take (to_size n) a.bytes);
                body_length = k;
              }))
              measured,
        ),
        r.2,
      )

  -- No send fails, there is memory, fuel for the text of a frame, a receive of one byte or more
  -- brings all that it asks for, and hash tables are finite maps. The frame has headers and a body,
  -- the reader takes its lines, and apr_atoi64 reads back its content-length, which is positive and
  -- which the body reaches. Then stomp_write succeeds. Where all that it has put on the wire has
  -- arrived on the other side, whatever follows it, stomp_read returns APR_SUCCESS with a frame
  -- that has the same command, every header of the frame sent, the content-length in the place of
  -- any that it had, and the bytes of the body that were announced, whatever they are. It reads all
  -- that was written and nothing else.
  pub stomp_read-stomp_write :
      (accepting : Accepting apr) (sender : apr.Socket) (c' : Connection apr)
      (reader : Text → State apr) (f : Frame apr) (n : ℤ) (rest : Text) (st : State apr)
      → c'.socket ≡ some sender
      → ((t : Text) → wire.input s (reader t).net ≡ t)
      → IsSendable fuel f n
      → (u : State apr) × (t : Text) × (stomp_write fuel c' f pool st ≡ done (0, u))
        × (wire.output sender u.net ≡ wire.output sender st.net ++ t)
        × ((v : State apr) × (r : Incoming apr) × (stomp_read fuel connection pool garbage
                (reader (t ++ rest))
              ≡ done (r, v))
            × IsCopy f n r
            × Reads wire s (reader (t ++ rest)) rest v)
  stomp_read-stomp_write accepting sender c' reader f n rest st opened arrives a =
      let (u, runs, out) = sent-accepted wire fuel pool accepting sender c' opened f n st a in
      (
        u,
        frame_text f n,
        runs,
        out,
        stomp_read-frame_text f n rest (reader (frame_text f n ++ rest)) a
            (arrives (frame_text f n ++ rest)),
      )
