-- ===== src/Messenger/Exchange/Written.antt =====
-- A frame that stomp_write has sent is taken by stomp_receive of the other side.
use libstomp.Prelude.{
  length-nonempty, ℕ, ◌+◌, ◌<◌, ◌≡◌, refl, sym, ◌∙◌, ap, Bool, true, false, Option, some, ◌++◌,
  Text, Buffer, text, take, length, length-take_within, c_str, same_text, same_text_refl, to_size,
  ℤ, has_prefix, if◌then◌else◌, size_mod, arith,
}
use mathlib.Core.Path.{subst}
use libstomp.Exec.{done}
use libstomp.Platform.{Apr, Wire, HasMemory, Unsplit, Accepting, HashLaws, first}
use libstomp.Status.{success, failure}
use libstomp.Machine.{State}
use libstomp.Io.Base.{Connection, Frame}
use libstomp.Io.Input.{Reads}
use libstomp.Io.Frame.{stomp_write}
use libstomp.Io.Frame.Writes.{frame_text}
use libstomp.Io.Read.Table.{set_all}
use libstomp.Io.Read.Written.{
  IsSendable, sent-accepted, sent_entries, sent_entries-TableOf, frame_text_body, TableOf,
}
use libstomp.Properties.{ExchangeProperties, stomp_exchange_get}
use libstomp.Message.{Message}
use libstomp.Message.Text.{Terminated}
use libstomp.Messenger.Base.{Messenger}
use libstomp.Messenger.Exchange.{stomp_receive}
use libstomp.Messenger.Exchange.Receive.{stomp_receive_announced}

first_over :
    (b : Bool) (t : Text) (o o' : Option Text)
    → first (if b then some t else o) o' ≡ (if b then some t else first o o')
first_over true t o o' = refl
first_over false t o o' = refl

module _ ⦃apr : Apr⦄ where
  -- What a name stands for once a frame has been laid over the properties.
  abbrev pub taken_value : apr.Hash → ℤ → apr.Hash → Text → Option Text
  taken_value h n table k =
      if same_text (text "content-length") k
      then some (apr.itoa n)
      else first (apr.hash_get h k) (apr.hash_get table k)

  stomp_exchange_get-overlay :
      (laws : HashLaws apr) (h table received : apr.Hash) (n : ℤ) (u : State apr)
      → TableOf h n received
      → (k : Text)
      → stomp_exchange_get (record { hash = some (apr.hash_overlay received table) }) k u
        ≡ done (taken_value h n table k, u)
  unfolding stomp_exchange_get
  stomp_exchange_get-overlay laws h table received n u known k =
      ap (λ o. done (o, u))
        (laws.get-overlay received table k
          ∙ ap (λ o. first o (apr.hash_get table k)) (known k)
          ∙ first_over (same_text (text "content-length") k) (apr.itoa n) (apr.hash_get h k)
              (apr.hash_get table k))

module _ ⦃apr : Apr⦄ (wire : Wire apr) (s : apr.Socket) (fuel : ℕ) (garbage : ℕ) (m : Messenger apr)
    (table : apr.Hash) where
  -- stomp_receive takes the frame with the headers `h`, the bytes `b` and the content-length `n`.
  abbrev pub Takes : Message apr → Frame apr → apr.Hash → Buffer → ℤ → State apr → Text → Type 0
  Takes message f h b n st rest =
      (u : State apr) × (properties : ExchangeProperties apr) × (body : Buffer) × (stomp_receive
          fuel garbage m message st
        ≡ done (
          (
            if has_prefix f.command (text "MESSAGE") then success else failure,
            record m { exchange_properties = some properties },
            record message { size = length (c_str b) + 1; body = some body },
          ),
          u,
        ))
      × Terminated (c_str b) (to_size n + 1) body
      × ((k : Text) → stomp_exchange_get properties k u ≡ done (taken_value h n table k, u))
      × Reads wire s st rest u

module _ ⦃apr : Apr⦄ (wire : Wire apr) (memory : HasMemory apr) (unsplit : Unsplit apr wire)
    (laws : HashLaws apr) (s : apr.Socket) (fuel : ℕ) (garbage : ℕ) (m : Messenger apr)
    (c : Connection apr) (opened : m.connection ≡ some c) (open_socket : c.socket ≡ some s)
    (properties : ExchangeProperties apr) (table : apr.Hash)
    (exchange : m.exchange_properties ≡ some properties) (made : properties.hash ≡ some table) where
  stomp_receive-frame_text :
      (message : Message apr) (f : Frame apr) (n : ℤ) (rest : Text) (st : State apr)
      → (a : IsSendable fuel f n) → to_size n + 1 < size_mod
      → wire.input s st.net ≡ frame_text f n ++ rest
      → Takes wire s fuel garbage m table message f a.table (take (to_size n) a.bytes) n st rest
  stomp_receive-frame_text message f n rest st a small arrived =
      let b = take (to_size n) a.bytes in
      let measured = length-take_within (to_size n) a.bytes a.fits in
      let known = sent_entries-TableOf memory laws a.table n in
      let received = set_all memory.empty (sent_entries a.table n) in
      let r =
        stomp_receive_announced wire memory unsplit s fuel garbage m c opened open_socket properties
          table exchange made message f.command b rest (apr.itoa n) (sent_entries a.table n) st
          a.head
          (known (text "content-length")
            ∙ rw (same_text_refl (text "content-length"), if◌then◌else◌))
          (ap to_size a.read_back ∙ sym measured)
          (length-nonempty b (omega (arith, measured, a.some_bytes))) (omega (arith, measured))
          (arrived ∙ frame_text_body f a.table a.bytes n rest a.its_headers a.its_body) in
      (
        r.0,
        record { hash = some (apr.hash_overlay received table) },
        r.1,
        r.2,
        subst (λ k. Terminated (c_str b) (k + 1) r.1) measured r.3,
        stomp_exchange_get-overlay laws a.table table received n r.0 known,
        r.4,
      )

  -- No send of the other side fails, there is memory, fuel for the text of a frame, a receive of
  -- one byte or more brings all that it asks for, and hash tables are finite maps. The frame has
  -- headers and a body, the reader takes its lines, and apr_atoi64 reads back its content-length,
  -- which is positive, can be raised by one, and which the body reaches. Then stomp_write succeeds.
  -- Where all that it has put on the wire has arrived, whatever follows it, stomp_receive of a
  -- messenger with a connection and a table of properties ends. It returns STOMP_SUCCESS for a
  -- command that starts with MESSAGE and STOMP_FAILURE for any other, with the status of the
  -- messenger as it was. The message holds the announced bytes of the body up to their first
  -- terminator. stomp_exchange_get gives the content-length of the frame, for any other name the
  -- header of the frame, and what the exchange had before for a name that the frame does not have.
  -- All that was written is read and nothing else.
  pub stomp_receive-stomp_write :
      (accepting : Accepting apr) (sender : apr.Socket) (c' : Connection apr) (pool : apr.Pool)
      (reader : Text → State apr) (message : Message apr) (f : Frame apr) (n : ℤ) (rest : Text)
      (st : State apr)
      → c'.socket ≡ some sender
      → ((t : Text) → wire.input s (reader t).net ≡ t)
      → (a : IsSendable fuel f n) → to_size n + 1 < size_mod
      → (u : State apr) × (t : Text) × (stomp_write fuel c' f pool st ≡ done (0, u))
        × (wire.output sender u.net ≡ wire.output sender st.net ++ t)
        × Takes wire s fuel garbage m table message f a.table
            (take (to_size n) a.bytes)
            n
            (reader (t ++ rest))
            rest
  stomp_receive-stomp_write accepting sender c' pool reader message f n rest st sending arrives a
        small =
      let (u, runs, out) = sent-accepted wire fuel pool accepting sender c' sending f n st a in
      (
        u,
        frame_text f n,
        runs,
        out,
        stomp_receive-frame_text message f n rest (reader (frame_text f n ++ rest)) a small
            (arrives (frame_text f n ++ rest)),
      )
