-- ===== src/Message/Text.antt =====
-- The text that stomp_message_format leaves in a message.
use libstomp.Prelude.{
  ℕ, zero, suc, ◌+◌, ◌-◌, ◌≤◌, ◌<◌, ◌≡◌, ◌∙◌, ap, false, some, ◌++◌, Buffer, Text, IsText, c_str,
  strlen, length, length-append, length-replicate, length-take, length-c_str, c_str-IsText,
  c_str-terminated, strlen-terminated, take, replicate, ltb, size_mod, arith, ◌%◌,
}
use mathlib.Core.Path.{subst}
use libstomp.Exec.{done}
use libstomp.Platform.{Apr, HasMemory}
use libstomp.Machine.{State}
use libstomp.Message.{Message, reads_past, format_body, stomp_message_format}

-- A string in an object that is longer.
pub record Terminated (t : Text) (room : ℕ) (b : Buffer) : Type 0 where
  pub printed_text : c_str b ≡ t
  pub measured : strlen b ≡ some (length t)
  pub allocated : length b ≡ room

padded-Terminated :
    (t : Text) (n : ℕ) → IsText t → 0 < n → Terminated t (length t + n) (t ++ replicate n 0)
padded-Terminated t zero h fits = elim fits [ ]
padded-Terminated t (suc k) h fits = record {
  printed_text = c_str-terminated t (replicate k 0) h;
  measured = strlen-terminated t (replicate k 0) h;
  allocated = omega (arith, length-append t (replicate (suc k) 0), length-replicate {A = ℕ} k 0);
}

-- The first `len` bytes, up to a terminator.
abbrev pub copy : Buffer → ℕ → Text
copy bytes len = c_str (take len bytes)

module _ ⦃apr : Apr⦄ where
  reads_past-false : (bytes : Buffer) (len : ℕ) → len ≤ length bytes → reads_past bytes len ≡ false
  unfolding reads_past
  reads_past-false bytes len fits = ground arith

module _ ⦃apr : Apr⦄ (memory : HasMemory apr) (message : Message apr) (bytes : Buffer) (len : ℕ)
    (st : State apr) where
  pub format_body_lem :
      (room : ℕ)
      → ltb room len ≡ false
      → len ≤ length bytes
      → strlen (copy bytes len ++ replicate (room - length (copy bytes len)) 0)
        ≡ some (length (copy bytes len))
      → format_body message bytes len room st
        ≡ done (
          record message {
            size = length (copy bytes len) + 1;
            body = some (copy bytes len ++ replicate (room - length (copy bytes len)) 0);
          },
          record st { mem = (apr.malloc room st.mem).1 },
        )
  unfolding format_body
  format_body_lem room holds fits measured =
      ground (arith, memory.malloced room st.mem, holds, reads_past-false bytes len fits, measured)

  -- For `len` bytes that the object has, a `len` that can be raised, and memory:
  -- stomp_message_format ends. The new body has `len + 1` bytes and holds the first `len` bytes of
  -- the object, up to a terminator, with a terminator behind them; the size of the message is one
  -- more than the strlen of the body, and its pool stays.
  pub stomp_message_format_lem :
      len ≤ length bytes
      → len + 1 < size_mod
      → (b : Buffer) × (stomp_message_format message bytes len st
          ≡ done (
            record message { size = length (copy bytes len) + 1; body = some b },
            record st { mem = (apr.malloc (len + 1) st.mem).1 },
          ))
        × Terminated (copy bytes len) (len + 1) b
  unfolding stomp_message_format
  stomp_message_format_lem fits small =
      let short : length (copy bytes len) < len + 1 =
        omega (arith, length-c_str (take len bytes), length-take len bytes) in
      let r : Terminated (copy bytes len) (len + 1)
          (copy bytes len ++ replicate (len + 1 - length (copy bytes len)) 0) =
        subst
          (λ n.
            Terminated (copy bytes len) n
              (copy bytes len ++ replicate (len + 1 - length (copy bytes len)) 0))
          (omega arith)
          (padded-Terminated (copy bytes len) (len + 1 - length (copy bytes len))
            (c_str-IsText (take len bytes)) (omega arith)) in
      let wraps : (len + 1) % size_mod ≡ len + 1 = omega arith in
      (
        copy bytes len ++ replicate (len + 1 - length (copy bytes len)) 0,
        ap (λ room. format_body message bytes len room st) wraps
            ∙ format_body_lem (len + 1) (ground arith) fits r.measured,
        r,
      )
