-- ===== src/Message.antt =====
-- src/stomp_message.c: messages and their text.
pub mod Text
use libstomp.Prelude.{
  ℕ, ◌+◌, ◌-◌, ◌%◌, Bool, true, false, not, ◌||◌, Option, none, some, ◌++◌, Buffer, text, c_str,
  strlen, length, take, replicate, ltb, ◌==◌, size_mod,
}
use libstomp.Exec.{◌>>=◌, deref, pure, crash}
use libstomp.Platform.{Apr}
use libstomp.Status.{Status, failure, stomp_status_set}
use libstomp.Machine.{M, on_mem, update_mem}

pub record Message (apr : Apr) : Type 0 where
  pub size : ℕ
  pub body : Option Buffer
  pub pool : apr.Pool

-- sizeof (stomp_message_t)
abbrev pub message_size : ℕ
message_size = 24

module _ ⦃apr : Apr⦄ where
  -- The new message, or null, with what `*status` is afterwards. A null message is returned only to
  -- a caller with a status: without one, its first field is written.
  unfoldable pub stomp_message_create : Option Status → M (Option (Message apr) × Option Status)
  unfolding stomp_status_set
  stomp_message_create status = do
    allocated ← on_mem (apr.malloc message_size)
    elim allocated [
      | false ↦ do
        s ← deref status
        pure (
          none,
          some (
              stomp_status_set s failure
                (some (text "Unable to allocate memory for a new stomp message object"))),
        )
      | true ↦ do
        (rc, pool) ← on_mem (apr.pool_create none)
        elim (rc == 0) [
          | true ↦ pure (some (record { size = size_mod - 1; body = none; pool = pool }), status)
          | false ↦ do
            s ← deref status
            pure (
              none,
              some (
                  stomp_status_set s failure
                    (some (text "Unable to allocate memory for internal message pool"))),
            )
        ]
    ]

  -- free() and the null that is left behind have no other effect on the state.
  unfoldable pub stomp_message_destroy : Message apr → M (Unit {0})
  stomp_message_destroy message = update_mem (apr.pool_destroy message.pool)

  -- strncpy(…, data, len) reads past the end of `data`.
  unfoldable pub reads_past : Buffer → ℕ → Bool
  reads_past bytes len = elim (strlen (take len bytes)) [
    | none ↦ ltb (length bytes) len
    | some _ ↦ false
  ]

  -- The copy, in a body of `room` bytes.
  unfoldable pub format_body : Message apr → Buffer → ℕ → ℕ → M (Message apr)
  format_body message bytes len room = do
    allocated ← on_mem (apr.malloc room)
    elim (not allocated || (ltb room len || reads_past bytes len)) [
      | true ↦ crash
      | false ↦ do
        let copy = c_str (take len bytes)
        let body = copy ++ replicate (room - length copy) 0
        n ← deref (strlen body)
        pure (record message { size = n + 1; body = some body })
    ]

  unfoldable pub stomp_message_format : Message apr → Buffer → ℕ → M (Message apr)
  stomp_message_format message bytes len = format_body message bytes len ((len + 1) % size_mod)
