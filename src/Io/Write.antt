-- ===== src/Io/Write.antt =====
-- stomp_write_buffer of stomp_io.c.

use libstomp.Prelude.{
  ℕ, zero, suc, [], ◌∷◌, ◌++◌, Buffer, text, ltb, length, take, true, false, drop, ◌==◌,
  if◌then◌else◌,
}
use libstomp.Exec.{◌>>=◌, ◌>>◌, pure, crash, stuck}
use libstomp.Platform.{Apr}
use libstomp.Machine.{M}
use libstomp.Io.Base.{Connection, io_status_set, send}

module _ ⦃apr : Apr⦄ where
  -- The loop, over the bytes that are left to send; each round sends some of them.
  unfoldable pub write_rest : ℕ → Connection apr → Buffer → M ℕ
  unfolding io_status_set
  write_rest zero connection bs = stuck
  write_rest (suc fuel) connection [] = pure 0
  write_rest (suc fuel) connection (b ∷ bs) = do
    (rc, sent) ← send connection (b ∷ bs)
    elim (rc == 0) [
      | true ↦ write_rest fuel connection (drop sent (b ∷ bs))
      | false ↦ do io_status_set (text "unable to write data: " ++ apr.strerror rc 80); pure rc
    ]

  -- Reading past the end of `data` is a fault.
  unfoldable pub stomp_write_buffer : ℕ → Connection apr → Buffer → ℕ → M ℕ
  unfolding write_rest
  stomp_write_buffer fuel connection bytes size =
      if ltb (length bytes) size then crash else write_rest fuel connection (take size bytes)
