-- ===== src/Io/Body.antt =====
-- stomp_read_buffer of stomp_io.c: the body of a frame that announces no length, up to a terminator
-- that a newline follows.
pub mod Reads
pub mod Ends
use libstomp.Prelude.{
  ℕ, zero, suc, ◌+◌, Bool, true, false, Option, none, some, List, [], ◌∷◌, ◌++◌, Buffer, text, ◌==◌,
  if◌then◌else◌,
}
use libstomp.Exec.{done, fault, out_of_fuel, ◌>>=◌, ◌>>◌, deref, pure, stuck}
use libstomp.Platform.{Apr}
use libstomp.Machine.{State, M, on_mem, update_mem}
use libstomp.Io.Base.{Connection, io_status_set, set_error, recv}
use libstomp.Io.Blocks.{Blocks, no_blocks, data_block_list_size, put_byte, copied}
use libstomp.Io.Line.{Scan, scanned, failed, with_room}

-- What stomp_read_buffer returns: `*data`, whose length is `*body_len`; or a status alone.
pub data Body : Type 0 where
  body : Buffer → ℕ → Body
  no_body : ℕ → Body

module _ ⦃apr : Apr⦄ where
  -- err_exit: apr_pool_destroy(tpool); set_error(rc, …); return rc;
  abbrev err_exit : ℕ → apr.Pool → M Scan
  err_exit rc tpool = do
    update_mem (apr.pool_destroy tpool)
    set_error rc (text "unable to read buffer data")
    pure (failed rc)

  -- The byte behind the terminator. The status of its receive is not looked at, and `endline` is
  -- not initialised: where no byte comes, `garbage` is what it holds.
  unfoldable pub read_endline : Connection apr → ℕ → Blocks → M Scan
  unfolding io_status_set
  read_endline connection garbage blocks = do
    (_, received) ← recv connection 1
    let endline : ℕ = elim received [ [] ↦ garbage | b ∷ _ ↦ b ]
    elim (endline == 10) [
      | true ↦ pure (scanned blocks)
      | false ↦ do io_status_set (text "protocol error"); pure (failed apr.egeneral)
    ]

  -- The `while (1)` of stomp_read_buffer.
  unfoldable pub body_loop : Connection apr → ℕ → ℕ → apr.Pool → Blocks → M Scan
  unfolding set_error with_room read_endline
  body_loop connection garbage zero tpool blocks = stuck
  body_loop connection garbage (suc fuel) tpool blocks = do
    (rc, received) ← recv connection 1
    elim (rc == 0) [
      | false ↦ err_exit rc tpool
      | true ↦ elim received [
        | b ∷ [] ↦ elim (b == 0) [
          | true ↦ read_endline connection garbage (put_byte 0 blocks)
          | false ↦ with_room tpool (put_byte b blocks) (body_loop connection garbage fuel tpool)
        ]
        | _ ↦ body_loop connection garbage fuel tpool blocks
      ]
    ]

  -- The copy loop leaves `head` null. The debug output behind it is of `head->data`, an array at the
  -- start of its block, and so of a null pointer: it goes to stdout, and changes nothing else.
  unfoldable pub body_of : apr.Pool → apr.Pool → Scan → M Body
  unfolding io_status_set copied
  body_of pool tpool (failed rc) = pure (no_body rc)
  body_of pool tpool (scanned blocks) = do
    p ← on_mem (apr.pcalloc pool blocks.bytes_read)
    elim p [
      | false ↦ do
        update_mem (apr.pool_destroy tpool)
        io_status_set (text "not enough memory")
        pure (no_body apr.enomem)
      | true ↦ do update_mem (apr.pool_destroy tpool); pure (body (copied blocks) blocks.bytes_read)
    ]

  -- debug is set where apr_env_get finds the variable.
  unfoldable pub stomp_debug : apr.Pool → M Bool
  stomp_debug pool = do rc ← on_mem (apr.env_get (text "STOMP_DEBUG")); pure (rc == 0)

  unfoldable pub stomp_read_buffer : ℕ → Connection apr → ℕ → apr.Pool → M Body
  unfolding body_loop body_of stomp_debug io_status_set
  stomp_read_buffer fuel connection garbage pool = do
    _ ← stomp_debug pool
    (rc, tpool) ← on_mem (apr.pool_create (some pool))
    elim (rc == 0) [
      | false ↦ do io_status_set (text "unable to create a new pool"); pure (no_body rc)
      | true ↦ do
        head ← on_mem (apr.pcalloc tpool data_block_list_size)
        elim head [
          | false ↦ do io_status_set (text "not enough memory"); pure (no_body apr.enomem)
          | true ↦ do
            scan ← body_loop connection garbage fuel tpool no_blocks
            body_of pool tpool scan
        ]
    ]
