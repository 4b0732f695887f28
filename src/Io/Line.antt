-- ===== src/Io/Line.antt =====
-- stomp_read_line of stomp_io.c: the bytes up to a newline, received one by one.
pub mod Reads
pub mod Breaks
pub mod Next
pub mod Total
use libstomp.Prelude.{
  ℕ, zero, suc, ◌+◌, ◌-◌, Bool, true, false, Option, none, some, List, [], ◌∷◌, ◌++◌, Buffer, text,
  length, leb, ◌==◌, if◌then◌else◌, ℤ, to_int,
}
use libstomp.Exec.{done, fault, out_of_fuel, ◌>>=◌, ◌>>◌, deref, pure, stuck}
use libstomp.Platform.{Apr}
use libstomp.Machine.{State, M, on_mem, update_mem}
use libstomp.Io.Base.{Connection, io_status_set, set_error, recv}
use libstomp.Io.Blocks.{
  Blocks, no_blocks, data_block_list_size, put_byte, is_full, next_block, copied,
}

-- What a loop over the socket has when it ends: the blocks, or the error that it returns.
pub data Scan : Type 0 where
  scanned : Blocks → Scan
  failed : ℕ → Scan

-- What stomp_read_line returns: its status, with `*data` and `*length` where it sets them.
pub data Line : Type 0 where
  line : Buffer → ℤ → Line
  no_line : ℕ → Line

module _ ⦃apr : Apr⦄ where
  -- stomp_status_set(&error, …); apr_pool_destroy(tpool); return rc;
  abbrev pub give_up : ℕ → M (Unit {0}) → apr.Pool → M Scan
  give_up rc report tpool = do report; update_mem (apr.pool_destroy tpool); pure (failed rc)

  -- The block for the next byte, which is a new one where the last is full, and what follows.
  unfoldable pub with_room : apr.Pool → Blocks → (Blocks → M Scan) → M Scan
  unfolding io_status_set
  with_room tpool blocks continue = elim (is_full blocks) [
    | false ↦ continue blocks
    | true ↦ do
      next ← on_mem (apr.pcalloc tpool data_block_list_size)
      elim next [
        | true ↦ continue (next_block blocks)
        | false ↦ give_up apr.enomem (io_status_set (text "not enough memory")) tpool
      ]
  ]

  -- The `while (1)` of stomp_read_line. A receive that brings no byte is repeated.
  unfoldable pub line_loop : Connection apr → ℕ → apr.Pool → Blocks → M Scan
  unfolding set_error io_status_set with_room
  line_loop connection zero tpool blocks = stuck
  line_loop connection (suc fuel) tpool blocks = do
    (rc, received) ← recv connection 1
    elim (rc == 0) [
      | false ↦ give_up rc (set_error rc (text "unable to read data from the socket")) tpool
      | true ↦ elim received [
        | b ∷ [] ↦ elim (b == 10) [
          | true ↦ pure (scanned (put_byte 0 blocks))
          | false ↦ elim (b == 0) [
            | true ↦
                give_up apr.egeneral
                  (io_status_set (text "protocol error (end-of-string before end-of-line)")) tpool
            | false ↦ with_room tpool (put_byte b blocks) (line_loop connection fuel tpool)
          ]
        ]
        | _ ↦ line_loop connection fuel tpool blocks
      ]
    ]

  unfoldable pub line_of : apr.Pool → apr.Pool → Scan → M Line
  unfolding io_status_set copied
  line_of pool tpool (failed rc) = pure (no_line rc)
  line_of pool tpool (scanned blocks) = do
    p ← on_mem (apr.pcalloc pool blocks.bytes_read)
    update_mem (apr.pool_destroy tpool)
    elim p [
      | false ↦ do io_status_set (text "not enough memory"); pure (no_line apr.enomem)
      | true ↦ pure (line (copied blocks) (to_int (blocks.bytes_read - 1)))
    ]

  -- Where the first block cannot be had the temporary pool is left to its parent.
  unfoldable pub stomp_read_line : ℕ → Connection apr → apr.Pool → M Line
  unfolding line_loop line_of set_error io_status_set
  stomp_read_line fuel connection pool = do
    (rc, tpool) ← on_mem (apr.pool_create (some pool))
    elim (rc == 0) [
      | false ↦ do set_error rc (text "unable to read line"); pure (no_line rc)
      | true ↦ do
        head ← on_mem (apr.pcalloc tpool data_block_list_size)
        elim head [
          | false ↦ do io_status_set (text "not enough memory"); pure (no_line apr.enomem)
          | true ↦ do scan ← line_loop connection fuel tpool no_blocks; line_of pool tpool scan
        ]
    ]
