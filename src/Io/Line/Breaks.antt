-- ===== src/Io/Line/Breaks.antt =====
-- How the loops over the socket fail: at a byte that may not come, and at the end of the input.
use libstomp.Prelude.{
  ℕ, zero, suc, ◌<◌, ◌≡◌, ◌∙◌, inl, inr, refl, some, [], ◌∷◌, ◌++◌, Text, length, ne→==, Bool-cases,
  All, arith,
}
use libstomp.Exec.{done, bind-done}
use libstomp.Platform.{Apr, Wire, HasMemory}
use libstomp.Machine.{State, M}
use libstomp.Io.Base.{Connection, recv}
use libstomp.Io.Blocks.{Blocks, put_byte, is_full, next_block, data_block_list_size}
use libstomp.Io.Input.{received, recv_arrived}
use libstomp.Io.Line.{Scan, failed, with_room, line_loop}
use libstomp.Io.Line.Reads.{IsLineByte}

module _ ⦃apr : Apr⦄ (wire : Wire apr) (s : apr.Socket) where
  -- A scan that ends with an error, with what is left of the input and what is kept.
  pub record Breaks (m : M Scan) (P : ℕ → State apr → Type 0) (st : State apr) : Type 0 where
    pub status : ℕ
    pub final : State apr
    pub runs : m st ≡ done (failed status, final)
    pub broken : P status final

  pub Breaks-step :
      (m k : M Scan) (P : ℕ → State apr → Type 0) (st u : State apr)
      → m st ≡ k u
      → Breaks k P u
      → Breaks m P st
  Breaks-step m k P st u e c = record {
    status = c.status;
    final = c.final;
    runs = e ∙ c.runs;
    broken = c.broken;
  }

  module _ (memory : HasMemory apr) (tpool : apr.Pool) where
    pub with_room-Breaks :
        (k : Blocks → M Scan) (blocks : Blocks) (P : ℕ → State apr → Type 0) (st : State apr)
        → ((more : Blocks) (mem : apr.Mem) → Breaks (k more) P (record st { mem = mem }))
        → Breaks (with_room tpool blocks k) P st
    unfolding with_room
    with_room-Breaks k blocks P st go = elim (Bool-cases (is_full blocks)) [
      | inl full ↦
          Breaks-step _ (k (next_block blocks)) P st
            (record st { mem = (apr.pcalloc tpool data_block_list_size st.mem).1 })
            (rw (full, with_room, memory.allocated)) (go _ _)
      | inr room ↦ Breaks-step _ (k blocks) P st st (rw (room, with_room)) (go blocks st.mem)
    ]

    module _ (connection : Connection apr) (open_socket : connection.socket ≡ some s) where
      -- Bytes of a line come first, and then the loop breaks.
      pub line_loop-Breaks :
          (fuel : ℕ) (blocks : Blocks) (t tail : Text) (P : ℕ → State apr → Type 0) (st : State apr)
          → length t < fuel
          → All IsLineByte t
          → wire.input s st.net ≡ t ++ tail
          → ((rounds : ℕ) (more : Blocks) (u : State apr)
              → wire.input s u.net ≡ tail
              → wire.output s u.net ≡ wire.output s st.net
              → u.engine_error ≡ st.engine_error
              → u.io_error ≡ st.io_error
              → Breaks (line_loop connection (suc rounds) tpool more) P u)
          → Breaks (line_loop connection fuel tpool blocks) P st
      unfolding line_loop
      line_loop-Breaks zero blocks t tail P st enough a arrived stop = elim enough [ ]
      line_loop-Breaks (suc fuel) blocks [] tail P st enough a arrived stop =
          stop fuel blocks st arrived refl refl refl
      line_loop-Breaks (suc fuel) blocks (b ∷ t) tail P st enough (ne, a) arrived stop =
          Breaks-step _ (with_room tpool (put_byte b blocks) (line_loop connection fuel tpool)) P st
            (received wire s st)
            (bind-done (recv connection 1) _
                (recv_arrived wire s st b (t ++ tail) arrived connection open_socket)
              ∙ rw (ne→== b 10 ne.0, ne→== b 0 ne.1))
            (with_room-Breaks _ (put_byte b blocks) P (received wire s st) λ more mem.
              line_loop-Breaks fuel more t tail P
                (record st { net = (apr.socket_recv s 1 st.net).1; mem = mem }) (omega arith) a
                (wire.input-recv s b (t ++ tail) st.net arrived)
                (λ rounds more' u left out engine io.
                  stop rounds more' u left (out ∙ wire.output-recv s 1 st.net) engine io))
