-- ===== src/Io/Line/Reads.antt =====
-- stomp_read_line returns the line that has arrived, whatever its length.
use libstomp.Prelude.{
  ℕ, zero, suc, ◌<◌, ◌≡◌, ◌≢◌, ap, ◌∙◌, inl, inr, some, [], ◌∷◌, ◌++◌, append_assoc, Text, Buffer,
  length, length-append, ne→==, Bool-cases, pos, to_int, to_int_small, int_limit, All, arith,
}
use mathlib.Core.Path.{subst}
use libstomp.Exec.{done, bind-done, ◌>>=◌}
use libstomp.Platform.{Apr, Wire, HasMemory}
use libstomp.Machine.{State, M}
use libstomp.Io.Base.{Connection, recv}
use libstomp.Io.Blocks.{
  Blocks, no_blocks, contents, copied, copied-put_byte, HasRoom, no_blocks-HasRoom, put_byte,
  is_full, next_block, contents-put_byte, contents-next_block, put_byte-HasRoom, next_block-HasRoom,
  data_block_list_size,
}
use libstomp.Io.Input.{
  Reads, Reads-trans, Reads-refl, Reads-mem, received, recv_arrived, received-Reads,
}
use libstomp.Io.Line.{Scan, scanned, line, with_room, line_loop, line_of, stomp_read_line}

module _ ⦃apr : Apr⦄ (wire : Wire apr) (s : apr.Socket) where
  -- A scan that ends with `bytes` in its blocks, the last of them the terminator.
  pub record Scans (m : M Scan) (bytes : Buffer) (rest : Text) (st : State apr) : Type 0 where
    pub blocks : Blocks
    pub final : State apr
    pub runs : m st ≡ done (scanned blocks, final)
    pub content : copied blocks ≡ bytes
    pub counted : blocks.bytes_read ≡ length bytes
    pub reads : Reads wire s st rest final

abbrev pub IsLineByte : ℕ → Type 0
IsLineByte b = (b ≢ 10) × (b ≢ 0)

module _ ⦃apr : Apr⦄ (wire : Wire apr) (s : apr.Socket) where
  -- The same scan, from the state that a computation has reached.
  pub Scans-step :
      (m k : M Scan) (bytes : Buffer) (before rest : Text) (st u : State apr)
      → m st ≡ k u
      → Reads wire s st before u
      → Scans wire s k bytes rest u
      → Scans wire s m bytes rest st
  Scans-step m k bytes before rest st u e r c = record {
    blocks = c.blocks;
    final = c.final;
    runs = e ∙ c.runs;
    content = c.content;
    counted = c.counted;
    reads = Reads-trans wire s r c.reads;
  }

  -- A byte that ends the scan.
  pub Scans-end :
      (m : M Scan) (b : ℕ) (blocks : Blocks) (rest : Text) (st u : State apr)
      → m st ≡ done (scanned (put_byte b blocks), u)
      → HasRoom blocks
      → Reads wire s st rest u
      → Scans wire s m (contents blocks ++ b ∷ []) rest st
  unfolding put_byte
  Scans-end m b blocks rest st u e h r = record {
    blocks = put_byte b blocks;
    final = u;
    runs = e;
    content = copied-put_byte b blocks h;
    counted = rw length-append (omega (arith, h.counted));
    reads = r;
  }

  module _ (memory : HasMemory apr) (tpool : apr.Pool) where
    -- A byte that is kept, before the scan goes on.
    pub with_room-Scans :
        (k : Blocks → M Scan) (b : ℕ) (blocks : Blocks) (after rest before : Text) (st : State apr)
        → HasRoom blocks
        → wire.input s st.net ≡ before
        → ((more : Blocks) (u : State apr)
            → HasRoom more
            → contents more ≡ contents blocks ++ b ∷ []
            → wire.input s u.net ≡ before
            → Scans wire s (k more) (contents more ++ after) rest u)
        → Scans wire s
            (with_room tpool (put_byte b blocks) k)
            (contents blocks ++ (b ∷ after))
            rest
            st
    unfolding with_room
    with_room-Scans k b blocks after rest before st h arrived go =
        elim (Bool-cases (is_full (put_byte b blocks))) [
          | inl full ↦
              let u = record st { mem = (apr.pcalloc tpool data_block_list_size st.mem).1 } in
              Scans-step _ (k (next_block (put_byte b blocks))) _ before rest st u
                (rw (full, with_room, memory.allocated)) (Reads-mem wire s st u.mem arrived)
                (regroup _ _ (contents-next_block b blocks) (
                  go _ u (next_block-HasRoom b blocks h full) (contents-next_block b blocks)
                    arrived))
          | inr room ↦
              Scans-step _ (k (put_byte b blocks)) _ before rest st st (rw (room, with_room))
                (Reads-refl wire s st arrived)
                (regroup _ _ (contents-put_byte b blocks)
                  (go _ st (put_byte-HasRoom b blocks h room) (contents-put_byte b blocks) arrived))
        ]
      where
        regroup :
            (m : M Scan) {u : State apr} (more : Buffer)
            → more ≡ contents blocks ++ b ∷ []
            → Scans wire s m (more ++ after) rest u
            → Scans wire s m (contents blocks ++ (b ∷ after)) rest u
        regroup m {u} more e c =
            subst (λ t. Scans wire s m t rest u)
              (ap (λ t. t ++ after) e ∙ append_assoc (contents blocks) (b ∷ []) after) c

    module _ (connection : Connection apr) (open_socket : connection.socket ≡ some s) where
      line_loop-Scans :
          (fuel : ℕ) (blocks : Blocks) (t rest : Text) (st : State apr)
          → length t < fuel
          → All IsLineByte t
          → HasRoom blocks
          → wire.input s st.net ≡ t ++ 10 ∷ rest
          → Scans wire s
              (line_loop connection fuel tpool blocks)
              (contents blocks ++ (t ++ 0 ∷ []))
              rest
              st
      unfolding line_loop
      line_loop-Scans zero blocks t rest st enough a h arrived = elim enough [ ]
      line_loop-Scans (suc fuel) blocks [] rest st enough a h arrived =
          Scans-end _ 0 blocks rest st (received wire s st)
            (bind-done (recv connection 1) _
              (recv_arrived wire s st 10 rest arrived connection open_socket))
            h (received-Reads wire s st 10 rest arrived)
      line_loop-Scans (suc fuel) blocks (b ∷ t) rest st enough (ne, a) h arrived =
          Scans-step _ (with_room tpool (put_byte b blocks) (line_loop connection fuel tpool)) _ _
            rest st (received wire s st)
            (bind-done (recv connection 1) _
                (recv_arrived wire s st b (t ++ 10 ∷ rest) arrived connection open_socket)
              ∙ rw (ne→== b 10 ne.0, ne→== b 0 ne.1))
            (received-Reads wire s st b (t ++ 10 ∷ rest) arrived)
            (with_room-Scans _ b blocks (t ++ 0 ∷ []) rest (t ++ 10 ∷ rest) (received wire s st) h
              (wire.input-recv s b (t ++ 10 ∷ rest) st.net arrived)
              (λ more u room e left. line_loop-Scans fuel more t rest u (omega arith) a room left))

      line-Scans :
          (fuel : ℕ) (t rest : Text) (st : State apr)
          → length t < fuel
          → All IsLineByte t
          → wire.input s st.net ≡ t ++ 10 ∷ rest
          → Scans wire s (line_loop connection fuel tpool no_blocks) (t ++ 0 ∷ []) rest st
      unfolding contents
      line-Scans fuel t rest st enough a arrived =
          line_loop-Scans fuel no_blocks t rest st enough a no_blocks-HasRoom arrived

module _ ⦃apr : Apr⦄ (wire : Wire apr) (memory : HasMemory apr) (s : apr.Socket)
    (connection : Connection apr) (open_socket : connection.socket ≡ some s) where
  -- The copy of a scan into the buffer that is returned.
  line_of-Reads :
      (pool tpool : apr.Pool) (t rest : Text) (st : State apr) (c : Blocks)
      → copied c ≡ t ++ 0 ∷ []
      → c.bytes_read ≡ length (t ++ 0 ∷ [])
      → length t < int_limit
      → wire.input s st.net ≡ rest
      → (u : State apr) × (line_of pool tpool (scanned c) st
          ≡ done (line (t ++ 0 ∷ []) (pos (length t)), u))
        × Reads wire s st rest u
  unfolding line_of
  line_of-Reads pool tpool t rest st c content counted small left =
      let u : State apr = record st {
        mem = apr.pool_destroy tpool (apr.pcalloc pool c.bytes_read st.mem).1;
      } in
      (
        u,
        rw (memory.allocated, content)
            (ap (λ n. done (line (t ++ 0 ∷ []) n, u))
              (ap to_int (omega (arith, counted, length-append t (0 ∷ [])))
                ∙ to_int_small (length t) small)),
        Reads-mem wire s st _ left,
      )

  pub opened :
      (fuel : ℕ) (pool : apr.Pool) (st : State apr)
      → let tpool = (apr.pool_create (some pool) st.mem).0.1 in
        stomp_read_line fuel connection pool st
        ≡ (line_loop connection fuel tpool no_blocks >>= line_of pool tpool) (record st {
          mem = (apr.pcalloc tpool data_block_list_size (apr.pool_create (some pool) st.mem).1).1;
        })
  unfolding stomp_read_line
  opened fuel pool st =
      let tpool = (apr.pool_create (some pool) st.mem).0.1 in
      ground (
        arith,
        memory.pool_created (some pool) st.mem,
        memory.allocated tpool data_block_list_size (apr.pool_create (some pool) st.mem).1,
      )

  -- stomp_read_line returns APR_SUCCESS with the bytes before the first newline that is to come, and
  -- with their number, however many they are and whatever blocks they fill. The newline is read too,
  -- a terminator stands in its place, nothing is sent and no error is set.
  pub stomp_read_line-Reads :
      (fuel : ℕ) (pool : apr.Pool) (t rest : Text) (st : State apr)
      → length t < fuel
      → length t < int_limit
      → All IsLineByte t
      → wire.input s st.net ≡ t ++ 10 ∷ rest
      → (u : State apr) × (stomp_read_line fuel connection pool st
          ≡ done (line (t ++ 0 ∷ []) (pos (length t)), u))
        × Reads wire s st rest u
  unfolding stomp_read_line
  stomp_read_line-Reads fuel pool t rest st enough small a arrived =
      let tpool = (apr.pool_create (some pool) st.mem).0.1 in
      let v : State apr = record st {
        mem = (apr.pcalloc tpool data_block_list_size (apr.pool_create (some pool) st.mem).1).1;
      } in
      let c =
        line-Scans wire s memory tpool connection open_socket fuel t rest v enough a arrived in
      let l =
        line_of-Reads pool tpool t rest c.final c.blocks c.content c.counted small
          c.reads.input_left in
      (
        l.0,
        opened fuel pool st ∙ bind-done (line_loop connection fuel tpool no_blocks) _ c.runs ∙ l.1,
        Reads-trans wire s (Reads-trans wire s (Reads-mem wire s st v.mem arrived) c.reads) l.2,
      )
