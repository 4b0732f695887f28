-- ===== src/Io/Line/Total.antt =====
-- stomp_read_line on every input.
use libstomp.Prelude.{
  ℕ, suc, ◌<◌, ◌≤◌, ◌≡◌, ◌≢◌, ap, ◌∙◌, sym, refl, some, [], ◌∷◌, ◌++◌, append-nil, Text, text,
  length, length-append, ne→==, pos, int_limit, All, arith,
}
use mathlib.Core.Path.{subst}
use libstomp.Exec.{bind-done, Returns}
use libstomp.Platform.{Apr, Wire, HasMemory, Finished}
use libstomp.Machine.{State, M}
use libstomp.Status.{failure, stomp_status_set}
use libstomp.Io.Base.{Connection, recv, recv_lem, error_text, io_status_set, set_error}
use libstomp.Io.Blocks.{Blocks, no_blocks, data_block_list_size}
use libstomp.Io.Input.{Reads, recv_arrived}
use libstomp.Io.Line.{Line, line, no_line, Scan, line_loop, line_of, stomp_read_line}
use libstomp.Io.Line.Reads.{IsLineByte, opened, stomp_read_line-Reads}
use libstomp.Io.Line.Breaks.{Breaks, line_loop-Breaks}
use libstomp.Io.Line.Next.{
  Next, complete, broken, unfinished, next_line, Ahead, newline_ahead, terminator_ahead,
  nothing_ahead, next_line-Ahead,
}

module _ ⦃apr : Apr⦄ (wire : Wire apr) (s : apr.Socket) where
  -- From `st` to `st'` the input has become `rest`, nothing is sent, and the io has the message.
  pub record Reports (st : State apr) (rest message : Text) (st' : State apr) : Type 0 where
    pub input_left : wire.input s st'.net ≡ rest
    pub output_kept : wire.output s st'.net ≡ wire.output s st.net
    pub io_reported : st'.io_error ≡ stomp_status_set st.io_error failure (some message)
    pub engine_kept : st'.engine_error ≡ st.engine_error

  -- What stomp_read_line returns and leaves behind, by what comes next.
  abbrev pub LineOf : State apr → Next → Line × State apr → Type 0
  LineOf st (complete t rest) (l, u) =
      (l ≡ line (t ++ 0 ∷ []) (pos (length t))) × Reads wire s st rest u
  LineOf st (broken rest) (l, u) =
      (l ≡ no_line apr.egeneral)
      × Reports st rest (text "protocol error (end-of-string before end-of-line)") u
  LineOf st unfinished (l, u) =
      (rc : ℕ) × (rc ≢ 0)
      × (l ≡ no_line rc)
      × Reports st [] (error_text rc (text "unable to read data from the socket")) u

module _ ⦃apr : Apr⦄ (wire : Wire apr) (s : apr.Socket) (connection : Connection apr)
    (open_socket : connection.socket ≡ some s) (tpool : apr.Pool) (rounds : ℕ) (more : Blocks)
    (st u : State apr) (out : wire.output s u.net ≡ wire.output s st.net)
    (engine : u.engine_error ≡ st.engine_error) (io : u.io_error ≡ st.io_error) where
  at_terminator :
      (rest : Text)
      → wire.input s u.net ≡ 0 ∷ rest
      → Breaks wire s
          (line_loop connection (suc rounds) tpool more)
          (λ rc v.
            (rc ≡ apr.egeneral)
            × Reports wire s st rest (text "protocol error (end-of-string before end-of-line)") v)
          u
  unfolding line_loop io_status_set
  at_terminator rest left = record {
    status = apr.egeneral;
    final = record u {
      net = (apr.socket_recv s 1 u.net).1;
      mem = apr.pool_destroy tpool u.mem;
      io_error =
          stomp_status_set u.io_error failure
            (some (text "protocol error (end-of-string before end-of-line)"));
    };
    runs =
        bind-done (recv connection 1) _ (recv_arrived wire s u 0 rest left connection open_socket);
    broken = (
      refl,
      record {
        input_left = wire.input-recv s 0 rest u.net left;
        output_kept = wire.output-recv s 1 u.net ∙ out;
        io_reported =
            ap
              (λ e.
                stomp_status_set e failure
                  (some (text "protocol error (end-of-string before end-of-line)")))
              io;
        engine_kept = engine;
      },
    );
  }

  at_end :
      Finished apr wire
      → wire.input s u.net ≡ []
      → Breaks wire s
          (line_loop connection (suc rounds) tpool more)
          (λ rc v.
            (rc ≢ 0)
            × Reports wire s st [] (error_text rc (text "unable to read data from the socket")) v)
          u
  unfolding line_loop set_error io_status_set
  at_end finished left =
      let rc = (apr.socket_recv s 1 u.net).0.0 in
      let message = error_text rc (text "unable to read data from the socket") in
      record {
        status = rc;
        final = record u {
          net = (apr.socket_recv s 1 u.net).1;
          mem = apr.pool_destroy tpool u.mem;
          io_error = stomp_status_set u.io_error failure (some message);
        };
        runs =
            bind-done (recv connection 1) _ (recv_lem connection open_socket u 1)
            ∙ rw (ne→== rc 0 (finished.recv_end s u.net left));
        broken = (
          finished.recv_end s u.net left,
          record {
            input_left = finished.input-recv_end s u.net left;
            output_kept = wire.output-recv s 1 u.net ∙ out;
            io_reported = ap (λ e. stomp_status_set e failure (some message)) io;
            engine_kept = engine;
          },
        );
      }

module _ ⦃apr : Apr⦄ (wire : Wire apr) (memory : HasMemory apr) (finished : Finished apr wire)
    (s : apr.Socket) (connection : Connection apr) (open_socket : connection.socket ≡ some s)
    (fuel : ℕ) (pool : apr.Pool) (st : State apr) where
  abbrev start : State apr
  start = record st {
    mem =
        (apr.pcalloc (apr.pool_create (some pool) st.mem).0.1 data_block_list_size
          (apr.pool_create (some pool) st.mem).1).1;
  }

  abbrev loop : M Scan
  loop = line_loop connection fuel (apr.pool_create (some pool) st.mem).0.1 no_blocks

  Breaks-LineOf :
      (P : ℕ → State apr → Type 0) (n : Next)
      → ((rc : ℕ) (u : State apr) → P rc u → LineOf wire s st n (no_line rc, u))
      → Breaks wire s loop P start
      → Returns (LineOf wire s st n) (stomp_read_line fuel connection pool st)
  unfolding line_of
  Breaks-LineOf P n meets b =
      subst (Returns (LineOf wire s st n))
        (sym (opened wire memory s connection open_socket fuel pool st ∙ bind-done loop _ b.runs))
        (meets b.status b.final b.broken)

  ended :
      (t : Text)
      → length t < fuel
      → All IsLineByte t
      → wire.input s st.net ≡ t
      → Returns (LineOf wire s st unfinished) (stomp_read_line fuel connection pool st)
  ended t enough a arrived =
      Breaks-LineOf
        (λ rc u.
          (rc ≢ 0)
          × Reports wire s st [] (error_text rc (text "unable to read data from the socket")) u)
        unfinished (λ rc u (ne, r). (rc, ne, refl, r))
        (line_loop-Breaks wire s memory _ connection open_socket fuel no_blocks t [] _ start enough
          a (arrived ∙ sym (append-nil t))
          λ rounds more u left out engine io.
            at_end wire s connection open_socket _ rounds more st u out engine io finished left)

  stopped :
      (t rest : Text)
      → length t < fuel
      → All IsLineByte t
      → wire.input s st.net ≡ t ++ 0 ∷ rest
      → Returns (LineOf wire s st (broken rest)) (stomp_read_line fuel connection pool st)
  stopped t rest enough a arrived =
      Breaks-LineOf
        (λ rc u.
          (rc ≡ apr.egeneral)
          × Reports wire s st rest (text "protocol error (end-of-string before end-of-line)") u)
        (broken rest) (λ rc u (e, r). (ap no_line e, r))
        (line_loop-Breaks wire s memory _ connection open_socket fuel no_blocks t (0 ∷ rest) _ start
          enough a arrived
          λ rounds more u left out engine io.
            at_terminator wire s connection open_socket _ rounds more st u out engine io rest left)

  by_Ahead :
      (input : Text) {n : Next}
      → Ahead input n
      → length input < fuel
      → length input < int_limit
      → wire.input s st.net ≡ input
      → Returns (LineOf wire s st n) (stomp_read_line fuel connection pool st)
  by_Ahead input (newline_ahead t rest a e) enough small arrived =
      let shorter : length t ≤ length input =
        omega (arith, ap length e, length-append t (10 ∷ rest)) in
      let r =
        stomp_read_line-Reads wire memory s connection open_socket fuel pool t rest st (omega arith)
          (omega arith) a (arrived ∙ e) in
      subst (Returns (LineOf wire s st (complete t rest))) (sym r.1) (refl, r.2)
  by_Ahead input (terminator_ahead t rest a e) enough small arrived =
      stopped t rest (omega (arith, ap length e, length-append t (0 ∷ rest))) a (arrived ∙ e)
  by_Ahead input (nothing_ahead a) enough small arrived = ended input enough a arrived

  -- With memory, a peer that has sent all that it will send, and fuel above the length of what it
  -- has sent, stomp_read_line ends for every input and agrees with next_line: it returns the line up
  -- to the first newline; or APR_EGENERAL, behind a terminator that comes first; or the error of the
  -- receive, at the end of the input. Both errors leave their message in the status of the io. What
  -- is left of the input is what follows; nothing is sent, and the engine's status stays.
  pub stomp_read_line-LineOf :
      length (wire.input s st.net) < fuel
      → length (wire.input s st.net) < int_limit
      → Returns
          (LineOf wire s st (next_line (wire.input s st.net)))
          (stomp_read_line fuel connection pool st)
  stomp_read_line-LineOf enough small =
      by_Ahead (wire.input s st.net) (next_line-Ahead (wire.input s st.net)) enough small refl
