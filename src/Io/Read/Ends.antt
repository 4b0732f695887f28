-- ===== src/Io/Read/Ends.antt =====
-- The header lines of stomp_read end on every input, well-formed or not.
use libstomp.Prelude.{
  ℕ, zero, suc, ◌<◌, ◌≤◌, ◌≡◌, ◌≢◌, ap, sym, inl, inr, refl, Option, some, none, ◌∷◌, Text, length,
  length-append, Bool-cases, int_limit, c_str, is_zero, arith,
}
use mathlib.Core.Path.{subst}
use libstomp.Status.{stomp_status_set}
use libstomp.Exec.{Returns, Returns-map, Returns-bind, ◌>>◌, pure}
use libstomp.Platform.{Apr, Wire, HasMemory, Finished, Codes}
use libstomp.Machine.{State, M}
use libstomp.Io.Base.{Connection, io_status_set}
use libstomp.Io.Input.{Quiet, Quiet-trans, Refuses, Refuses-after, reported, Reads-Quiet}
use libstomp.Io.Line.{Line, line, no_line, stomp_read_line}
use libstomp.Io.Line.Next.{
  Next, Ahead, newline_ahead, terminator_ahead, nothing_ahead, next_line, next_line-Ahead,
}
use libstomp.Io.Line.Total.{LineOf, Reports, stomp_read_line-LineOf}
use libstomp.Io.Read.{
  Headers, headers, bad_headers, split_header, header_line, header_error, header_loop,
}

module _ ⦃apr : Apr⦄ (wire : Wire apr) (s : apr.Socket) where
  -- A line that is read shortens the input; an error has a message.
  abbrev pub LineEnds : State apr → Line × State apr → Type 0
  LineEnds st (line p n, u) =
      (length (wire.input s u.net) < length (wire.input s st.net)) × Quiet wire s st u
  LineEnds st (no_line rc, u) = Refuses wire s st rc u

  Reports-Refuses :
      {st u : State apr} {rest message : Text} {rc : ℕ}
      → rc ≢ 0
      → Reports wire s st rest message u
      → Refuses wire s st rc u
  unfolding stomp_status_set
  Reports-Refuses ne r = record {
    is_error = ne;
    failed_code = ap (λ e. e.code) r.io_reported;
    told = λ e. cc (ap (λ e. e.message) r.io_reported);
    quiet = record { output_kept = r.output_kept; engine_kept = r.engine_kept };
  }

  LineOf-LineEnds :
      (codes : Codes apr) (st : State apr) {input : Text} {n : Next}
      → Ahead input n
      → wire.input s st.net ≡ input
      → (r : Line × State apr) → LineOf wire s st n r
      → LineEnds st r
  LineOf-LineEnds codes st (newline_ahead t rest a e) arrived (l, u) (e', r) =
      subst (λ l. LineEnds st (l, u)) (sym e')
        (
          omega (
            arith,
            ap length r.input_left,
            ap length arrived,
            ap length e,
            length-append t (10 ∷ rest),
          ),
          Reads-Quiet wire s r,
        )
  LineOf-LineEnds codes st (terminator_ahead t rest a e) arrived (l, u) (e', r) =
      subst (λ l. LineEnds st (l, u)) (sym e') (Reports-Refuses codes.egeneral_error r)
  LineOf-LineEnds codes st (nothing_ahead a) arrived (l, u) (rc, ne, e', r) =
      subst (λ l. LineEnds st (l, u)) (sym e') (Reports-Refuses ne r)

  -- A table of headers, from what has not grown; or an error and a message.
  abbrev pub HeadersEnd : State apr → Headers apr × State apr → Type 0
  HeadersEnd st (headers h, u) =
      (length (wire.input s u.net) ≤ length (wire.input s st.net)) × Quiet wire s st u
  HeadersEnd st (bad_headers rc, u) = Refuses wire s st rc u

  HeadersEnd-after :
      {st u : State apr}
      → length (wire.input s u.net) < length (wire.input s st.net)
      → Quiet wire s st u
      → (r : Headers apr × State apr) → HeadersEnd u r
      → HeadersEnd st r
  HeadersEnd-after lt q (headers h, v) (le, q') = (omega arith, Quiet-trans wire s q q')
  HeadersEnd-after lt q (bad_headers rc, v) r = Refuses-after wire s q r

module _ ⦃apr : Apr⦄ (wire : Wire apr) (memory : HasMemory apr) (finished : Finished apr wire)
    (codes : Codes apr) (s : apr.Socket) (connection : Connection apr)
    (open_socket : connection.socket ≡ some s) (fuel : ℕ) (pool : apr.Pool) where
  pub line-Ends :
      (st : State apr)
      → length (wire.input s st.net) < fuel
      → length (wire.input s st.net) < int_limit
      → Returns (LineEnds wire s st) (stomp_read_line fuel connection pool st)
  line-Ends st enough small =
      Returns-map (LineOf wire s st (next_line (wire.input s st.net))) (LineEnds wire s st) _
        (LineOf-LineEnds wire s codes st (next_line-Ahead (wire.input s st.net)) refl)
        (stomp_read_line-LineOf wire memory finished s connection open_socket fuel pool st enough
          small)

  header_line-Ends :
      (continue : apr.Hash → M (Headers apr)) (h : apr.Hash) (st : State apr)
      → ((h' : apr.Hash) (u : State apr)
          → length (wire.input s u.net) < length (wire.input s st.net)
          → Returns (HeadersEnd wire s u) (continue h' u))
      → (l : Line) (u : State apr) → LineEnds wire s st (l, u)
      → Returns (HeadersEnd wire s st) (header_line fuel connection pool continue h l u)
  unfolding header_line io_status_set
  header_line-Ends continue h st go (no_line rc) u r = r
  header_line-Ends continue h st go (line p n) u (lt, q) = elim (Bool-cases (is_zero n)) [
    | inl empty ↦ rw (empty, Returns) (omega arith, q)
    | inr full ↦ rw (full, Returns) (by_header (split_header (c_str p)))
  ]
    where
      by_header :
          (o : Option (Text × Text))
          → Returns (HeadersEnd wire s st) (
              (elim o as (λ _. M (Headers apr)) [
                | none ↦ do
                  io_status_set (header_error fuel connection pool (c_str p))
                  pure (bad_headers apr.egeneral)
                | some (key, value) ↦ continue (apr.hash_set h key (some value))
              ])
                u)
      by_header none = reported wire s q codes.egeneral_error _ u.mem
      by_header (some (key, value)) =
          Returns-map (HeadersEnd wire s u) (HeadersEnd wire s st) _ (HeadersEnd-after wire s lt q)
            (go (apr.hash_set h key (some value)) u lt)

  pub header_loop-Ends :
      (rounds : ℕ) (h : apr.Hash) (st : State apr)
      → length (wire.input s st.net) < rounds
      → length (wire.input s st.net) < fuel
      → length (wire.input s st.net) < int_limit
      → Returns (HeadersEnd wire s st) (header_loop fuel connection pool rounds h st)
  unfolding header_loop
  header_loop-Ends zero h st more enough small = elim more [ ]
  header_loop-Ends (suc rounds) h st more enough small =
      Returns-bind (LineEnds wire s st) (HeadersEnd wire s st)
        (header_line fuel connection pool (header_loop fuel connection pool rounds) h)
        (header_line-Ends (header_loop fuel connection pool rounds) h st
          λ h' u lt. header_loop-Ends rounds h' u (omega arith) (omega arith) (omega arith))
        (stomp_read_line fuel connection pool) st (line-Ends st enough small)
