-- ===== src/Io/Rules.antt =====
-- Writers that deliver their text when the fuel of each loop exceeds its length: one rule for each
-- way in which stomp_write puts them together.
use libstomp.Prelude.{
  ℕ, ◌<◌, ◌≤◌, ◌≡◌, ne→==, inr, ◌∙◌, refl, sym, inl, append-nil, some, [], ◌++◌, Text, Buffer,
  length, take, ◌==◌, if◌then◌else◌, arith, length-append, le→ltb, take-length,
}
use mathlib.Core.Path.{subst}
use libstomp.Exec.{◌>>=◌, ◌>>◌, ◌⊳◌, pure, bind-done}
use libstomp.Platform.{Apr, Wire}
use libstomp.Machine.{State, M, on_mem, update_mem}
use libstomp.Status.{stomp_status_set, failure}
use libstomp.Io.Base.{error_text, set_error, Connection}
use libstomp.Io.Write.{stomp_write_buffer}
use libstomp.Io.Frame.{write_text}
use libstomp.Io.Delivery.{Delivered, Sends, Sends-seq, Sends-done, write_rest-Sends}

module _ ⦃apr : Apr⦄ (wire : Wire apr) (s : apr.Socket) (fuel : ℕ) where
  abbrev pub Writes : M ℕ → Text → Type 0
  Writes m bs = (st : State apr) → length bs < fuel → Sends wire s m bs st

  pub Writes-seq : (m k : M ℕ) (a b : Text) → Writes m a → Writes k b → Writes (m ⊳ k) (a ++ b)
  Writes-seq m k a b first rest st h =
      Sends-seq wire s m k a b st (first st (omega (arith, length-append a b)))
        (λ u. rest u (omega (arith, length-append a b)))

  pub Writes-done : Writes (pure 0) []
  Writes-done st h = Sends-done wire s st

  -- A call that touches memory alone, before a writer that delivers whatever it returned.
  pub Writes-on_mem :
      {A : Type 0} (f : apr.Mem → A × apr.Mem) (k : A → M ℕ) (bs : Text)
      → ((a : A) → Writes (k a) bs)
      → Writes (on_mem f >>= k) bs
  Writes-on_mem f k bs rest st h =
      let r = rest (f st.mem).0 (record st { mem = (f st.mem).1 }) h in
      record {
        status = r.status;
        final = r.final;
        runs = r.runs;
        delivered = r.delivered;
        input_kept = r.input_kept;
        engine_kept = r.engine_kept;
      }

  pub Writes-release : (f : apr.Mem → apr.Mem) → Writes (update_mem f >> pure 0) []
  Writes-release f st h = record {
    status = 0;
    final = record st { mem = f st.mem };
    runs = refl;
    delivered = inl (refl, sym (append-nil _));
    input_kept = refl;
    engine_kept = refl;
  }

  -- `err_exit: set_error(rc, …); return rc;`
  abbrev pub or_report : M ℕ → Text → M ℕ
  or_report m msg_prefix =
      m >>= λ rc. if rc == 0 then pure 0 else (do set_error rc msg_prefix; pure rc)

  or_report-Sends_from :
      (m : M ℕ) (msg_prefix bs : Text) (st : State apr) (r : Sends wire s m bs st)
      → Delivered wire s bs st r.status r.final
      → Sends wire s (or_report m msg_prefix) bs st
  unfolding set_error
  or_report-Sends_from m msg_prefix bs st r (inl (z, d)) = record {
    status = 0;
    final = r.final;
    runs = bind-done m _ r.runs ∙ rw z;
    delivered = inl (refl, d);
    input_kept = r.input_kept;
    engine_kept = r.engine_kept;
  }
  or_report-Sends_from m msg_prefix bs st r (inr (z, d)) = record {
    status = r.status;
    final = record r.final {
      io_error = stomp_status_set r.final.io_error failure (some (error_text r.status msg_prefix));
    };
    runs = bind-done m _ r.runs ∙ rw (ne→== r.status 0 z);
    delivered = inr (z, d);
    input_kept = r.input_kept;
    engine_kept = r.engine_kept;
  }

  pub Writes-or_report :
      (m : M ℕ) (msg_prefix bs : Text) → Writes m bs → Writes (or_report m msg_prefix) bs
  Writes-or_report m msg_prefix bs w st h =
      let r = w st h in or_report-Sends_from m msg_prefix bs st r r.delivered

  module _ (connection : Connection apr) (open_socket : connection.socket ≡ some s) where
    pub stomp_write_buffer-Writes :
        (bs : Buffer) (n : ℕ)
        → n ≤ length bs
        → Writes (stomp_write_buffer fuel connection bs n) (take n bs)
    unfolding stomp_write_buffer
    stomp_write_buffer-Writes bs n fits st h =
        rw (le→ltb n (length bs) fits)
          (write_rest-Sends wire s connection open_socket fuel (take n bs) st h)

    pub write_text-Writes : (t : Text) → Writes (write_text fuel connection t) t
    write_text-Writes t =
        subst (λ u. Writes (write_text fuel connection t) u) (take-length t)
          (stomp_write_buffer-Writes t (length t) (omega arith))
