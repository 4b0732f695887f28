-- ===== src/Example/Engine/Steps.antt =====
-- What a program of example/engine sends, one rule for each of its steps.
use libstomp.Prelude.{
  ℕ, ◌<◌, ◌≡◌, inl, inr, refl, sym, ◌∙◌, ap, Bool-cases, none, some, [], ◌++◌, append-nil, Text,
  Buffer, length, strlen, ◌==◌, ne→==, ℤ, arith,
}
use libstomp.Exec.{done, ◌>>=◌, bind-done, deref}
use libstomp.Platform.{Apr, Wire, HasMemory, Unsplit, Closing}
use libstomp.Machine.{State, M}
use libstomp.Io.Base.{Connection, Frame}
use libstomp.Io.Delivery.{Delivered, Delivered-seq, extend, Sends}
use libstomp.Io.Frame.{content_length, stomp_write}
use libstomp.Io.Frame.Writes.{BodyFits, frame_text, stomp_write-Sends}
use libstomp.Io.Read.{stomp_read}
use libstomp.Io.Read.Arrived.{Arrives, stomp_read-Taken}
use libstomp.Messenger.Requests.{new_headers}
use libstomp.Messenger.Requests.Frames.{new_headers_lem}
use libstomp.Engine.{stomp_engine_disconnect}
use libstomp.Example.Engine.{
  died, exit, die, check_status, print_body, hang_up, send_or_die, show_response, read_response,
}

module _ ⦃apr : Apr⦄ (wire : Wire apr) (s : apr.Socket) where
  -- The program ends; with the status 0 it has sent all of `bs`, and with the other a prefix.
  pub record Tells (run : M ℕ) (bs : Text) (st : State apr) : Type 0 where
    pub code : ℕ
    pub final : State apr
    pub runs : run st ≡ done (code, final)
    pub delivered : Delivered wire s bs st code final

  -- It does so wherever `input` has arrived.
  pub record Converses (run : M ℕ) (bs input : Text) : Type 0 where
    pub at : (st : State apr) → wire.input s st.net ≡ input → Tells run bs st

  pub Tells-mem :
      (run k : M ℕ) (bs : Text) (st : State apr) (mem : apr.Mem)
      → run st ≡ k (record st { mem = mem })
      → Tells k bs (record st { mem = mem })
      → Tells run bs st
  Tells-mem run k bs st mem e t = record {
    code = t.code;
    final = t.final;
    runs = e ∙ t.runs;
    delivered = t.delivered;
  }

  -- The state after the socket is closed.
  abbrev closed : State apr → State apr
  closed st = record st { net = (apr.socket_close s (apr.socket_shutdown s st.net).1).1 }

  module _ (c : Connection apr) (open_socket : c.socket ≡ some s) where
    stomp_engine_disconnect_lem :
        (st : State apr)
        → stomp_engine_disconnect (some c) st
          ≡ done (((apr.socket_close s (apr.socket_shutdown s st.net).1).0, none), closed st)
    unfolding stomp_engine_disconnect
    stomp_engine_disconnect_lem st = bind-done (deref c.socket) _ (ap (λ o. deref o st) open_socket)

    pub hang_up-Converses :
        (closing : Closing apr wire) (pool : apr.Pool) (input : Text)
        → Converses (hang_up c pool) [] input
    unfolding hang_up check_status die exit
    hang_up-Converses closing pool input = record {
      at = λ st arrived.
          let w = (apr.socket_shutdown s st.net).1 in
          let kept =
            closing.output-close s w ∙ closing.output-shutdown s st.net ∙ sym (append-nil _) in
          let ran =
            bind-done (stomp_engine_disconnect (some c)) _ (stomp_engine_disconnect_lem st) in
          elim (Bool-cases ((apr.socket_close s w).0 == 0)) [
            | inl e ↦ record {
              code = 0;
              final = record (closed st) { mem = apr.terminate (apr.pool_destroy pool st.mem) };
              runs = ran ∙ rw (e, check_status);
              delivered = inl (refl, kept);
            }
            | inr e ↦ record {
              code = died;
              final = record (closed st) { mem = apr.terminate st.mem };
              runs = ran ∙ rw (e, check_status);
              delivered = inr ((λ z. omega arith), ([], [], refl, kept));
            }
          ];
    }

module _ ⦃apr : Apr⦄ (wire : Wire apr) (s : apr.Socket) (c : Connection apr)
    (open_socket : c.socket ≡ some s) (fuel : ℕ) (garbage : ℕ) (pool : apr.Pool) (next : M ℕ)
    (bs : Text) where
  module _ (f : Frame apr) (k : ℤ) (st : State apr)
      (r : Sends wire s (stomp_write fuel c f pool) (frame_text f k) st) where
    sent_frame :
        Delivered wire s (frame_text f k) st r.status r.final
        → Tells wire s next bs r.final
        → Tells wire s (send_or_die fuel garbage c pool f next) (frame_text f k ++ bs) st
    unfolding send_or_die check_status die exit
    sent_frame (inl (z, d)) t = record {
      code = t.code;
      final = t.final;
      runs = bind-done (stomp_write fuel c f pool) _ r.runs ∙ rw (z, check_status) t.runs;
      delivered = Delivered-seq wire s (frame_text f k) bs t.code st r.final t.final d t.delivered;
    }
    sent_frame (inr (z, d)) t = record {
      code = died;
      final = record r.final { mem = apr.terminate r.final.mem };
      runs = bind-done (stomp_write fuel c f pool) _ r.runs ∙ rw (ne→== r.status 0 z, check_status);
      delivered =
          extend wire s (frame_text f k) bs died st
            (record r.final { mem = apr.terminate r.final.mem }) ((λ e. omega arith), d);
    }

  pub send_or_die-Converses :
      (f : Frame apr) (k : ℤ) (input : Text)
      → content_length f ≡ some k
      → BodyFits f.body k
      → length (frame_text f k) < fuel
      → Converses wire s next bs input
      → Converses wire s (send_or_die fuel garbage c pool f next) (frame_text f k ++ bs) input
  send_or_die-Converses f k input announced fits enough rest = record {
    at = λ st arrived.
        let r = stomp_write-Sends wire s fuel c open_socket f pool k st announced fits enough in
        sent_frame f k st r r.delivered (rest.at r.final (r.input_kept ∙ arrived));
  }

  pub read_response-Converses :
      (memory : HasMemory apr) (unsplit : Unsplit apr wire) {command rest input : Text}
      {body : Buffer} {n : ℕ}
      → Arrives memory fuel command body rest input
      → strlen body ≡ some n
      → Converses wire s next bs rest
      → Converses wire s (read_response fuel garbage c pool next) bs input
  unfolding read_response show_response print_body
  read_response-Converses memory unsplit arrives ends then = record {
    at = λ st arrived.
        let t =
          stomp_read-Taken wire memory unsplit s c open_socket fuel pool garbage st arrives
            arrived in
        let u = then.at t.final t.reads.input_left in
        record {
          code = u.code;
          final = u.final;
          runs = bind-done (stomp_read fuel c pool garbage) _ t.runs ∙ rw (t.its_body, ends) u.runs;
          delivered =
              Delivered-seq wire s [] bs u.code st t.final u.final
                (t.reads.output_kept ∙ sym (append-nil _)) u.delivered;
        };
  }

module _ ⦃apr : Apr⦄ (wire : Wire apr) (memory : HasMemory apr) (s : apr.Socket)
    (pool : apr.Pool) where
  -- A new table of headers.
  pub new_headers-Converses :
      (k : apr.Hash → M ℕ) (bs input : Text)
      → Converses wire s (k memory.empty) bs input
      → Converses wire s (new_headers pool >>= k) bs input
  new_headers-Converses k bs input c = record {
    at = λ st arrived.
        Tells-mem wire s (new_headers pool >>= k) (k memory.empty) bs st
          (apr.hash_make (some pool) st.mem).1
          (bind-done (new_headers pool) k (new_headers_lem memory pool st))
          (c.at (record st { mem = (apr.hash_make (some pool) st.mem).1 }) arrived);
  }
