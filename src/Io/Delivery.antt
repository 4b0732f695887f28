-- ===== src/Io/Delivery.antt =====
-- What a computation that writes to a socket delivers: all its bytes if it returns APR_SUCCESS, and
-- a prefix of them if it returns an error. One rule for each way to build a writer.
use libstomp.Prelude.{
  ℕ, zero, suc, ◌<◌, ◌≡◌, ◌≢◌, ◌⊎◌, inl, inr, refl, sym, ◌∙◌, ap, some, [], ◌∷◌, ◌++◌, append_assoc,
  append-nil, Text, Buffer, text, length, take, drop, ◌==◌, arith, take-append-drop, length-drop,
  Bool-cases, ==_iff,
}
use mathlib.Core.Path.{subst}
use libstomp.Status.{stomp_status_set, failure}
use libstomp.Exec.{done, ◌⊳◌, pure, bind-done, then-success, then-failure}
use libstomp.Platform.{Apr, Wire}
use libstomp.Machine.{State, M}
use libstomp.Io.Base.{Connection, send, send_lem, io_status_set}
use libstomp.Io.Write.{write_rest}

module _ ⦃apr : Apr⦄ (wire : Wire apr) (s : apr.Socket) where
  open wire use {output, input}

  -- Between two states of the process, `bs` has gone to the peer, or a prefix of it.
  abbrev pub Delivered : Text → State apr → ℕ → State apr → Type 0
  Delivered bs st rc st' =
      ((rc ≡ 0) × (output s st'.net ≡ output s st.net ++ bs))
      ⊎ ((rc ≢ 0)
          × ((p : Text) × (q : Text) × (p ++ q ≡ bs) × (output s st'.net ≡ output s st.net ++ p)))

  pub record Sends (m : M ℕ) (bs : Text) (st : State apr) : Type 0 where
    pub status : ℕ
    pub final : State apr
    pub runs : m st ≡ done (status, final)
    pub delivered : Delivered bs st status final
    pub input_kept : input s final.net ≡ input s st.net
    pub engine_kept : final.engine_error ≡ st.engine_error

  pub Delivered-seq :
      (a b : Text) (rc : ℕ) (st u v : State apr)
      → output s u.net ≡ output s st.net ++ a
      → Delivered b u rc v
      → Delivered (a ++ b) st rc v
  Delivered-seq a b rc st u v e (inl (z, d)) = inl (z, d ∙ (rw e (append_assoc _ a b)))
  Delivered-seq a b rc st u v e (inr (z, (p, q, h, d))) =
      inr (z, (a ++ p, q, append_assoc a p q ∙ ap (λ t. a ++ t) h, d ∙ (rw e (append_assoc _ a p))))

  pub extend :
      (a b : Text) (rc : ℕ) (st u : State apr)
      → (rc ≢ 0)
        × ((p : Text) × (q : Text) × (p ++ q ≡ a) × (output s u.net ≡ output s st.net ++ p))
      → Delivered (a ++ b) st rc u
  extend a b rc st u (z, (p, q, h, d)) =
      inr (z, (p, q ++ b, sym (append_assoc p q b) ∙ ap (λ t. t ++ b) h, d))

  Sends-seq_from :
      (m k : M ℕ) (a b : Text) (st : State apr) (first : Sends m a st)
      → Delivered a st first.status first.final
      → Sends k b first.final
      → Sends (m ⊳ k) (a ++ b) st
  Sends-seq_from m k a b st first (inl (z, d)) r = record {
    status = r.status;
    final = r.final;
    runs = then-success m k first.runs z ∙ r.runs;
    delivered = Delivered-seq a b r.status st first.final r.final d r.delivered;
    input_kept = r.input_kept ∙ first.input_kept;
    engine_kept = r.engine_kept ∙ first.engine_kept;
  }
  Sends-seq_from m k a b st first (inr (z, d)) r = record {
    status = first.status;
    final = first.final;
    runs = then-failure m k first.runs z;
    delivered = extend a b first.status st first.final (z, d);
    input_kept = first.input_kept;
    engine_kept = first.engine_kept;
  }

  -- One writer after another sends what both send.
  pub Sends-seq :
      (m k : M ℕ) (a b : Text) (st : State apr)
      → Sends m a st
      → ((u : State apr) → Sends k b u)
      → Sends (m ⊳ k) (a ++ b) st
  Sends-seq m k a b st first rest =
      Sends-seq_from m k a b st first first.delivered (rest first.final)

  pub Sends-done : (st : State apr) → Sends (pure 0) [] st
  Sends-done st = record {
    status = 0;
    final = st;
    runs = refl;
    delivered = inl (refl, sym (append-nil _));
    input_kept = refl;
    engine_kept = refl;
  }

  module _ (connection : Connection apr) (open_socket : connection.socket ≡ some s) where
    -- Each send takes a byte or fails, so that fuel for every byte is enough.
    pub write_rest-Sends :
        (fuel : ℕ) (bs : Buffer) (st : State apr)
        → length bs < fuel
        → Sends (write_rest fuel connection bs) bs st
    unfolding write_rest io_status_set
    write_rest-Sends zero bs st h = elim h [ ]
    write_rest-Sends (suc fuel) [] st h = Sends-done st
    write_rest-Sends (suc fuel) (b ∷ bs) st h =
        let n = (apr.socket_send s (b ∷ bs) st.net).0.1 in
        let w = (apr.socket_send s (b ∷ bs) st.net).1 in
        elim (Bool-cases ((apr.socket_send s (b ∷ bs) st.net).0.0 == 0)) [
          | inl sent ↦
              let r : Sends (write_rest fuel connection (drop n (b ∷ bs))) (drop n (b ∷ bs))
                  (record st { net = w }) =
                write_rest-Sends fuel (drop n (b ∷ bs)) (record st { net = w })
                  (omega (
                    arith,
                    length-drop n (b ∷ bs),
                    wire.send_progress s b bs st.net ((==_iff _ 0).0 sent),
                  )) in
              record {
                status = r.status;
                final = r.final;
                runs =
                    bind-done (send connection (b ∷ bs)) _
                      (send_lem connection open_socket st (b ∷ bs))
                    ∙ rw sent r.runs;
                delivered =
                    subst (λ t. Delivered t st r.status r.final) (take-append-drop n (b ∷ bs))
                      (Delivered-seq (take n (b ∷ bs)) (drop n (b ∷ bs)) r.status st
                        (record st { net = w }) r.final (wire.output-send s (b ∷ bs) st.net)
                        r.delivered);
                input_kept = r.input_kept ∙ wire.input-send s (b ∷ bs) st.net;
                engine_kept = r.engine_kept;
              }
          | inr failed ↦ record {
            status = (apr.socket_send s (b ∷ bs) st.net).0.0;
            final = record st {
              net = w;
              io_error = stomp_status_set st.io_error failure (
                  some (
                    text "unable to write data: "
                    ++ apr.strerror (apr.socket_send s (b ∷ bs) st.net).0.0 80));
            };
            runs =
                bind-done (send connection (b ∷ bs)) _ (send_lem connection open_socket st (b ∷ bs))
                ∙ rw failed;
            delivered = inr (
              ground arith,
              (
                take n (b ∷ bs),
                drop n (b ∷ bs),
                take-append-drop n (b ∷ bs),
                wire.output-send s (b ∷ bs) st.net,
              ),
            );
            input_kept = wire.input-send s (b ∷ bs) st.net;
            engine_kept = refl;
          }
        ]
