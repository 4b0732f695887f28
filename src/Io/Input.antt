-- ===== src/Io/Input.antt =====
-- What a computation that only reads leaves alone, and the receive of one byte that has arrived.
use libstomp.Prelude.{ℕ, ◌≡◌, ◌≢◌, ◌∙◌, refl, ap, some, none, [], ◌∷◌, Text}
use libstomp.Exec.{done}
use libstomp.Platform.{Apr, Wire}
use libstomp.Machine.{State}
use libstomp.Status.{failure, stomp_status_set}
use libstomp.Io.Base.{Connection, recv, recv_lem}

module _ ⦃apr : Apr⦄ (wire : Wire apr) (s : apr.Socket) where
  -- From `st` to `st'` the input has become `rest`; nothing is sent and no error is set.
  pub record Reads (st : State apr) (rest : Text) (st' : State apr) : Type 0 where
    pub input_left : wire.input s st'.net ≡ rest
    pub output_kept : wire.output s st'.net ≡ wire.output s st.net
    pub io_kept : st'.io_error ≡ st.io_error
    pub engine_kept : st'.engine_error ≡ st.engine_error

  pub Reads-trans : {st u v : State apr} {a b : Text} → Reads st a u → Reads u b v → Reads st b v
  Reads-trans f g = record {
    input_left = g.input_left;
    output_kept = g.output_kept ∙ f.output_kept;
    io_kept = g.io_kept ∙ f.io_kept;
    engine_kept = g.engine_kept ∙ f.engine_kept;
  }

  pub Reads-refl : (st : State apr) {rest : Text} → wire.input s st.net ≡ rest → Reads st rest st
  Reads-refl st e = record {
    input_left = e;
    output_kept = refl;
    io_kept = refl;
    engine_kept = refl;
  }

  pub Reads-mem :
      (st : State apr) (mem : apr.Mem) {rest : Text}
      → wire.input s st.net ≡ rest
      → Reads st rest (record st { mem = mem })
  Reads-mem st mem e = record {
    input_left = e;
    output_kept = refl;
    io_kept = refl;
    engine_kept = refl;
  }

  -- The state after the receive of one byte.
  abbrev pub received : State apr → State apr
  received st = record st { net = (apr.socket_recv s 1 st.net).1 }

  module _ (st : State apr) (b : ℕ) (rest : Text) (arrived : wire.input s st.net ≡ b ∷ rest) where
    pub recv_arrived :
        (connection : Connection apr)
        → connection.socket ≡ some s
        → recv connection 1 st ≡ done ((0, b ∷ []), received st)
    recv_arrived connection e =
        recv_lem connection e st 1
        ∙ ap (λ r. done (r, received st)) (wire.recv_next s b rest st.net arrived)

    pub received-Reads : Reads st rest (received st)
    received-Reads = record {
      input_left = wire.input-recv s b rest st.net arrived;
      output_kept = wire.output-recv s 1 st.net;
      io_kept = refl;
      engine_kept = refl;
    }

-- What holds of every computation that only reads, also where it fails: nothing is sent, and the
-- engine's status stays.
module _ ⦃apr : Apr⦄ (wire : Wire apr) (s : apr.Socket) where
  pub record Quiet (st st' : State apr) : Type 0 where
    pub output_kept : wire.output s st'.net ≡ wire.output s st.net
    pub engine_kept : st'.engine_error ≡ st.engine_error

  pub Quiet-trans : {st u v : State apr} → Quiet st u → Quiet u v → Quiet st v
  Quiet-trans f g = record {
    output_kept = g.output_kept ∙ f.output_kept;
    engine_kept = g.engine_kept ∙ f.engine_kept;
  }

  pub Reads-Quiet : {st u : State apr} {rest : Text} → Reads wire s st rest u → Quiet st u
  Reads-Quiet r = record { output_kept = r.output_kept; engine_kept = r.engine_kept }

  pub received-Quiet :
      (n : ℕ) (st : State apr) → Quiet st (record st { net = (apr.socket_recv s n st.net).1 })
  received-Quiet n st = record { output_kept = wire.output-recv s n st.net; engine_kept = refl }

  pub Quiet-mem :
      {st u : State apr} → Quiet st u → (mem : apr.Mem) → Quiet st (record u { mem = mem })
  Quiet-mem q mem = record { output_kept = q.output_kept; engine_kept = q.engine_kept }

  -- An error is not APR_SUCCESS, and the io has a message about it.
  pub record Refuses (st : State apr) (rc : ℕ) (st' : State apr) : Type 0 where
    pub is_error : rc ≢ 0
    pub failed_code : st'.io_error.code ≡ failure
    pub told : st'.io_error.message ≢ none
    pub quiet : Quiet st st'

  pub Refuses-after : {st u v : State apr} {rc : ℕ} → Quiet st u → Refuses u rc v → Refuses st rc v
  Refuses-after q r = record {
    is_error = r.is_error;
    failed_code = r.failed_code;
    told = r.told;
    quiet = Quiet-trans q r.quiet;
  }

  pub reported :
      {st u : State apr} {rc : ℕ}
      → Quiet st u
      → rc ≢ 0
      → (message : Text) (mem : apr.Mem)
      → Refuses st rc
          (record u { mem = mem; io_error = stomp_status_set u.io_error failure (some message) })
  unfolding stomp_status_set
  reported q ne message mem = record {
    is_error = ne;
    failed_code = refl;
    told = λ e. cc;
    quiet = record { output_kept = q.output_kept; engine_kept = q.engine_kept };
  }
