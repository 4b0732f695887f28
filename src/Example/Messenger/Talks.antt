-- ===== src/Example/Messenger/Talks.antt =====
-- What the client of example/messenger says to a broker, and where both programs fault.
use libstomp.Prelude.{
  ℕ, ◌<◌, ◌≡◌, inl, inr, refl, sym, ◌∙◌, Bool-cases, some, ◌∷◌, [], ◌++◌, append-nil, Text, Buffer,
  text, length, strlen, has_prefix, if◌then◌else◌, ℤ, arith,
}
use mathlib.Core.Path.{subst}
use libstomp.Exec.{done, ◌>>=◌, bind-done}
use libstomp.Platform.{Apr, Wire, HasMemory, Unsplit}
use libstomp.Status.{StatusCode}
use libstomp.Machine.{State, M}
use libstomp.Io.Base.{Connection}
use libstomp.Io.Delivery.{Delivered-seq, extend}
use libstomp.Io.Frame.{content_length}
use libstomp.Io.Frame.Writes.{BodyFits, frame_text}
use libstomp.Io.Read.Arrived.{Arrives}
use libstomp.Message.{Message, stomp_message_destroy}
use libstomp.Messenger.Base.{Messenger, messenger_status_set}
use libstomp.Messenger.Setup.{stomp_messenger_destroy}
use libstomp.Messenger.Requests.{stomp_write_receipt, stomp_disconnect}
use libstomp.Messenger.Requests.Frames.{request_text}
use libstomp.Messenger.Requests.Receipt.{verdict, Confirmed}
use libstomp.Messenger.Requests.Confirmed.{stomp_disconnect-Confirmed}
use libstomp.Messenger.Exchange.{stomp_send}
use libstomp.Messenger.Exchange.Send.{sent_frame, stomp_send-Confirmed}
use libstomp.Example.Engine.Steps.{Tells, Converses}
use libstomp.Example.Messenger.{
  exit_failure, failure_without_message, failure_with_message, clean_up, require,
}
use libstomp.Example.Messenger.Client.{send_header, disconn, leave, deliver}

module _ ⦃apr : Apr⦄ (m : Messenger apr) (b : ℕ) (path : Text) (empty : apr.Hash) where
  -- The frame of a message, and the goodbye, whose headers start on an empty table.
  abbrev pub delivery_text : apr.Hash → Message apr → ℤ → Text
  delivery_text table message k =
      frame_text (sent_frame m table b path (some send_header) message) k
      ++ request_text (text "DISCONNECT") (stomp_write_receipt empty 124)

module _ ⦃apr : Apr⦄ (message : Message apr) where
  -- The state after the message and the messenger are destroyed.
  abbrev pub gone : Messenger apr → State apr → State apr
  gone m st = record st {
    mem = apr.terminate (apr.pool_destroy m.pool (apr.pool_destroy message.pool st.mem));
  }

  failure_with_message_lem :
      (m : Messenger apr) (st : State apr)
      → failure_with_message (some message) m st ≡ done (exit_failure, gone m st)
  unfolding failure_with_message failure_without_message stomp_message_destroy
      stomp_messenger_destroy
  failure_with_message_lem m st = refl

  module _ (wire : Wire apr) (s : apr.Socket) where
    clean_up-Converses :
        (m : Messenger apr) (input : Text) → Converses wire s (clean_up message m) [] input
    unfolding clean_up stomp_message_destroy stomp_messenger_destroy
    clean_up-Converses m input = record {
      at = λ st arrived. record {
        code = 0;
        final = gone m st;
        runs = refl;
        delivered = inl (refl, sym (append-nil _));
      };
    }

    module _ (m : Messenger apr) (command : Text) (body : Buffer) (rest input : Text)
        (run : M (StatusCode × Messenger apr)) (next : Messenger apr → M ℕ) (bs bs' : Text)
        (st : State apr) (following : Converses wire s (next m) bs' rest) where
      -- A request with a receipt, which the program requires to succeed.
      require-Tells :
          Confirmed wire s m (verdict m command body) rest input run bs st
          → Tells wire s
              (run >>= λ r. require r (failure_with_message (some message)) next)
              (bs ++ bs')
              st
      unfolding require messenger_status_set
      require-Tells (v, inl (r, out, left)) =
          elim (Bool-cases (has_prefix command (text "RECEIPT"))) [
            | inl e ↦
                let t = following.at v left in
                record {
                  code = t.code;
                  final = t.final;
                  runs = bind-done run _ r ∙ rw (e, if◌then◌else◌) t.runs;
                  delivered = Delivered-seq wire s bs bs' t.code st v t.final out t.delivered;
                }
            | inr e ↦ record {
              code = exit_failure;
              final = gone m v;
              runs = bind-done run _ r ∙ rw (e, if◌then◌else◌) (failure_with_message_lem _ v);
              delivered = inr ((λ z. omega arith), (bs, bs', refl, out));
            }
          ]
      require-Tells (v, inr (r, left, p)) = record {
        code = exit_failure;
        final = gone m v;
        runs = bind-done run _ r ∙ failure_with_message_lem _ v;
        delivered = extend wire s bs bs' exit_failure st v ((λ z. omega arith), p);
      }

module _ ⦃apr : Apr⦄ (wire : Wire apr) (memory : HasMemory apr) (unsplit : Unsplit apr wire)
    (s : apr.Socket) (fuel : ℕ) (garbage : ℕ) (c : Connection apr) (open_socket : c.socket ≡ some s)
    (b : ℕ) (path : Text) {command command' rest input' input : Text} {body body' : Buffer}
    {n n' : ℕ} (arrives : Arrives memory fuel command body input' input)
    (ends : strlen body ≡ some n) (arrives' : Arrives memory fuel command' body' rest input')
    (ends' : strlen body' ≡ some n') (m : Messenger apr) (opened : m.connection ≡ some c)
    (rooted : m.uri.path ≡ some (b ∷ path)) where
  pub deliver-Tells :
      (table : apr.Hash) (message : Message apr) (k : ℤ) (st : State apr)
      → m.exchange_properties ≡ some (record { hash = some table })
      → content_length (sent_frame m table b path (some send_header) message) ≡ some k
      → BodyFits message.body k
      → length (frame_text (sent_frame m table b path (some send_header) message) k) < fuel
      → length (request_text (text "DISCONNECT") (stomp_write_receipt memory.empty 124)) < fuel
      → wire.input s st.net ≡ input
      → Tells wire s
          (deliver fuel garbage message m)
          (delivery_text m b path memory.empty table message k)
          st
  unfolding deliver leave
  deliver-Tells table message k st exchange announced fits enough enough' arrived =
      require-Tells message wire s m command body input' input
        (stomp_send fuel garbage m (some send_header) message) _ _ _ st
        (record {
          at = λ u arrived'.
              subst (λ t. Tells wire s (leave fuel garbage message m) t u) (append-nil _)
                (require-Tells message wire s m command' body' rest input'
                  (stomp_disconnect fuel garbage m (some disconn)) (clean_up message) _ [] u
                  (clean_up-Converses message wire s m rest)
                  (stomp_disconnect-Confirmed wire memory unsplit s fuel garbage m c opened
                    open_socket arrives' n' ends' u arrived' disconn (omega arith) enough'));
        })
        (stomp_send-Confirmed wire s fuel garbage m c opened open_socket _ table exchange refl b
          path rooted memory unsplit arrives n ends (some send_header) message k st arrived refl
          announced fits enough)
