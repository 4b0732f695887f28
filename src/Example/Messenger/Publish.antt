-- ===== src/Example/Messenger/Publish.antt =====
-- The client of example/messenger from the creation of its message to its end.
use libstomp.Prelude.{
  ℕ, ◌<◌, ◌≡◌, refl, ◌∙◌, ap, some, none, ◌∷◌, [], ◌++◌, Text, Buffer, text, length, strlen, c_str,
  take, decimal, pos, arith, to_int, to_size, is_positive, size_mod, ◌-◌,
}
use libstomp.Exec.{done, ◌>>=◌, bind-done, deref}
use libstomp.Platform.{Apr, Wire, HasMemory, Unsplit}
use libstomp.Status.{Status, success}
use libstomp.Machine.{State}
use libstomp.Io.Base.{Connection}
use libstomp.Io.Frame.{content_length}
use libstomp.Io.Frame.Writes.{BodyFits, frame_text}
use libstomp.Io.Read.Arrived.{Arrives}
use libstomp.Properties.{stomp_creation_time, stomp_exchange_add, stomp_exchange_util_ctime}
use libstomp.Message.{Message, message_size, stomp_message_create, stomp_message_format}
use libstomp.Message.Text.{format_body_lem}
use libstomp.Messenger.Base.{Messenger, strips_root}
use libstomp.Messenger.Requests.{stomp_write_receipt}
use libstomp.Messenger.Requests.Frames.{request_text}
use libstomp.Messenger.Exchange.Send.{sent_frame}
use libstomp.Example.Engine.Steps.{Tells, Tells-mem}
use libstomp.Example.Messenger.{require, with_status}
use libstomp.Example.Messenger.Client.{send_header, deliver, prepare, publish}
use libstomp.Example.Messenger.Talks.{delivery_text, deliver-Tells}

module _ ⦃apr : Apr⦄ where
  -- The message of the client, with a terminator.
  abbrev pub test_message : apr.Pool → Message apr
  test_message pool = record {
    size = 20;
    body = some (text "HIGH LEVEL API TEST" ++ 0 ∷ []);
    pool = pool;
  }

  abbrev blank_message : apr.Pool → Message apr
  blank_message pool = record { size = size_mod - 1; body = none; pool = pool }

  abbrev pub new_pool : State apr → (ℕ × apr.Pool) × apr.Mem
  new_pool st = apr.pool_create none (apr.malloc message_size st.mem).1

  -- The table with the two properties of the client.
  abbrev pub stamped : apr.Hash → State apr → apr.Hash
  stamped table st =
      apr.hash_set (apr.hash_set table (text "test") (some (text "123"))) stomp_creation_time
        (some (take 31 (decimal (apr.time_now_msec st.mem).0)))

  -- The state after the message is formatted, and after the time is taken.
  abbrev formatted : State apr → State apr
  formatted st = record st { mem = (apr.malloc 20 st.mem).1 }

  abbrev pub timed : apr.Pool → State apr → State apr
  timed pool st = record st {
    mem = (apr.pcalloc pool 32 (apr.time_now_msec (formatted st).mem).1).1;
  }

  abbrev pub with_properties : Messenger apr → apr.Hash → State apr → Messenger apr
  with_properties m table st = record m {
    exchange_properties = some (record { hash = some (stamped table st) });
  }

  -- The state in which `publish` takes the time.
  abbrev pub written : State apr → State apr
  written st = formatted (record st { mem = (new_pool st).1 })

  pub test_message-content_length :
      (m : Messenger apr) (table : apr.Hash) (b : ℕ) (path : Text) (pool : apr.Pool)
      → content_length (sent_frame m table b path (some send_header) (test_message pool))
        ≡ some (pos 20)
  unfolding content_length to_int is_positive
  test_message-content_length m table b path pool = refl

  pub test_message-BodyFits : (pool : apr.Pool) → BodyFits (test_message pool).body (pos 20)
  unfolding text to_size
  test_message-BodyFits pool = omega arith

module _ ⦃apr : Apr⦄ (memory : HasMemory apr) where
  stomp_message_create_lem :
      (status : Status) (st : State apr)
      → stomp_message_create (some status) st
        ≡ done (
          (some (blank_message (new_pool st).0.1), some status),
          record st { mem = (new_pool st).1 },
        )
  unfolding stomp_message_create
  stomp_message_create_lem status st =
      rw (memory.malloced message_size st.mem, ◌>>=◌)
        (rw (memory.pool_created none (apr.malloc message_size st.mem).1, ◌>>=◌))

  format_lem :
      (pool : apr.Pool) (st : State apr)
      → stomp_message_format (blank_message pool) (text "HIGH LEVEL API TEST" ++ 0 ∷ []) 19 st
        ≡ done (test_message pool, record st { mem = (apr.malloc 20 st.mem).1 })
  unfolding stomp_message_format text strlen c_str
  format_lem pool st =
      format_body_lem memory (blank_message pool) (text "HIGH LEVEL API TEST" ++ 0 ∷ []) 19 st 20
        refl (omega arith) refl

  ctime_lem :
      (h : apr.Hash) (pool : apr.Pool) (status : Status) (st : State apr)
      → apr.hash_pool h ≡ some pool
      → stomp_exchange_util_ctime (record { hash = some h }) (some status) st
        ≡ done (
          (
            success,
            record {
              hash = some (
                  apr.hash_set h stomp_creation_time
                    (some (take 31 (decimal (apr.time_now_msec st.mem).0))));
            },
            some status,
          ),
          record st { mem = (apr.pcalloc pool 32 (apr.time_now_msec st.mem).1).1 },
        )
  unfolding stomp_exchange_util_ctime stomp_exchange_add
  ctime_lem h pool status st pooled = rw (pooled, memory.allocated)

module _ ⦃apr : Apr⦄ (memory : HasMemory apr) (fuel : ℕ) (garbage : ℕ) (m : Messenger apr)
    (table : apr.Hash) (exchange : m.exchange_properties ≡ some (record { hash = some table }))
    (pool : apr.Pool) (pooled : (h : apr.Hash) → apr.hash_pool h ≡ some pool) where
  prepare_lem :
      (blank : apr.Pool) (st : State apr)
      → prepare fuel garbage (blank_message blank) m st
        ≡ deliver fuel garbage
            (test_message blank)
            (with_properties m table (formatted st))
            (timed pool st)
  unfolding prepare stomp_exchange_add require with_status
  prepare_lem blank st =
      let h = apr.hash_set table (text "test") (some (text "123")) in
      bind-done
        (stomp_message_format (blank_message blank) (text "HIGH LEVEL API TEST" ++ 0 ∷ []) 19) _
        (format_lem memory blank st)
      ∙ bind-done (deref m.exchange_properties) _ (ap (λ o. deref o (formatted st)) exchange)
      ∙ bind-done (stomp_exchange_util_ctime (record { hash = some h }) (some m.status)) _
          (ctime_lem memory h pool m.status (formatted st) (pooled h))

  -- What `publish` does before it delivers the message.
  pub publish_run :
      (st : State apr)
      → publish fuel garbage m st
        ≡ deliver fuel garbage
            (test_message (new_pool st).0.1)
            (with_properties m table (written st))
            (timed pool (record st { mem = (new_pool st).1 }))
  unfolding publish with_status
  publish_run st =
      bind-done (stomp_message_create (some m.status)) _
        (stomp_message_create_lem memory m.status st)
      ∙ prepare_lem (new_pool st).0.1 (record st { mem = (new_pool st).1 })

module _ ⦃apr : Apr⦄ (wire : Wire apr) (memory : HasMemory apr) (unsplit : Unsplit apr wire)
    (s : apr.Socket) (fuel : ℕ) (garbage : ℕ) (c : Connection apr) (open_socket : c.socket ≡ some s)
    (b : ℕ) (path : Text) {command command' rest input' input : Text} {body body' : Buffer}
    {n n' : ℕ} (arrives : Arrives memory fuel command body input' input)
    (ends : strlen body ≡ some n) (arrives' : Arrives memory fuel command' body' rest input')
    (ends' : strlen body' ≡ some n') (m : Messenger apr) (opened : m.connection ≡ some c)
    (rooted : m.uri.path ≡ some (b ∷ path)) (table : apr.Hash)
    (exchange : m.exchange_properties ≡ some (record { hash = some table })) (pool : apr.Pool)
    (pooled : (h : apr.Hash) → apr.hash_pool h ≡ some pool) where
  -- A messenger with a connection, an endpoint and a table of properties, and two frames that have
  -- arrived, one after the other, whose lines the reader takes, and whose bodies have terminators;
  -- there is memory, fuel for the frames, a receive of one byte or more brings all that it asks
  -- for, and tables have a pool. Then the client program ends, from the creation of its message on.
  -- With the exit status 0 it has sent, whole and in this order, a SEND frame, with the message,
  -- its destination, the two properties that it sets and the receipt among the headers, and a
  -- DISCONNECT frame; with any other status it has sent a prefix of these two.
  pub publish-Tells :
      (st : State apr)
      → length (
          frame_text
            (sent_frame m
              (stamped table (written st))
              b
              path
              (some send_header)
              (test_message (new_pool st).0.1))
            (pos 20))
        < fuel
      → length (request_text (text "DISCONNECT") (stomp_write_receipt memory.empty 124)) < fuel
      → wire.input s st.net ≡ input
      → Tells wire s
          (publish fuel garbage m)
          (delivery_text m b path memory.empty
            (stamped table (written st))
            (test_message (new_pool st).0.1)
            (pos 20))
          st
  unfolding strips_root
  publish-Tells st enough enough' arrived =
      let u : State apr = record st { mem = (new_pool st).1 } in
      let t =
        deliver-Tells wire memory unsplit s fuel garbage c open_socket b path arrives ends arrives'
          ends' (with_properties m table (written st)) opened rooted (stamped table (written st))
          (test_message (new_pool st).0.1) (pos 20) (timed pool u) refl
          (test_message-content_length m (stamped table (written st)) b path (new_pool st).0.1)
          (test_message-BodyFits (new_pool st).0.1) enough enough' arrived in
      Tells-mem wire s (publish fuel garbage m)
        (deliver fuel garbage (test_message (new_pool st).0.1)
          (with_properties m table (written st)))
        _ st (timed pool u).mem (publish_run memory fuel garbage m table exchange pool pooled st) t
