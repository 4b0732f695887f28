-- ===== src/Tests/Sessions.antt =====
-- A client's calls on a messenger that has no connection yet, and the start of one.
use Prim.Native.Nat.{bit_or}
use libstomp.Prelude.{[], ◌∷◌, text, none, some, refl, inl}
use libstomp.Platform.Script.{wait_status}
use libstomp.Io.Read.{stomp_io_can_read}
use libstomp.Messenger.Exchange.{stomp_receive, receive_from}
use libstomp.Exec.{Returns, Ensures}
use libstomp.Status.{success, failure, no_data}
use libstomp.Messenger.Base.{Messenger, messenger_status_set}
use libstomp.Messenger.Setup.{stomp_set_endpoint, stomp_messenger_init}
use libstomp.Messenger.Session.{set_endpoint, receive, perform, Session, begun, called}
use libstomp.Messenger.Session.Effect.{Effect, perform-Effect}
use libstomp.Messenger.Session.Invariant.{
  IsSound, Started, Session-IsSound, stomp_messenger_init-Started,
}
use libstomp.Tests.Fixtures.{quiet, start, ready, note}

ready-IsSound : IsSound ready ready
ready-IsSound = record {
  pool_kept = refl;
  options_kept = refl;
  table = (((text "lang", text "c") ∷ []), refl);
  told = inl refl;
}

perform-Effect_example : Ensures (Effect ready (receive note)) (perform 50 0 (receive note) ready)
perform-Effect_example = perform-Effect 50 0 (receive note) ready

-- A new address, an empty one, and a look at a socket that has nothing.
abbrev at_queue : Messenger quiet
at_queue = record ready { uri = record ready.uri { hostname = none; path = some (text "/queue") } }

abbrev moved : Messenger quiet
moved = record ready { uri = record ready.uri { hostname = none; path = some [] } }

abbrev waiting : Messenger quiet
waiting =
    messenger_status_set
      (messenger_status_set moved failure (text "Invalid connection destination: empty"))
      (bit_or success no_data) (text "Timed out while trying to read data")

three_calls : Session 50 0 ready (start []) waiting (start [])
unfolding perform stomp_set_endpoint text stomp_receive receive_from stomp_io_can_read wait_status
three_calls =
    called (receive note) (bit_or success no_data)
      (called (set_endpoint []) failure (called (set_endpoint (text "/queue")) success begun refl)
        refl)
      refl

Session-IsSound_example : IsSound ready waiting
Session-IsSound_example = Session-IsSound 50 0 ready (start []) ready-IsSound three_calls

stomp_messenger_init-Started_example :
    Returns (λ r. Started ready (start []) r.0) (stomp_messenger_init ready (start []))
stomp_messenger_init-Started_example = stomp_messenger_init-Started ready (start []) (inl refl)
