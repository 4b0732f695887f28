-- ===== src/Example/Messenger.antt =====
-- example/messenger/client.c and example/messenger/server.c: what the two programs share. A program is
-- a computation of its exit status, and its first argument, if there is one, is `argument`.
pub mod Client
pub mod Server
pub mod Talks
pub mod Publish
pub mod Succeeds
use libstomp.Prelude.{ℕ, true, false, Option, none, some, Text, Buffer, text, ◌==◌, ℤ}
use libstomp.Exec.{◌>>=◌, ◌>>◌, deref, pure}
use libstomp.Platform.{Apr}
use libstomp.Status.{Status, StatusCode, success}
use libstomp.Machine.{M}
use libstomp.Message.{Message, stomp_message_destroy}
use libstomp.Messenger.Base.{Messenger}
use libstomp.Messenger.Setup.{stomp_messenger_destroy, stomp_set_endpoint}
use libstomp.Messenger.Exchange.{stomp_connect}

abbrev pub exit_failure : ℕ
exit_failure = 1

-- char *url = argv[1]
unfoldable pub url : Option Text → Text
url none = text "stomp://localhost:61613/queue/test.stomp.queue"
url (some argument) = argument

module _ ⦃apr : Apr⦄ where
  -- failure_without_message
  unfoldable pub failure_without_message : Option (Messenger apr) → M ℕ
  unfolding stomp_messenger_destroy
  failure_without_message messenger = do
    m ← deref messenger
    stomp_messenger_destroy m
    pure exit_failure

  -- failure_with_message
  unfoldable pub failure_with_message : Option (Message apr) → Messenger apr → M ℕ
  unfolding stomp_message_destroy failure_without_message
  failure_with_message message m = do
    x ← deref message
    stomp_message_destroy x
    failure_without_message (some m)

  -- The end of a program that has done its work.
  unfoldable pub clean_up : Message apr → Messenger apr → M ℕ
  unfolding stomp_message_destroy stomp_messenger_destroy
  clean_up message m = do stomp_message_destroy message; stomp_messenger_destroy m; pure 0

  -- `stat` is compared with STOMP_SUCCESS. The message of the status goes to stderr.
  unfoldable pub require :
      StatusCode × Messenger apr → (Messenger apr → M ℕ) → (Messenger apr → M ℕ) → M ℕ
  require (stat, m) failed next = elim (stat == success) [ true ↦ next m | false ↦ failed m ]

  -- What a function has made of `messenger->status`, a pointer to which it was given.
  unfoldable pub with_status : Messenger apr → Option Status → Messenger apr
  with_status m none = m
  with_status m (some status) = record m { status = status }

module _ ⦃apr : Apr⦄ (fuel : ℕ) (garbage : ℕ) where
  -- From the address to the connection, and then `next`.
  unfoldable pub on_endpoint : Option Text → ℤ → Messenger apr → (Messenger apr → M ℕ) → M ℕ
  unfolding require failure_without_message stomp_set_endpoint stomp_connect url
  on_endpoint argument timeout m next = do
    addressed ← stomp_set_endpoint m (url argument)
    require addressed (λ m. failure_without_message (some m))
        λ m. do
          opened ← stomp_connect fuel garbage m none timeout
          require opened (λ m. failure_without_message (some m)) next
