-- ===== src/Messenger/Base.antt =====
-- The data of stomp_messenger.h, stomp_headers.h and stomp_types.h. The common header and the
-- heartbeats are read nowhere, and the acknowledge mode of a subscription is not either.
use Prim.Native.Nat.{bit_and}
use libstomp.Prelude.{ℕ, Bool, not, Option, some, Text, ◌++◌, ◌==◌, ℤ, printed}
use libstomp.Exec.{◌>>=◌, pure}
use libstomp.Platform.{Apr, Uri}
use libstomp.Status.{Status, StatusCode, failure, stomp_status_set}
use libstomp.Machine.{M}
use libstomp.Io.Base.{Connection}
use libstomp.Engine.{stomp_engine_last_status}
use libstomp.Properties.{ExchangeProperties}

-- STOMP_OPT_STRIP_ROOT
abbrev pub strip_root : ℕ
strip_root = 1

pub record Messenger (apr : Apr) : Type 0 where
  pub connection : Option (Connection apr)
  pub exchange_properties : Option (ExchangeProperties apr)
  pub status : Status
  pub pool : apr.Pool
  pub uri : Uri
  pub options : ℕ

pub record Credentials : Type 0 where
  pub username : Option Text
  pub password : Option Text

pub record ConnectionHeader : Type 0 where
  pub credentials : Option Credentials

pub record DisconnectionHeader : Type 0 where
  pub receipt : ℕ

pub record SubscriptionHeader : Type 0 where
  pub receipt : ℕ
  pub id : ℕ

pub record AckHeader : Type 0 where
  pub receipt : ℕ
  pub message_id : ℤ
  pub transaction_id : ℤ

pub record TransactionHeader : Type 0 where
  pub transaction_id : ℤ
  pub receipt : ℕ

pub record SendHeader : Type 0 where
  pub transaction_id : ℤ
  pub receipt : ℕ

module _ ⦃apr : Apr⦄ where
  unfoldable pub messenger_status_set : Messenger apr → StatusCode → Text → Messenger apr
  unfolding stomp_status_set
  messenger_status_set m code t = record m { status = stomp_status_set m.status code (some t) }

  -- stomp_status_set(&messenger->status, STOMP_FAILURE, …); return STOMP_FAILURE;
  unfoldable pub fail_with : Messenger apr → Text → M (StatusCode × Messenger apr)
  unfolding messenger_status_set
  fail_with m t = pure (failure, messenger_status_set m failure t)

  -- The same, with the last message of the engine behind the text.
  unfoldable pub fail_with_engine : Messenger apr → Text → M (StatusCode × Messenger apr)
  unfolding stomp_engine_last_status fail_with
  fail_with_engine m t = do
    engine_status ← stomp_engine_last_status
    fail_with m (t ++ printed engine_status.message)

  unfoldable pub strips_root : Messenger apr → Bool
  strips_root m = not (bit_and m.options strip_root == 0)
