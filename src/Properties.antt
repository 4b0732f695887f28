-- ===== src/Properties.antt =====
-- src/stomp_ex_properties.c: the properties of an exchange, in a hash table.
pub mod Map
use libstomp.Prelude.{true, false, Option, none, some, Text, text, take, decimal}
use libstomp.Exec.{◌>>=◌, deref, pure, crash}
use libstomp.Platform.{Apr}
use libstomp.Status.{Status, StatusCode, failure, success, stomp_status_set}
use libstomp.Machine.{M, on_mem}

pub record ExchangeProperties (apr : Apr) : Type 0 where
  pub hash : Option apr.Hash

-- STOMP_CREATION_TIME
abbrev pub stomp_creation_time : Text
stomp_creation_time = text "creation"

module _ ⦃apr : Apr⦄ where
  unfoldable pub stomp_exchange_add :
      ExchangeProperties apr → Text → Option Text → M (ExchangeProperties apr)
  stomp_exchange_add properties name value = do
    h ← deref properties.hash
    pure (record { hash = some (apr.hash_set h name value) })

  unfoldable pub stomp_exchange_get : ExchangeProperties apr → Text → M (Option Text)
  stomp_exchange_get properties name = do h ← deref properties.hash; pure (apr.hash_get h name)

  unfoldable pub stomp_exchange_clear : ExchangeProperties apr → M (ExchangeProperties apr)
  stomp_exchange_clear properties = do
    h ← deref properties.hash
    pure (record { hash = some (apr.hash_clear h) })

  abbrev invalid_structure : Option Status → Option Status
  invalid_structure none = none
  invalid_structure (some s) =
      some (stomp_status_set s failure (some (text "Invalid exchange properties structure")))

  -- The code, the properties, and `*stat` afterwards. The buffer has 32 bytes.
  unfoldable pub stomp_exchange_util_ctime :
      ExchangeProperties apr
      → Option Status
      → M (StatusCode × ExchangeProperties apr × Option Status)
  unfolding stomp_exchange_add
  stomp_exchange_util_ctime properties stat = do
    now ← on_mem apr.time_now_msec
    h ← deref properties.hash
    elim (apr.hash_pool h) [
      | none ↦ pure (failure, properties, invalid_structure stat)
      | some pool ↦ do
        allocated ← on_mem (apr.pcalloc pool 32)
        elim allocated [
          | false ↦ crash
          | true ↦ do
            p ← stomp_exchange_add properties stomp_creation_time (some (take 31 (decimal now)))
            pure (success, p, stat)
        ]
    ]
