-- ===== src/Messenger/Setup.antt =====
-- The start and the end of a messenger, its timeout and its endpoint.
pub mod Endpoint
use Prim.Native.Nat.{bit_or}
use libstomp.Prelude.{
  ℕ, ◌+◌, ◌*◌, true, false, Option, none, some, [], ◌∷◌, Text, text, ◌==◌, ℤ, pos, negsuc,
}
use libstomp.Exec.{◌>>=◌, ◌>>◌, pure, crash}
use libstomp.Platform.{Apr}
use libstomp.Status.{StatusCode, failure, success, stomp_status_success}
use libstomp.Machine.{M, on_mem, update_mem}
use libstomp.Engine.{stomp_engine_set_timeout}
use libstomp.Messenger.Base.{Messenger, strip_root, messenger_status_set, fail_with}

-- sizeof (stomp_messenger_t), sizeof (stomp_exchange_properties_t)
abbrev pub messenger_size : ℕ
messenger_size = 168

abbrev pub properties_size : ℕ
properties_size = 8

-- apr_time_from_msec(timeout)
unfoldable pub time_from_msec : ℤ → ℤ
time_from_msec (pos n) = pos (n * 1000)
time_from_msec (negsuc n) = negsuc (n * 1000 + 999)

module _ ⦃apr : Apr⦄ where
  abbrev pub returns : Messenger apr → Text → M (Option (Messenger apr))
  returns m t = pure (some (messenger_status_set m failure t))

  -- The hash table of the exchange, and the options on top of what they happened to be.
  unfoldable pub with_table : Messenger apr → Option apr.Hash → M (Option (Messenger apr))
  unfolding messenger_status_set
  with_table m none =
      returns (record m { exchange_properties = some (record { hash = none }) })
        (text "Unable to initialize the exchange properties structure")
  with_table m (some h) = pure (
      some (record m {
        exchange_properties = some (record { hash = some h });
        options = bit_or m.options strip_root;
      }))

  unfoldable pub init_properties : Messenger apr → M (Option (Messenger apr))
  unfolding messenger_status_set with_table
  init_properties m = do
    allocated ← on_mem (apr.malloc properties_size)
    elim allocated [
      | false ↦
          returns (record m { exchange_properties = none })
            (text "Unable to initialize the outer exchange properties structure")
      | true ↦ do h ← on_mem (apr.hash_make (some m.pool)); with_table m h
    ]

  -- To set a status over a message that is not null frees it, and a pointer out of malloc's memory may
  -- not be freed.
  unfoldable pub no_runtime : Messenger apr → Option Text → M (Option (Messenger apr))
  no_runtime junk (some _) = crash
  no_runtime junk none = returns junk (text "Unable to initialize the Apache Portal Runtime")

  -- `junk` is what malloc's memory holds.
  unfoldable pub stomp_messenger_init : Messenger apr → M (Option (Messenger apr))
  unfolding messenger_status_set init_properties no_runtime stomp_status_success
  stomp_messenger_init junk = do
    allocated ← on_mem (apr.malloc messenger_size)
    elim allocated [
      | false ↦ pure none
      | true ↦ do
        rc ← on_mem apr.initialize
        elim (rc == 0) [
          | false ↦ no_runtime junk junk.status.message
          | true ↦ do
            let m : Messenger apr = record junk {
              connection = none;
              status = stomp_status_success (record junk.status { message = none });
            }
            (rc, pool) ← on_mem (apr.pool_create none)
            let m' : Messenger apr = record m { pool = pool }
            elim (rc == 0) [
              | false ↦ returns m' (text "Unable to initialize the APR pool")
              | true ↦ init_properties m'
            ]
        ]
    ]

  -- free() and stomp_status_reset only release what is not used again.
  unfoldable pub stomp_messenger_destroy : Messenger apr → M (Unit {0})
  stomp_messenger_destroy m = do update_mem (apr.pool_destroy m.pool); update_mem apr.terminate

  unfoldable pub stomp_messenger_set_timeout : Messenger apr → ℤ → M (Unit {0})
  unfolding stomp_engine_set_timeout time_from_msec
  stomp_messenger_set_timeout m timeout = do
    _ ← stomp_engine_set_timeout m.connection (time_from_msec timeout)
    pure tt

  unfoldable pub check_path : Messenger apr → Option Text → M (StatusCode × Messenger apr)
  check_path m none = fail_with m (text "Invalid connection destination: null")
  check_path m (some []) = fail_with m (text "Invalid connection destination: empty")
  check_path m (some (_ ∷ _)) = pure (success, m)

  unfoldable pub stomp_set_endpoint : Messenger apr → Text → M (StatusCode × Messenger apr)
  unfolding fail_with check_path
  stomp_set_endpoint m uri = do
    let m' : Messenger apr = record m { uri = (apr.uri_parse uri).1 }
    elim ((apr.uri_parse uri).0 == 0) [
      | false ↦ fail_with m' (text "Unable to parse the URI")
      | true ↦ check_path m' m'.uri.path
    ]
