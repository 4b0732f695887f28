-- ===== src/Messenger/Session/Invariant.antt =====
-- What holds of a messenger however long it is used, and whatever the broker and the platform do.
use Prim.Native.Nat.{bit_or}
use libstomp.Prelude.{
  ℕ, ◌≡◌, ◌≢◌, ◌⊎◌, inl, inr, refl, false, ap, Bool-cases, ◌==◌, Option, none, some, Text, arith,
}
use libstomp.Exec.{Returns, Ensures-done}
use libstomp.Platform.{Apr}
use libstomp.Status.{Status, StatusCode, failure, success, stomp_status_set, stomp_status_success}
use libstomp.Machine.{State}
use libstomp.Messenger.Base.{Messenger, messenger_status_set, strip_root}
use libstomp.Messenger.Setup.{
  messenger_size, properties_size, with_table, init_properties, no_runtime, stomp_messenger_init,
}
use libstomp.Messenger.Answers.{Answer, fine, refused}
use libstomp.Messenger.Session.{Call, perform, Session, begun, called}
use libstomp.Messenger.Session.Effect.{
  Before, same, addressed, connected, Effect, answered, nothing_there, received, perform-Effect,
}

module _ ⦃apr : Apr⦄ where
  -- A status that is not a success has a message.
  abbrev pub IsTold : Status → Type 0
  IsTold s = (s.code ≡ success) ⊎ (s.message ≢ none)

  -- The exchange has a table of properties, so that no call finds a null pointer there.
  abbrev pub HasTable : Messenger apr → Type 0
  HasTable m = (h : apr.Hash) × (m.exchange_properties ≡ some (record { hash = some h }))

  -- A messenger that was `m`: it has kept the pool and the options.
  pub record IsSound (m m' : Messenger apr) : Type 0 where
    pub pool_kept : m'.pool ≡ m.pool
    pub options_kept : m'.options ≡ m.options
    pub table : HasTable m'
    pub told : IsTold m'.status

  IsSound-told :
      (m m' : Messenger apr) (code : StatusCode) (t : Text)
      → IsSound m m'
      → IsSound m (messenger_status_set m' code t)
  unfolding messenger_status_set stomp_status_set
  IsSound-told m m' code t h = record {
    pool_kept = h.pool_kept;
    options_kept = h.options_kept;
    table = h.table;
    told = inr (λ e. cc);
  }

  Answer-IsSound :
      (m m' : Messenger apr) {r : StatusCode × Messenger apr}
      → Answer m' r
      → IsSound m m'
      → IsSound m r.1
  Answer-IsSound m m' fine h = h
  Answer-IsSound m m' (refused t) h = IsSound-told m m' failure t h

  Before-IsSound :
      (m : Messenger apr) {m' m'' : Messenger apr} {c : Call apr}
      → Before m' c m''
      → IsSound m m'
      → IsSound m m''
  Before-IsSound m (same c q) h = h
  Before-IsSound m (addressed uri) h = record {
    pool_kept = h.pool_kept;
    options_kept = h.options_kept;
    table = h.table;
    told = h.told;
  }
  Before-IsSound m (connected header timeout o) h = record {
    pool_kept = h.pool_kept;
    options_kept = h.options_kept;
    table = h.table;
    told = h.told;
  }

  Effect-IsSound :
      (m m' : Messenger apr) {c : Call apr} {r : StatusCode × Messenger apr}
      → Effect m' c r
      → IsSound m m'
      → IsSound m r.1
  Effect-IsSound m m' (answered {m' = m''} b a) h = Answer-IsSound m m'' a (Before-IsSound m b h)
  Effect-IsSound m m' (nothing_there message t) h = IsSound-told m m' _ t h
  Effect-IsSound m m' (received message code k either) h = record {
    pool_kept = h.pool_kept;
    options_kept = h.options_kept;
    table = (k, refl);
    told = h.told;
  }

  -- What stomp_messenger_init returns: a null pointer out of memory, or a messenger that tells whether
  -- it is fit for use.
  abbrev pub Started : Messenger apr → State apr → Option (Messenger apr) → Type 0
  Started junk st none = (apr.malloc messenger_size st.mem).0 ≡ false
  Started junk st (some m) =
      ((m.status.code ≡ failure) × (m.status.message ≢ none))
      ⊎ ((m.status.code ≡ success)
          × HasTable m
          × (m.connection ≡ none)
          × (m.options ≡ bit_or junk.options strip_root))

  module _ (junk : Messenger apr) (s : State apr) where
    init_properties-Started :
        (m : Messenger apr) (st : State apr)
        → m.status.code ≡ success
        → m.connection ≡ none
        → m.options ≡ junk.options
        → Returns (λ r. Started junk s r.0) (init_properties m st)
    unfolding init_properties with_table messenger_status_set stomp_status_set
    init_properties-Started m st fresh closed found =
        elim (Bool-cases (apr.malloc properties_size st.mem).0) [
          | inr out ↦ rw (out, Returns) (inl (refl, λ e. cc))
          | inl got ↦
              rw (got, Returns)
                (by_hash (apr.hash_make (some m.pool) (apr.malloc properties_size st.mem).1).0)
        ]
      where
        by_hash :
            (o : Option apr.Hash)
            → Returns
                (λ r. Started junk s r.0)
                (with_table m o (record st {
                  mem = (apr.hash_make (some m.pool) (apr.malloc properties_size st.mem).1).1;
                }))
        by_hash none = inl (refl, λ e. cc)
        by_hash (some h) = inr (fresh, (h, refl), closed, ap (λ n. bit_or n strip_root) found)

    no_runtime-Started :
        (o : Option Text) (st : State apr)
        → o ≡ none
        → Returns (λ r. Started junk s r.0) (no_runtime junk o st)
    unfolding no_runtime messenger_status_set stomp_status_set
    no_runtime-Started none st e = inl (refl, λ e. cc)
    no_runtime-Started (some t) st e = cc

  -- The messenger with which the exchange gets its pool.
  abbrev blank : Messenger apr → Apr.Pool apr → Messenger apr
  unfolding stomp_status_success
  blank junk pool = record junk {
    connection = none;
    status = stomp_status_success (record junk.status { message = none });
    pool = pool;
  }

  pub stomp_messenger_init-Started :
      (junk : Messenger apr) (st : State apr)
      → (junk.status.message ≡ none) ⊎ ((apr.initialize (apr.malloc messenger_size st.mem).1).0 ≡ 0)
      → Returns (λ r. Started junk st r.0) (stomp_messenger_init junk st)
  unfolding stomp_messenger_init stomp_status_success messenger_status_set stomp_status_set
  stomp_messenger_init-Started junk st safe =
      let u : State apr = record st {
        mem = (apr.initialize (apr.malloc messenger_size st.mem).1).1;
      } in
      let pool = apr.pool_create none u.mem in
      elim (Bool-cases (apr.malloc messenger_size st.mem).0) [
        | inr out ↦ rw (out, Returns) out
        | inl got ↦
            rw (got, Returns)
              (elim (Bool-cases ((apr.initialize (apr.malloc messenger_size st.mem).1).0 == 0)) [
                | inr failed ↦
                    rw (failed, Returns)
                      (no_runtime-Started junk st junk.status.message u
                        (elim safe [ inl e ↦ e | inr e ↦ ground arith ]))
                | inl ready ↦
                    rw (ready, Returns)
                      (elim (Bool-cases (pool.0.0 == 0)) [
                        | inr failed ↦ rw (failed, Returns) (inl (refl, λ e. cc))
                        | inl made ↦
                            rw (made, Returns)
                              (init_properties-Started junk st (blank junk pool.0.1)
                                (record u { mem = pool.1 }) refl refl refl)
                      ])
              ])
      ]

module _ ⦃apr : Apr⦄ (fuel : ℕ) (garbage : ℕ) where
  -- After any sequence of calls on a sound messenger, with any platform and any input, the
  -- messenger has the pool and the options it had, it has a table of properties, and a status that
  -- is not a success has a message.
  pub Session-IsSound :
      (m : Messenger apr) (st : State apr) {m' : Messenger apr} {st' : State apr}
      → IsSound m m
      → Session fuel garbage m st m' st'
      → IsSound m m'
  Session-IsSound m st h begun = h
  Session-IsSound m st h (called {m' = m'} c code s e) =
      Effect-IsSound m m'
        (Ensures-done (Effect m' c) (perform fuel garbage c m') (perform-Effect fuel garbage c m')
          e)
        (Session-IsSound m st h s)
