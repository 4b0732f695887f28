-- ===== src/Messenger/Setup/Endpoint.antt =====
-- stomp_set_endpoint accepts exactly the addresses with a path.
use libstomp.Prelude.{
  ℕ, ◌≡◌, ◌≢◌, ◌⊎◌, inl, inr, refl, Option, none, some, [], ◌∷◌, Text, text, ◌==◌, arith,
  Bool-cases, ==_iff,
}
use libstomp.Exec.{done}
use libstomp.Platform.{Apr, Uri}
use libstomp.Status.{StatusCode, failure, success, stomp_status_set}
use libstomp.Machine.{State}
use libstomp.Messenger.Base.{Messenger, messenger_status_set, fail_with}
use libstomp.Messenger.Setup.{stomp_set_endpoint, check_path}
use libstomp.Messenger.Requests.{destination}
use libstomp.Messenger.Requests.Destination.{endpoint, destination_lem}

module _ ⦃apr : Apr⦄ where
  abbrev pub HasPath : Uri → Type 0
  HasPath uri = (b : ℕ) × (path : Text) × (uri.path ≡ some (b ∷ path))

  -- A messenger that is told why its endpoint is refused.
  abbrev pub Refused : Messenger apr → Uri → StatusCode × Messenger apr → Type 0
  Refused m uri (code, m') =
      (code ≡ failure)
      × (m'.uri ≡ uri)
      × (m'.connection ≡ m.connection)
      × (m'.status.code ≡ failure)
      × (m'.status.message ≢ none)

  module _ (m : Messenger apr) (st : State apr) where
    refused :
        (uri : Uri) (t : Text)
        → (r : StatusCode × Messenger apr) × (fail_with (record m { uri = uri }) t st
            ≡ done (r, st))
          × Refused m uri r
    unfolding fail_with messenger_status_set stomp_status_set
    refused uri t = (_, refl, (refl, refl, refl, refl, λ e. cc))

    abbrev pub Accepted : Text → ℕ × Uri → Type 0
    Accepted address (rc, uri) =
        (rc ≡ 0)
        × ((b : ℕ) × (path : Text) × (uri.path ≡ some (b ∷ path))
            × (stomp_set_endpoint m address st ≡ done ((success, record m { uri = uri }), st))
            × (destination (record m { uri = uri }) st
                ≡ done (some (endpoint (record m { uri = uri }) b path), st)))

    abbrev pub Rejected : Text → ℕ × Uri → Type 0
    Rejected address (rc, uri) =
        (rc ≡ 0 → ¬ HasPath uri)
        × ((r : StatusCode × Messenger apr) × (stomp_set_endpoint m address st ≡ done (r, st))
            × Refused m uri r)

    check_path-cases :
        (uri : Uri) (path : Option Text)
        → uri.path ≡ path
        → ((b : ℕ) × (rest : Text) × (path ≡ some (b ∷ rest))
            × (check_path (record m { uri = uri }) path st
                ≡ done ((success, record m { uri = uri }), st)))
          ⊎ ((¬ HasPath uri)
              × ((r : StatusCode × Messenger apr) × (check_path (record m { uri = uri }) path st
                    ≡ done (r, st))
                  × Refused m uri r))
    unfolding check_path
    check_path-cases uri none e = inr ((λ (b, p, h). cc), refused uri _)
    check_path-cases uri (some []) e = inr ((λ (b, p, h). cc), refused uri _)
    check_path-cases uri (some (b ∷ rest)) e = inl (b, rest, refl, refl)

    -- stomp_set_endpoint succeeds exactly for an address that can be parsed and has a path that is
    -- not empty. Then the messenger has that address and nothing else is changed, and the
    -- destination of its requests is the path, without its root where the option says so. Every
    -- other address is kept too, but the call fails, and the status of the messenger says why.
    pub stomp_set_endpoint-Destination :
        (address : Text)
        → Accepted address (apr.uri_parse address) ⊎ Rejected address (apr.uri_parse address)
    unfolding stomp_set_endpoint
    stomp_set_endpoint-Destination address = elim (Bool-cases ((apr.uri_parse address).0 == 0)) [
      | inl parsed ↦
          elim (check_path-cases (apr.uri_parse address).1 (apr.uri_parse address).1.path refl) [
            | inl (b, rest, e, run) ↦ inl (
              (==_iff _ 0).0 parsed,
              (
                b,
                rest,
                e,
                rw (parsed, stomp_set_endpoint) run,
                destination_lem (record m { uri = (apr.uri_parse address).1 }) b rest st e,
              ),
            )
            | inr (none_there, (r, run, why)) ↦
                inr ((λ _. none_there), (r, rw (parsed, stomp_set_endpoint) run, why))
          ]
      | inr unparsed ↦
          let (r, run, why) = refused (apr.uri_parse address).1 (text "Unable to parse the URI") in
          inr ((λ z. ground arith), (r, rw (unparsed, stomp_set_endpoint) run, why))
    ]
