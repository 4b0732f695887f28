-- ===== src/Tests/Tables.antt =====
-- The properties of an exchange.
use libstomp.Prelude.{◌≡◌, false, some, none, [], ◌∷◌, Text, text}
use libstomp.Exec.{done}
use libstomp.Platform.Script.{script_hash}
use libstomp.Properties.{ExchangeProperties, stomp_exchange_get}
use libstomp.Properties.Map.{add, clear, edit_all, all_edited, edit_all-Map}
use libstomp.Tests.Fixtures.{quiet, start, entries}

edit_all-Map_example :
    (p : ExchangeProperties quiet) × (edit_all
        (add (text "a") (some (text "1")) ∷ clear ∷ add (text "b") none ∷ [])
        (record { hash = some entries })
        (start [])
      ≡ done (p, start []))
    × ((k : Text)
        → stomp_exchange_get p k (start [])
          ≡ done (
            all_edited
                (add (text "a") (some (text "1")) ∷ clear ∷ add (text "b") none ∷ [])
                (quiet.hash_get entries)
                k,
            start [],
          ))
edit_all-Map_example =
    edit_all-Map (script_hash false)
      (add (text "a") (some (text "1")) ∷ clear ∷ add (text "b") none ∷ []) entries (start [])
