-- ===== src/Messenger/Requests/Destination.antt =====
-- The destination that a messenger with an endpoint gives to a frame.
use libstomp.Prelude.{◌≡◌, some, ◌∷◌, Text, ℕ, if◌then◌else◌, Bool-cases, inl, inr}
use libstomp.Exec.{done}
use libstomp.Platform.{Apr}
use libstomp.Machine.{State}
use libstomp.Messenger.Base.{Messenger, strips_root}
use libstomp.Messenger.Requests.{destination, stripped}

module _ ⦃apr : Apr⦄ where
  -- A path without its root, where the option asks for that.
  abbrev pub endpoint : Messenger apr → ℕ → Text → Text
  endpoint m b path = if strips_root m then path else b ∷ path

  pub destination_lem :
      (m : Messenger apr) (b : ℕ) (path : Text) (st : State apr)
      → m.uri.path ≡ some (b ∷ path)
      → destination m st ≡ done (some (endpoint m b path), st)
  unfolding destination stripped
  destination_lem m b path st e = elim (Bool-cases (strips_root m)) [
    | inl strip ↦ rw (strip, if◌then◌else◌, e)
    | inr keep ↦ rw (keep, if◌then◌else◌, e)
  ]
