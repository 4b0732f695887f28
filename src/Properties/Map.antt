-- ===== src/Properties/Map.antt =====
-- The properties of an exchange as a finite map from names to values, whatever the hash table behind
-- them looks like.
use libstomp.Prelude.{
  ◌≡◌, refl, ◌∙◌, ap, Option, none, some, List, [], ◌∷◌, Text, same_text, if◌then◌else◌,
}
use libstomp.Exec.{done, ◌>>=◌, pure, bind-done}
use libstomp.Platform.{Apr, HashLaws}
use libstomp.Machine.{State, M}
use libstomp.Properties.{
  ExchangeProperties, stomp_exchange_add, stomp_exchange_get, stomp_exchange_clear,
}

-- A call that changes the properties. To add null takes a name away.
pub data Edit : Type 0 where
  add : Text → Option Text → Edit
  clear : Edit

-- What the names stand for after a call, and after a list of calls.
abbrev pub edited : Edit → (Text → Option Text) → Text → Option Text
edited (add name value) view k = if same_text name k then value else view k
edited clear view k = none

abbrev pub all_edited : List Edit → (Text → Option Text) → Text → Option Text
all_edited [] view = view
all_edited (e ∷ es) view = all_edited es (edited e view)

module _ ⦃apr : Apr⦄ where
  unfoldable pub edit : Edit → ExchangeProperties apr → M (ExchangeProperties apr)
  unfolding stomp_exchange_add stomp_exchange_clear
  edit (add name value) properties = stomp_exchange_add properties name value
  edit clear properties = stomp_exchange_clear properties

  unfoldable pub edit_all : List Edit → ExchangeProperties apr → M (ExchangeProperties apr)
  unfolding edit
  edit_all [] properties = pure properties
  edit_all (e ∷ es) properties = do p ← edit e properties; edit_all es p

module _ ⦃apr : Apr⦄ (laws : HashLaws apr) where
  -- The table stands for the map.
  abbrev pub Views : apr.Hash → (Text → Option Text) → Type 0
  Views h view = (k : Text) → apr.hash_get h k ≡ view k

  edit-Views :
      (e : Edit) (h : apr.Hash) (view : Text → Option Text) (st : State apr)
      → Views h view
      → (h' : apr.Hash) × (edit e (record { hash = some h }) st
          ≡ done (record { hash = some h' }, st))
        × Views h' (edited e view)
  unfolding edit stomp_exchange_add stomp_exchange_clear
  edit-Views (add name value) h view st v = (
    apr.hash_set h name value,
    refl,
    λ k. laws.get-set h name k value ∙ ap (λ o. if same_text name k then value else o) (v k),
  )
  edit-Views clear h view st v = (apr.hash_clear h, refl, λ k. laws.get-clear h k)

  pub edit_all-Views :
      (es : List Edit) (h : apr.Hash) (view : Text → Option Text) (st : State apr)
      → Views h view
      → (h' : apr.Hash) × (edit_all es (record { hash = some h }) st
          ≡ done (record { hash = some h' }, st))
        × Views h' (all_edited es view)
  unfolding edit_all
  edit_all-Views [] h view st v = (h, refl, v)
  edit_all-Views (e ∷ es) h view st v =
      let one = edit-Views e h view st v in
      let rest = edit_all-Views es one.0 (edited e view) st one.2 in
      (rest.0, bind-done (edit e (record { hash = some h })) _ one.1 ∙ rest.1, rest.2)

  -- Hash tables are finite maps. Then any sequence of stomp_exchange_add and stomp_exchange_clear on
  -- properties with a table ends, and afterwards stomp_exchange_get gives for every name what the
  -- sequence makes of a function from names to values: the value added last since the last clear, if
  -- there is one, and what the name had before if there was no clear.
  pub edit_all-Map :
      (es : List Edit) (h : apr.Hash) (st : State apr)
      → (p : ExchangeProperties apr) × (edit_all es (record { hash = some h }) st ≡ done (p, st))
        × ((k : Text) → stomp_exchange_get p k st ≡ done (all_edited es (apr.hash_get h) k, st))
  unfolding stomp_exchange_get
  edit_all-Map es h st =
      let r = edit_all-Views es h (apr.hash_get h) st (λ k. refl) in
      (record { hash = some r.0 }, r.1, λ k. ap (λ o. done (o, st)) (r.2 k))
