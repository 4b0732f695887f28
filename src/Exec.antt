-- ===== src/Exec.antt =====
-- Computations on a state that end with a value, fault (a null dereference, a read or write outside
-- an object), or use up the fuel of a loop.
use mathlib.Core.Path.{subst}
use libstomp.Prelude.{
  Bool, true, false, sym, ℕ, ◌≡◌, ◌≢◌, refl, ◌∙◌, Option, none, some, ◌==◌, if◌then◌else◌, arith,
}

pub data Outcome (A : Type 0) : Type 0 where
  done : A → Outcome A
  fault : Outcome A
  out_of_fuel : Outcome A

abbrev pub Exec : Type 0 → Type 0 → Type 0
Exec S A = S → Outcome (A × S)

infixl 5 ◌>>=◌ ◌>>◌
abbrev pub ◌>>=◌ : {S A B : Type 0} → Exec S A → (A → Exec S B) → Exec S B
◌>>=◌ m f s = elim (m s) [ done (a, s') ↦ f a s' | fault ↦ fault | out_of_fuel ↦ out_of_fuel ]

abbrev pub ◌>>◌ : {S B : Type 0} → Exec S (Unit {0}) → Exec S B → Exec S B
m >> k = m >>= λ _. k

abbrev pub pure : {S A : Type 0} → A → Exec S A
pure a s = done (a, s)

abbrev pub crash : {S A : Type 0} → Exec S A
crash s = fault

abbrev pub stuck : {S A : Type 0} → Exec S A
stuck s = out_of_fuel

-- `*p` for a pointer that may be null.
abbrev pub deref : {S A : Type 0} → Option A → Exec S A
deref none s = fault
deref (some a) s = done (a, s)

-- `rc = m; if (rc != APR_SUCCESS) goto err_exit; …`, as `m ⊳ …`.
infixr 6 ◌⊳◌
abbrev pub ◌⊳◌ : {S : Type 0} → Exec S ℕ → Exec S ℕ → Exec S ℕ
m ⊳ k = m >>= λ rc. if rc == 0 then k else pure rc

-- It ends with a value, and the value meets `P`.
abbrev pub Returns : {A : Type 0} → (A → Type 0) → Outcome A → Type 0
Returns P (done a) = P a
Returns P fault = ⊥
Returns P out_of_fuel = ⊥

-- Where it ends with a value, the value meets `P`.
abbrev pub IfDone : {A : Type 0} → (A → Type 0) → Outcome A → Type 0
IfDone P (done a) = P a
IfDone P fault = Unit
IfDone P out_of_fuel = Unit

-- What follows a computation that ends, and the two ways on after a status.
module _ {S A B : Type 0} (m : Exec S A) (f : A → Exec S B) {s s' : S} {a : A} where
  pub bind-done : m s ≡ done (a, s') → (m >>= f) s ≡ f a s'
  bind-done e = rw (e, ◌>>=◌)

module _ {S : Type 0} (m k : Exec S ℕ) {s s' : S} {rc : ℕ} (e : m s ≡ done (rc, s')) where
  pub then-success : rc ≡ 0 → (m ⊳ k) s ≡ k s'
  then-success z = bind-done m _ e ∙ rw z

  pub then-failure : rc ≢ 0 → (m ⊳ k) s ≡ done (rc, s')
  then-failure z = bind-done m _ e ∙ ground arith

-- What is known of the result of a computation, carried on to what follows it.
pub Returns-map :
    {A : Type 0} (P Q : A → Type 0) (o : Outcome A)
    → ((a : A) → P a → Q a)
    → Returns P o
    → Returns Q o
Returns-map P Q (done a) f h = f a h
Returns-map P Q fault f h = h
Returns-map P Q out_of_fuel f h = h

pub Returns-value :
    {A : Type 0} (P : A → Type 0) (o : Outcome A) → Returns P o → (a : A) × (o ≡ done a) × P a
Returns-value P (done a) h = (a, refl, h)
Returns-value P fault h = elim h [ ]
Returns-value P out_of_fuel h = elim h [ ]

pub Returns-IfDone :
    {A : Type 0} (P Q : A → Type 0) (o : Outcome A)
    → Returns P o
    → IfDone Q o
    → Returns (λ a. P a × Q a) o
Returns-IfDone P Q (done a) h k = (h, k)
Returns-IfDone P Q fault h k = h
Returns-IfDone P Q out_of_fuel h k = h

pub Returns-both :
    {A : Type 0} (P Q : A → Type 0) (o : Outcome A)
    → Returns P o
    → Returns Q o
    → Returns (λ a. P a × Q a) o
Returns-both P Q (done a) h k = (h, k)
Returns-both P Q fault h k = h
Returns-both P Q out_of_fuel h k = h

pub Returns-eq :
    {A : Type 0} (P : A → Type 0) {o o' : Outcome A} → o ≡ o' → Returns P o' → Returns P o
Returns-eq P e = subst (Returns P) (sym e)

module _ {S A B : Type 0} (P : A × S → Type 0) (Q : B × S → Type 0) (f : A → Exec S B)
    (rest : (a : A) (u : S) → P (a, u) → Returns Q (f a u)) where
  Returns-then :
      (o : Outcome (A × S))
      → Returns P o
      → Returns Q (elim o [ done (a, s') ↦ f a s' | fault ↦ fault | out_of_fuel ↦ out_of_fuel ])
  Returns-then (done (a, u)) h = rest a u h
  Returns-then fault h = h
  Returns-then out_of_fuel h = h

  pub Returns-bind : (m : Exec S A) (s : S) → Returns P (m s) → Returns Q ((m >>= f) s)
  Returns-bind m s h = Returns-then (m s) h

-- Every value that it ends with, from any state, meets `Q`; one rule for each way to go on.
pub record Ensures {S A : Type 0} (Q : A → Type 0) (m : Exec S A) : Type 0 where
  pub at : (s : S) → IfDone (λ r. Q r.0) (m s)

module _ {S A B : Type 0} {Q : B → Type 0} where
  Ensures-then :
      (f : A → Exec S B) (rest : (a : A) → Ensures Q (f a)) (o : Outcome (A × S))
      → IfDone
          (λ r. Q r.0)
          (elim o [ done (a, s') ↦ f a s' | fault ↦ fault | out_of_fuel ↦ out_of_fuel ])
  Ensures-then f rest (done (a, u)) = (rest a).at u
  Ensures-then f rest fault = tt
  Ensures-then f rest out_of_fuel = tt

  pub Ensures-bind :
      (m : Exec S A) (f : A → Exec S B) → ((a : A) → Ensures Q (f a)) → Ensures Q (m >>= f)
  Ensures-bind m f rest = record { at = λ s. Ensures-then f rest (m s) }

module _ {S A B : Type 0} {P : A → Type 0} {Q : B → Type 0} where
  Ensures-then_with :
      (f : A → Exec S B) (rest : (a : A) → P a → Ensures Q (f a)) (o : Outcome (A × S))
      → IfDone (λ r. P r.0) o
      → IfDone
          (λ r. Q r.0)
          (elim o [ done (a, s') ↦ f a s' | fault ↦ fault | out_of_fuel ↦ out_of_fuel ])
  Ensures-then_with f rest (done (a, u)) h = (rest a h).at u
  Ensures-then_with f rest fault h = tt
  Ensures-then_with f rest out_of_fuel h = tt

  pub Ensures-bind_with :
      (m : Exec S A) (f : A → Exec S B)
      → Ensures P m
      → ((a : A) → P a → Ensures Q (f a))
      → Ensures Q (m >>= f)
  Ensures-bind_with m f first rest = record {
    at = λ s. Ensures-then_with f rest (m s) (first.at s);
  }

module _ {S A : Type 0} {Q : A → Type 0} where
  pub Ensures-if :
      (b : Bool) (m n : Exec S A) → Ensures Q m → Ensures Q n → Ensures Q (if b then m else n)
  Ensures-if true m n h k = h
  Ensures-if false m n h k = k

  pub Ensures-elim :
      (b : Bool) (m n : Exec S A)
      → Ensures Q m
      → Ensures Q n
      → Ensures Q (elim b [ true ↦ m | false ↦ n ])
  Ensures-elim true m n h k = h
  Ensures-elim false m n h k = k

module _ {S A : Type 0} {P Q : A → Type 0} (m : Exec S A) (f : (a : A) → P a → Q a) where
  IfDone-map : (o : Outcome (A × S)) → IfDone (λ r. P r.0) o → IfDone (λ r. Q r.0) o
  IfDone-map (done (a, s)) h = f a h
  IfDone-map fault h = tt
  IfDone-map out_of_fuel h = tt

  pub Ensures-map : Ensures P m → Ensures Q m
  Ensures-map h = record { at = λ s. IfDone-map (m s) (h.at s) }

pub Ensures-done :
    {S A : Type 0} (Q : A → Type 0) (m : Exec S A) {a : A} {s s' : S}
    → Ensures Q m
    → m s ≡ done (a, s')
    → Q a
Ensures-done Q m {a} {s} {s'} h e = subst (IfDone (λ r. Q r.0)) e (h.at s)
