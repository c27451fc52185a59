-- ===== src/Prelude/Calls.antt =====
-- Calls that may raise. An exception that leaves a service function ends the request, and the session is
-- rolled back (src/core/database.py, get_db): so an error carries no state.
use mathlib.Core.Path.{◌≡◌, refl, ap}
use mathlib.Core.Bool.{Bool, true, false}
use mathlib.Core.Option.{Option, none, some}
use Prim.Native.Nat.{ℕ}
use oms_wms_tms.Prelude.Tests.{if◌then◌else◌}

-- The exceptions of src/core/exceptions.py that the services raise, and those of the libraries below them.
-- Their messages are left out.
pub data Error : Type 0 where
  not_found validation : Error
  value_error type_error index_error invalid_operation missing_greenlet integrity_error
        multiple_results :
      Error

pub data Result {ℓ} (A : Type ℓ) : Type ℓ where
  ok : A → Result A
  err : Error → Result A

abbrev pub or_raise {ℓ} : {A : Type ℓ} → Option A → Error → Result A
or_raise none e = err e
or_raise (some a) e = ok a

-- A database call: it reads and changes the tables `S`, or raises.
abbrev pub Txn : Type 0 → Type 0 → Type 0
Txn S A = S → Result (A × S)

module _ {S A : Type 0} where
  abbrev pub pure : A → Txn S A
  pure a s = ok (a, s)

  abbrev pub lift : Result A → Txn S A
  lift (ok a) s = ok (a, s)
  lift (err e) s = err e

  abbrev pub gets : (S → A) → Txn S A
  gets f s = ok (f s, s)

module _ {S : Type 0} where
  abbrev pub modify : (S → S) → Txn S (Unit {0})
  modify f s = ok (tt, f s)

  abbrev pub raise_if : Bool → Error → Txn S (Unit {0})
  raise_if true e s = err e
  raise_if false e s = ok (tt, s)

abbrev next : {S A B : Type 0} → (A → Txn S B) → Result (A × S) → Result (B × S)
next f (ok (a, s)) = f a s
next f (err e) = err e

infixl 5 ◌>>=◌ ◌>>◌
abbrev pub ◌>>=◌ : {S A B : Type 0} → Txn S A → (A → Txn S B) → Txn S B
◌>>=◌ m f s = next f (m s)

abbrev pub ◌>>◌ : {S A B : Type 0} → Txn S A → Txn S B → Txn S B
m >> k = m >>= λ _. k

-- One step of a call whose first part is known.
pub bind_ok :
    {S A B : Type 0} {a : A} {s' : S} (m : Txn S A) (f : A → Txn S B) (s : S)
    → m s ≡ ok (a, s')
    → (m >>= f) s ≡ f a s'
bind_ok m f s h = ap (next f) h

pub bind_err :
    {S A B : Type 0} {e : Error} (m : Txn S A) (f : A → Txn S B) (s : S)
    → m s ≡ err e
    → (m >>= f) s ≡ err e
bind_err m f s h = ap (next f) h

-- What a request leaves in the tables, where a call that raises is rolled back.
abbrev pub left_by : {S A : Type 0} → Result (A × S) → S → S
left_by (ok (a, s')) s = s'
left_by (err e) s = s

abbrev pub committed : {S A : Type 0} → Txn S A → S → S
committed m s = left_by (m s) s

-- A condition on what a call returns and on the tables it leaves; a call that raises has nothing to show.
abbrev pub Ensures : {A S : Type 0} → Result (A × S) → (A → S → Type 0) → Type 0
Ensures (ok (a, s)) P = P a s
Ensures (err e) P = Unit

-- What `uuid.UUID` makes of an id in a request: none where the text is malformed.
abbrev pub RawId : Type 0
RawId = Option ℕ

pub ok-injective {ℓ} : {A : Type ℓ} {a b : A} → ok a ≡ ok b → a ≡ b
ok-injective e = cc

-- A guarded result that is there.
pub accepted {ℓ} :
    {A : Type ℓ} (e : Error) (b : Bool) (x y : A)
    → (if b then ok x else err e) ≡ ok y
    → (b ≡ true) × (x ≡ y)
accepted e true x y h = (refl, ok-injective h)
accepted e false x y h = cc

pub passed {ℓ} :
    {A : Type ℓ} (e : Error) (b : Bool) (x : Result A) (y : A)
    → (if b then x else err e) ≡ ok y
    → (b ≡ true) × (x ≡ ok y)
passed e true x y h = (refl, h)
passed e false x y h = cc
