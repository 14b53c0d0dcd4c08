-- ===== src/Exec.antt =====
-- Python code with effects: a function of the state that returns a value or raises. What was
-- written before a raise stays written, so the state comes back beside the exception too.
use net_auto_ops.Base.{ℕ, ◌≡◌, refl}
use net_auto_ops.Base.Text.{Text}

-- The exceptions that the program raises or lets through.
pub data Exn : Type 0 where
  -- sqlalchemy: a violated constraint, any other failure, a use before the rollback
  integrity_error database_error pending_rollback_error : Exn
  unsupported_platform : Text → Exn
  netmiko_connection backup_command interface_command : Text → Exn
  webhook_not_configured : Exn
  webhook_delivery : Text → Exn
  os_error : Exn
  duplicate_ip device_not_found backup_not_found interface_not_found : Text → Exn
  username_taken email_taken user_not_found : Text → Exn
  invalid_credentials invalid_token : Text → Exn
  http : ℕ → Text → Exn
  -- any other exception, by the name of its type
  other : Text → Exn

pub data Result {ℓ} (A : Type ℓ) : Type ℓ where
  ok : A → Result A
  raised : Exn → Result A

-- `f(a)` of a value, or the exception that comes in its place
abbrev pub and_then {ℓ} : {A B : Type ℓ} → Result A → (A → Result B) → Result B
and_then (ok a) f = f a
and_then (raised e) f = raised e

abbrev pub Exec {ℓ} : Type ℓ → Type ℓ → Type ℓ
Exec S A = S → Result A × S

module _ {ℓ} {S A : Type ℓ} where
  abbrev pub pure : A → Exec S A
  pure a s = (ok a, s)

  abbrev pub raise : Exn → Exec S A
  raise e s = (raised e, s)

  abbrev pub lift : Result A → Exec S A
  lift r s = (r, s)

module _ {ℓ} {S A B : Type ℓ} where
  -- `try: x = m ... except ...`, with the rest of the function given for either outcome
  abbrev pub outcome : Exec S A → (Result A → Exec S B) → Exec S B
  outcome m k s = let (r, s') = m s in k r s'

  abbrev pub on_ok : (A → Exec S B) → Result A → Exec S B
  on_ok f (ok a) s = f a s
  on_ok f (raised e) s = (raised e, s)

  infixl 10 ◌>>=◌ ◌>>◌
  abbrev pub ◌>>=◌ : Exec S A → (A → Exec S B) → Exec S B
  m >>= f = outcome m (on_ok f)

  abbrev pub ◌>>◌ : Exec S A → Exec S B → Exec S B
  m >> n = m >>= λ _. n

  on_ok-eq_ok :
      (r : Result A) (f : A → Exec S B) (s : S) (b : B)
      → (on_ok f r s).0 ≡ ok b
      → (a : A) × (r ≡ ok a) × ((f a s).0 ≡ ok b)
  on_ok-eq_ok (ok a) f s b h = (a, refl, h)
  on_ok-eq_ok (raised e) f s b h = cc

  -- A sequence that returns has returned from each of its parts.
  pub >>=-eq-ok :
      (m : Exec S A) (f : A → Exec S B) (s : S) (b : B)
      → ((m >>= f) s).0 ≡ ok b
      → (a : A) × ((m s).0 ≡ ok a) × ((f a (m s).1).0 ≡ ok b)
  >>=-eq-ok m f s b h = on_ok-eq_ok (m s).0 f (m s).1 b h
