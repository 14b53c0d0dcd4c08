-- ===== src/Security.antt =====
-- app/core/security.py: passwords and bearer tokens.
pub mod Tokens
use net_auto_ops.Base.{ℕ, zero, suc, ◌+◌, ◌*◌, Bool, Option, none, some, [], ◌∷◌}
use net_auto_ops.Base.Text.{Text, text}
use net_auto_ops.Exec.{Exn, other, invalid_token, Result, ok, raised, pure, raise}
use net_auto_ops.External.{Claims, Env}
use net_auto_ops.World.{World, Action}

abbrev pub value_error : Exn
value_error = other (text "ValueError")

abbrev or_value_error : {A : Type 0} → Option A → Result A
or_value_error (some a) = ok a
or_value_error none = raised value_error

-- Each hash has its own salt.
unfoldable pub hash_password : Env → Text → Action Text
hash_password env password w =
    (or_value_error (env.hashpw w.salts password), record w { salts = w.salts + 1 })

unfoldable pub verify_password : Env → Text → Text → Action Bool
verify_password env password hashed w = (or_value_error (env.checkpw password hashed), w)

-- `expires_delta or timedelta(minutes=...)`, in seconds: a delta of zero is falsy.
unfoldable pub lifetime : Env → Option ℕ → ℕ
lifetime env (some (suc n)) = suc n
lifetime env (some zero) = env.settings.jwt_access_token_expire_minutes * 60
lifetime env none = env.settings.jwt_access_token_expire_minutes * 60

unfoldable pub create_access_token : Env → Text → Option ℕ → Action Text
create_access_token env subject expires_delta w = (
  ok (
      env.jwt_encode (record { sub = some subject; exp = w.clock + lifetime env expires_delta })
        env.settings.jwt_secret_key env.settings.jwt_algorithm),
  w,
)

-- `payload.get("sub")`, missing or empty
abbrev subject_of : Option Text → Result Text
subject_of (some (c ∷ s)) = ok (c ∷ s)
subject_of _ = raised (invalid_token (text "Token missing subject claim"))

abbrev decoded : Option Claims → Result Text
decoded none = raised (invalid_token (text "Invalid or expired token"))
decoded (some payload) = subject_of payload.sub

unfoldable pub decode_access_token : Env → Text → Action Text
decode_access_token env token w = (
  decoded (env.jwt_decode w.clock token env.settings.jwt_secret_key env.settings.jwt_algorithm),
  w,
)
