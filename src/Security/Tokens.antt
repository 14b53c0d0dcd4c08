-- ===== src/Security/Tokens.antt =====
-- The tokens that `create_access_token` issues, read back by `decode_access_token`.
use net_auto_ops.Base.{ℕ, ◌+◌, ◌<◌, ◌≤◌, ◌≡◌, refl, sym, Option, none, some, ◌∷◌}
use net_auto_ops.Base.Text.{Text, text}
use net_auto_ops.Exec.{invalid_token, ok, raised}
use net_auto_ops.External.{Claims, Env}
use net_auto_ops.World.{World}
use net_auto_ops.Security.{lifetime, create_access_token, decode_access_token}

-- What PyJWT documents of a token with the settings' key and algorithm: it is decoded to its claims
-- before its `exp`, and refused from then on.
pub record IsJwt (env : Env) : Type 0 where
  pub fresh :
      (now : ℕ) (claims : Claims)
      → now < claims.exp
      → env.jwt_decode now
          (env.jwt_encode claims env.settings.jwt_secret_key env.settings.jwt_algorithm)
          env.settings.jwt_secret_key
          env.settings.jwt_algorithm
        ≡ some claims
  pub expired :
      (now : ℕ) (claims : Claims)
      → claims.exp ≤ now
      → env.jwt_decode now
          (env.jwt_encode claims env.settings.jwt_secret_key env.settings.jwt_algorithm)
          env.settings.jwt_secret_key
          env.settings.jwt_algorithm
        ≡ none

-- Under a JWT library that decodes its tokens before they expire and refuses them from then on, the
-- token issued for a subject that is not empty gives the subject back as long as its lifetime has
-- not passed, and is refused as invalid from then on.
pub decode_access_token-create_access_token :
    (env : Env) (c : ℕ) (s : Text) (expires_delta : Option ℕ) (w w' : World) (token : Text)
    → IsJwt env
    → (create_access_token env (c ∷ s) expires_delta w).0 ≡ ok token
    → (w'.clock < w.clock + lifetime env expires_delta
        → decode_access_token env token w' ≡ (ok (c ∷ s), w'))
      × (w.clock + lifetime env expires_delta ≤ w'.clock
          → decode_access_token env token w'
            ≡ (raised (invalid_token (text "Invalid or expired token")), w'))
unfolding create_access_token decode_access_token
decode_access_token-create_access_token env c s expires_delta w w' token jwt h =
    let claims : Claims = record {
      sub = some (c ∷ s);
      exp = w.clock + lifetime env expires_delta;
    } in
    let issued : env.jwt_encode claims env.settings.jwt_secret_key env.settings.jwt_algorithm
        ≡ token =
      cc in
    (
      (λ b. rw (sym issued, jwt.fresh w'.clock claims b) refl),
      (λ b. rw (sym issued, jwt.expired w'.clock claims b) refl),
    )
