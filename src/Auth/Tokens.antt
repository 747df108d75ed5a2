-- ===== src/Auth/Tokens.antt =====
-- Token pairs and principals: services/backend/auth/jwt.py. Texts are lists of bytes. `jwt.encode`,
-- `jwt.decode` and `secrets.token_urlsafe` are parameters; the clock's value is an argument.
use neuralese.Prelude.{
  ℕ, ◌+◌, ◌≤◌, ◌<◌, ◌≡◌, refl, Bool, true, false, List, [], ◌∷◌, bytes_eq, bytes_beq, ◌==◌,
  if◌then◌else◌, Result, ok, err, ◌>>=◌, Bool-cases, inl, inr,
}

abbrev pub Text : Type 0
Text = List ℕ

abbrev pub is_empty : Text → Bool
is_empty [] = true
is_empty (c ∷ s) = false

-- `a or b`
abbrev pub or_else : Text → Text → Text
or_else a b = if is_empty a then b else a

pub data AuthError : Type 0 where
  missing_clerk_user_id missing_subject : AuthError
  expected_type : Text → AuthError
  -- whatever `jwt.decode` raises
  invalid_token : AuthError

pub record Settings : Type 0 where
  pub jwt_issuer : Text
  pub jwt_audience : Text
  pub jwt_secret : Text
  pub access_token_ttl_seconds : ℕ
  pub refresh_token_ttl_seconds : ℕ

pub record ClerkUser : Type 0 where
  pub clerk_user_id : Text
  pub email : Text
  pub display_name : Text

-- A token's payload; a claim that is not there is the empty text.
pub record Claims : Type 0 where
  pub iss : Text
  pub aud : Text
  pub sub : Text
  pub clerk_user_id : Text
  pub email : Text
  pub display_name : Text
  pub iat : ℕ
  pub nbf : ℕ
  pub typ : Text
  pub jti : Text
  pub exp : ℕ

pub record TokenPair : Type 0 where
  pub access_token : Text
  pub refresh_token : Text
  pub expires_in : ℕ
  pub refresh_expires_in : ℕ
  pub user_id : Text
  pub user : ClerkUser

pub record AuthPrincipal : Type 0 where
  pub user_id : Text
  pub clerk_user_id : Text
  pub email : Text
  pub display_name : Text
  pub token_id : Text

abbrev pub access : Text
access = b'a' ∷ b'c' ∷ b'c' ∷ b'e' ∷ b's' ∷ b's' ∷ []

abbrev pub refresh : Text
refresh = b'r' ∷ b'e' ∷ b'f' ∷ b'r' ∷ b'e' ∷ b's' ∷ b'h' ∷ []

-- "clerk:" + clerk_user_id
unfoldable pub subject : Text → Text
subject id = b'c' ∷ b'l' ∷ b'e' ∷ b'r' ∷ b'k' ∷ b':' ∷ id

-- The payload of one token of the pair.
unfoldable pub claims_of : Settings → ClerkUser → ℕ → Text → Text → ℕ → Claims
claims_of settings user issued_at typ jti ttl = record {
  iss = settings.jwt_issuer;
  aud = settings.jwt_audience;
  sub = subject user.clerk_user_id;
  clerk_user_id = user.clerk_user_id;
  email = user.email;
  display_name = or_else user.display_name (or_else user.email user.clerk_user_id);
  iat = issued_at;
  nbf = issued_at;
  typ = typ;
  jti = jti;
  exp = issued_at + ttl;
}

unfoldable pub principal_from_payload : Claims → Result AuthError AuthPrincipal
principal_from_payload p =
    if is_empty p.sub
    then err missing_subject
    else ok (record {
      user_id = p.sub;
      clerk_user_id = p.clerk_user_id;
      email = p.email;
      display_name = p.display_name;
      token_id = p.jti;
    })

unfoldable pub typed : Text → Claims → Result AuthError Claims
typed expected p = if p.typ == expected then ok p else err (expected_type expected)

-- `jwt.encode(payload, secret)`, and `jwt.decode(token, secret, audience, issuer)` at a time
module _ (encode : Claims → Text → Text)
    (decode : Text → Text → Text → Text → ℕ → Result AuthError Claims) where
  -- `access_id` and `refresh_id` are the two draws of `token_urlsafe`.
  unfoldable pub issue_token_pair :
      Settings → ClerkUser → ℕ → Text → Text → Result AuthError TokenPair
  issue_token_pair settings user issued_at access_id refresh_id =
      if is_empty user.clerk_user_id
      then err missing_clerk_user_id
      else ok (record {
        access_token =
            encode
              (claims_of settings user issued_at access access_id settings.access_token_ttl_seconds)
              settings.jwt_secret;
        refresh_token =
            encode
              (claims_of settings user issued_at refresh refresh_id
                settings.refresh_token_ttl_seconds)
              settings.jwt_secret;
        expires_in = settings.access_token_ttl_seconds;
        refresh_expires_in = settings.refresh_token_ttl_seconds;
        user_id = subject user.clerk_user_id;
        user = record user {
          display_name = or_else user.display_name (or_else user.email user.clerk_user_id);
        };
      })

  unfoldable pub decode_token : Settings → Text → Text → ℕ → Result AuthError Claims
  decode_token settings token expected now =
      decode token settings.jwt_secret settings.jwt_audience settings.jwt_issuer now
      >>= typed expected

  -- The last step of `require_principal`, on a token that is not empty
  unfoldable pub principal_of : Settings → Text → ℕ → Result AuthError AuthPrincipal
  principal_of settings token now =
      decode_token settings token access now >>= principal_from_payload

  -- What PyJWT documents, of one payload: the token is read back while the claims hold.
  abbrev pub Decodes : Claims → Text → Type 0
  Decodes p secret =
      (now : ℕ)
      → p.nbf ≤ now
      → p.iat ≤ now
      → now < p.exp
      → decode (encode p secret) secret p.aud p.iss now ≡ ok p

  module _ (settings : Settings) (user : ClerkUser) (issued_at now : ℕ)
      (access_id refresh_id : Text) where
    read_back :
        (typ jti : Text) (ttl : ℕ)
        → Decodes (claims_of settings user issued_at typ jti ttl) settings.jwt_secret
        → issued_at ≤ now
        → now < issued_at + ttl
        → decode
            (encode (claims_of settings user issued_at typ jti ttl) settings.jwt_secret)
            settings.jwt_secret
            settings.jwt_audience
            settings.jwt_issuer
            now
          ≡ ok (claims_of settings user issued_at typ jti ttl)
    unfolding claims_of
    read_back typ jti ttl decodes a b = decodes now a a b

    -- For a user with an id, the access token of the pair stands, until it runs out, for the principal
    -- with the id "clerk:" and the user's, and with the names of the user; for one without, no pair is
    -- issued.
    pub principal-issue :
        Decodes
          (claims_of settings user issued_at access access_id settings.access_token_ttl_seconds)
          settings.jwt_secret
        → issued_at ≤ now
        → now < issued_at + settings.access_token_ttl_seconds
        → (issue_token_pair settings user issued_at access_id refresh_id >>= λ pair.
            principal_of settings pair.access_token now)
          ≡ (if is_empty user.clerk_user_id
              then err missing_clerk_user_id
              else ok (record {
                user_id = subject user.clerk_user_id;
                clerk_user_id = user.clerk_user_id;
                email = user.email;
                display_name = or_else user.display_name (or_else user.email user.clerk_user_id);
                token_id = access_id;
              }))
    unfolding principal_of decode_token issue_token_pair typed principal_from_payload subject
        claims_of bytes_beq
    principal-issue decodes a b = elim (Bool-cases (is_empty user.clerk_user_id)) [
      | inl e ↦ rw e refl
      | inr e ↦
          rw (e, read_back access access_id settings.access_token_ttl_seconds decodes a b) refl
    ]

    -- The refresh token of a pair is refused where an access token is expected.
    pub principal-refresh :
        Decodes
          (claims_of settings user issued_at refresh refresh_id settings.refresh_token_ttl_seconds)
          settings.jwt_secret
        → issued_at ≤ now
        → now < issued_at + settings.refresh_token_ttl_seconds
        → (issue_token_pair settings user issued_at access_id refresh_id >>= λ pair.
            principal_of settings pair.refresh_token now)
          ≡ (if is_empty user.clerk_user_id
              then err missing_clerk_user_id
              else err (expected_type access))
    unfolding principal_of decode_token issue_token_pair typed claims_of bytes_beq
    principal-refresh decodes a b = elim (Bool-cases (is_empty user.clerk_user_id)) [
      | inl e ↦ rw e refl
      | inr e ↦
          rw (e, read_back refresh refresh_id settings.refresh_token_ttl_seconds decodes a b) refl
    ]
