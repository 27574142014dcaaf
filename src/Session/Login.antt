-- ===== src/Session/Login.antt =====
-- POST /api/login and POST /api/logout of both applications (app/api/login/route.ts,
-- app/api/logout/route.ts). The backend's login endpoint is a parameter: its answer to an email and
-- a password.
use meadow_ops.Base.{
  ℕ, ◌≡◌, refl, ◌⊎◌, inl, inr, String, Bool, true, false, Option, none, some, ◌==◌, eq_iff, nat_eq,
  if◌then◌else◌, truthy, arith, Option-cases, eq_refl,
}
use mathlib.Core.Option.{none-ne-some}
use meadow_ops.Base.Json.{Json, str, get, as_text, or_default}

-- What `request.json()` yields, if it does not throw.
pub data RequestBody : Type 0 where
  malformed : RequestBody
  parsed : Json → RequestBody

-- The backend's answer: not ok, with its status and its body (`{}` where it is no JSON), or ok, with
-- the token and the role.
pub data BackendAnswer : Type 0 where
  denied : ℕ → Json → BackendAnswer
  granted : String → Option Json → BackendAnswer

-- The response: its status, its detail, and the session cookie that it sets.
pub data LoginResponse : Type 0 where
  failed : ℕ → Json → LoginResponse
  signed_in : String → LoginResponse

abbrev pub set_cookie : LoginResponse → Option String
set_cookie (failed status detail) = none
set_cookie (signed_in token) = some token

abbrev pub status : LoginResponse → ℕ
status (failed n detail) = n
status (signed_in token) = 200

-- The credentials of a body, if both are texts.
abbrev pub both : Option String → Option String → Option (String × String)
both (some email) (some password) = some (email, password)
both (some email) none = none
both none p = none

unfoldable pub credentials : Json → Option (String × String)
credentials body = both (as_text (get "email" body)) (as_text (get "password" body))

module _ (login : String → String → BackendAnswer) where
  abbrev pub refusal : ℕ → Json → LoginResponse
  refusal n body =
      failed (if nat_eq n 429 then 429 else 401)
        (or_default (get "detail" body) (str "Sign in failed"))

  abbrev pub finish : BackendAnswer → LoginResponse
  finish (denied n body) = refusal n body
  finish (granted token role) = signed_in token

  -- The Builder's application: only an admin is signed in.
  abbrev pub is_admin_role : Option String → Bool
  is_admin_role none = false
  is_admin_role (some role) = role == "admin"

  abbrev pub finish_builder : BackendAnswer → LoginResponse
  finish_builder (denied n body) = refusal n body
  finish_builder (granted token role) =
      if is_admin_role (as_text role)
      then signed_in token
      else failed 401 (str "This workspace is available to Builder (admin) accounts only")

  abbrev pub ask : (BackendAnswer → LoginResponse) → Option (String × String) → LoginResponse
  ask k none = failed 400 (str "Invalid request body")
  ask k (some (email, password)) = k (login email password)

  abbrev pub check : (BackendAnswer → LoginResponse) → Bool → RequestBody → LoginResponse
  check k false body = failed 500 (str "Server is not configured")
  check k true malformed = failed 400 (str "Invalid request body")
  check k true (parsed body) = ask k (credentials body)

  -- `base_url` is the environment's, absent or empty where it is not set.
  abbrev pub configured : Option String → Bool
  configured none = false
  configured (some url) = truthy url

  unfoldable pub post_login : Option String → RequestBody → LoginResponse
  unfolding credentials
  post_login base_url body = check finish (configured base_url) body

  unfoldable pub post_login_builder : Option String → RequestBody → LoginResponse
  unfolding credentials
  post_login_builder base_url body = check finish_builder (configured base_url) body

  ask_cookie :
      (k : BackendAnswer → LoginResponse) (c : Option (String × String)) (token : String)
      → set_cookie (ask k c) ≡ some token
      → (email : String) × (password : String) × (c ≡ some (email, password))
        × (set_cookie (k (login email password)) ≡ some token)
  ask_cookie k none token e = cc
  ask_cookie k (some (email, password)) token e = (email, password, refl, e)

  check_cookie :
      (k : BackendAnswer → LoginResponse) (on : Bool) (body : RequestBody) (token : String)
      → set_cookie (check k on body) ≡ some token
      → (email : String) × (password : String) × (value : Json) × (body ≡ parsed value)
        × (credentials value ≡ some (email, password))
        × (set_cookie (k (login email password)) ≡ some token)
  check_cookie k false body token e = cc
  check_cookie k true malformed token e = cc
  check_cookie k true (parsed value) token e =
      let (email, password, given, set) = ask_cookie k (credentials value) token e in
      (email, password, value, refl, given, set)

  finish_cookie :
      (a : BackendAnswer) (token : String)
      → set_cookie (finish a) ≡ some token
      → (role : Option Json) × (a ≡ granted token role)
  finish_cookie (denied n body) token e = cc
  finish_cookie (granted t role) token e = (role, ground arith)

  finish_builder_cookie :
      (a : BackendAnswer) (token : String)
      → set_cookie (finish_builder a) ≡ some token
      → (role : Option Json) × (a ≡ granted token role) × (as_text role ≡ some "admin")
  finish_builder_cookie (denied n body) token e = cc
  finish_builder_cookie (granted t role) token e = elim (Option-cases (as_text role)) [
    | inl missing ↦ absurd (none-ne-some token (rw missing at e))
    | inr (r, found) ↦ (role, ground (arith, eq_iff r "admin"), ground (arith, eq_iff r "admin"))
  ]

  -- orbynadmin sets a cookie only to a token that the backend granted for the email and the password
  -- of the request's body.
  pub post_login-cookie :
      (base_url : Option String) (body : RequestBody) (token : String)
      → set_cookie (post_login base_url body) ≡ some token
      → (email : String) × (password : String) × (value : Json) × (role : Option Json) × (body
          ≡ parsed value)
        × (credentials value ≡ some (email, password))
        × (login email password ≡ granted token role)
  unfolding post_login
  post_login-cookie base_url body token e =
      let (email, password, value, is_json, given, set) =
        check_cookie finish (configured base_url) body token e in
      let (role, grant) = finish_cookie (login email password) token set in
      (email, password, value, role, is_json, given, grant)

  -- The Builder's application sets a cookie only to a token that the backend granted, to an admin,
  -- for the email and the password of the request's body.
  pub post_login_builder-cookie :
      (base_url : Option String) (body : RequestBody) (token : String)
      → set_cookie (post_login_builder base_url body) ≡ some token
      → (email : String) × (password : String) × (value : Json) × (role : Option Json) × (body
          ≡ parsed value)
        × (credentials value ≡ some (email, password))
        × (login email password ≡ granted token role)
        × (as_text role ≡ some "admin")
  unfolding post_login_builder
  post_login_builder-cookie base_url body token e =
      let (email, password, value, is_json, given, set) =
        check_cookie finish_builder (configured base_url) body token e in
      let (role, grant, admin) = finish_builder_cookie (login email password) token set in
      (email, password, value, role, is_json, given, grant, admin)

  -- A grant to an admin signs in: the response has status 200 and the cookie is the token.
  pub post_login_builder_admin :
      (url email password token : String) (value : Json) (role : Option Json)
      → truthy url ≡ true
      → credentials value ≡ some (email, password)
      → login email password ≡ granted token role
      → as_text role ≡ some "admin"
      → post_login_builder (some url) (parsed value) ≡ signed_in token
  unfolding post_login_builder
  post_login_builder_admin url email password token value role on given grant admin =
      ground (arith, eq_refl "admin")

  status_cases :
      (on : Bool) (body : RequestBody)
      → let n = status (check finish_builder on body) in
        (n ≡ 200) ⊎ (n ≡ 400) ⊎ (n ≡ 401) ⊎ (n ≡ 429) ⊎ (n ≡ 500)
  unfolding credentials
  status_cases false body = ground arith
  status_cases true malformed = ground arith
  status_cases true (parsed value) = ground arith

  -- A sign-in is answered with status 200, 400, 401, 429 or 500.
  pub post_login_builder-status :
      (base_url : Option String) (body : RequestBody)
      → let n = status (post_login_builder base_url body) in
        (n ≡ 200) ⊎ (n ≡ 400) ⊎ (n ≡ 401) ⊎ (n ≡ 429) ⊎ (n ≡ 500)
  unfolding post_login_builder
  post_login_builder-status base_url body = status_cases (configured base_url) body
