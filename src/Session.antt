-- ===== src/Session.antt =====
-- The sessions of the two applications. orbynadmin: frontend/subsystem_1/orbynadmin/src/{proxy.ts,
-- lib/current-user.ts, app/api/login/route.ts, app/api/logout/route.ts}. The Builder's application:
-- frontend/subsystem_2/shadcn-dashboard/nextjs-version/src/{middleware.ts, lib/current-user.ts,
-- app/(dashboard)/layout.tsx, app/api/session-expired/route.ts, app/api/login/route.ts}.
-- Here: the gates and what a browser that follows their redirects reaches.
pub mod Login
pub mod Gates
pub mod Logout
mod Tests
use meadow_ops.Base.{
  ℕ, zero, suc, String, Bool, true, false, not, ◌&&◌, ◌||◌, Option, none, some, List, [], ◌∷◌, ◌==◌,
  if◌then◌else◌, truthy,
}
use meadow_ops.Base.Json.{Json, get, as_text}
use text.Mathlib.Text.{starts_with}

-- The answer of the server to the request of a page: the page, or a redirect that keeps the session
-- cookie, or one that deletes it.
pub data Answer : Type 0 where
  page : Answer
  redirect : String → Answer
  redirect_deleting : String → Answer

-- `Boolean(request.cookies.get(SESSION_COOKIE)?.value)`
abbrev pub is_authed : Option String → Bool
is_authed none = false
is_authed (some token) = truthy token

-- The paths that `config.matcher` selects, in both applications. The dot in `favicon.ico`, which the
-- regular expression reads as any character, stands for itself here.
unfoldable pub is_matched : String → Bool
is_matched path = not (
    starts_with path "/api"
    || starts_with path "/_next/static"
    || starts_with path "/_next/image"
    || starts_with path "/favicon.ico")

-- proxy.ts
unfoldable pub proxy : Option String → String → Answer
proxy cookie path =
    if not (is_authed cookie) && not (path == "/login")
    then redirect "/login"
    else if is_authed cookie && path == "/login"
    then redirect "/dashboard"
    else page

-- middleware.ts
unfoldable pub middleware : Option String → String → Answer
middleware cookie path =
    if path == "/login"
    then redirect "/sign-in"
    else if not (is_authed cookie) && not (path == "/sign-in")
    then redirect "/sign-in"
    else if is_authed cookie && path == "/sign-in"
    then redirect "/dashboard"
    else page

-- The backend's answer to GET /api/v1/me.
pub data MeAnswer : Type 0 where
  me_threw : MeAnswer
  me_refused : MeAnswer
  me_ok : Json → MeAnswer

abbrev pub me_role : MeAnswer → Option String
me_role me_threw = none
me_role me_refused = none
me_role (me_ok body) = as_text (get "role" body)

-- `getCurrentRole` of the Builder's application: an exception reads as no session.
unfoldable pub current_role : (String → MeAnswer) → Option String → Option String → Option String
current_role me base_url none = none
current_role me none (some token) = none
current_role me (some base_url) (some token) =
    if truthy token && truthy base_url then me_role (me token) else none

abbrev pub is_admin : Option String → Bool
is_admin none = false
is_admin (some role) = role == "admin"

-- (dashboard)/layout.tsx
unfoldable pub dashboard_layout : Option String → Answer
dashboard_layout role = if is_admin role then page else redirect "/api/session-expired"

-- app/api/session-expired/route.ts
unfoldable pub session_expired : Answer
session_expired = redirect_deleting "/sign-in"

-- The Builder's application: the matched paths go through the middleware first, and a page of the
-- (dashboard) group through its layout. `in_dashboard` is the framework's routing of pages.
module _ (in_dashboard : String → Bool) (role_of : Option String → Option String) where
  abbrev pub page_of : String → Option String → Answer → Answer
  page_of path cookie page = if in_dashboard path then dashboard_layout (role_of cookie) else page
  page_of path cookie other = other

  unfoldable pub serve : Option String → String → Answer
  unfolding middleware dashboard_layout session_expired
  serve cookie path =
      if path == "/api/session-expired"
      then session_expired
      else if is_matched path
      then page_of path cookie (middleware cookie path)
      else page_of path cookie page

-- orbynadmin: no layout redirects.
unfoldable pub serve_orbynadmin : Option String → String → Answer
unfolding proxy
serve_orbynadmin cookie path = if is_matched path then proxy cookie path else page

-- Where a browser ends that follows at most `n` redirects, and with which cookie; `none` if it is
-- redirected again after them.
abbrev pub follow :
    (Option String → String → Option (String × Option String))
    → Option String
    → String
    → Answer
    → Option (String × Option String)
follow next cookie path page = some (path, cookie)
follow next cookie path (redirect to) = next cookie to
follow next cookie path (redirect_deleting to) = next none to

unfoldable pub browse :
    (Option String → String → Answer) → ℕ → Option String → String → Option (String × Option String)
browse server zero cookie path = follow (λ c p. none) cookie path (server cookie path)
browse server (suc n) cookie path = follow (browse server n) cookie path (server cookie path)
