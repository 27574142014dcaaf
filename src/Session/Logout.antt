-- ===== src/Session/Logout.antt =====
-- Logging out: nav-user.tsx of both applications (src/components) and app/api/logout/route.ts. The
-- buffers of unsent text are cleared first, then the cookie is deleted by the server.
use meadow_ops.Base.{◌≡◌, refl, String, Bool, true, false, Option, none, some, if◌then◌else◌, arith}
use meadow_ops.Draft.{WebStorage, clear_all_draft_buffers, load_draft_buffer}
use meadow_ops.Draft.Laws.{load-clear_all}
use meadow_ops.Session.{
  redirect, is_authed, is_matched, middleware, is_admin, serve, serve_orbynadmin, browse,
}
use meadow_ops.Session.Gates.{browse-orbynadmin, dashboard_end, sign_in_shown}

-- Whether the POST of the log-out is answered, or its fetch throws.
pub data LogoutAnswer : Type 0 where
  logged_out threw : LogoutAnswer

-- A tab of the browser: its storage, the session cookie, and the path of its page.
pub record Tab (Store : Type 0) : Type 0 where
  pub store : Store
  pub cookie : Option String
  pub path : String

-- `response.cookies.delete(SESSION_COOKIE)`
unfoldable pub post_logout : Option String → Option String
post_logout cookie = none

-- The sign-in page sends a tab with a cookie to the dashboard.
sent_back :
    (in_dashboard : String → Bool) (role_of : Option String → Option String)
    (cookie : Option String)
    → in_dashboard "/sign-in" ≡ false
    → in_dashboard "/dashboard" ≡ true
    → is_authed cookie ≡ true
    → browse (serve in_dashboard role_of) 3 cookie "/sign-in"
      ≡ some (if is_admin (role_of cookie) then ("/dashboard", cookie) else ("/sign-in", none))
unfolding browse
sent_back in_dashboard role_of cookie out inside session =
    let answer : serve in_dashboard role_of cookie "/sign-in" ≡ redirect "/dashboard" =
      unfold serve middleware is_matched in ground arith in
    rw answer
      (dashboard_end in_dashboard role_of 0 cookie "/dashboard" out inside session refl refl)

module _ (w : WebStorage) where
  open w use {Store}

  -- orbynadmin's `handleLogOut`: an exception is not caught, so nothing follows it.
  unfoldable pub log_out : LogoutAnswer → Tab Store → Tab Store
  unfolding clear_all_draft_buffers post_logout
  log_out logged_out t = record {
    store = clear_all_draft_buffers w t.store;
    cookie = post_logout t.cookie;
    path = "/login";
  }
  log_out threw t = record t { store = clear_all_draft_buffers w t.store }

  -- The Builder's: the tab goes to the sign-in page in any case.
  unfoldable pub log_out_builder : LogoutAnswer → Tab Store → Tab Store
  unfolding clear_all_draft_buffers post_logout
  log_out_builder logged_out t = record {
    store = clear_all_draft_buffers w t.store;
    cookie = post_logout t.cookie;
    path = "/sign-in";
  }
  log_out_builder threw t = record t {
    store = clear_all_draft_buffers w t.store;
    path = "/sign-in";
  }

  -- Logging out of orbynadmin that is answered ends on the login page, with no cookie and no thread's
  -- unsent text; if its fetch throws the texts are gone all the same, and the tab stays where it was,
  -- with its session.
  pub log_out_lem :
      (t : Tab Store) (id : String)
      → let out = log_out logged_out t in
        let stuck = log_out threw t in
        (browse serve_orbynadmin 1 out.cookie out.path ≡ some ("/login", none))
        × (load_draft_buffer w out.store id ≡ none)
        × (load_draft_buffer w stuck.store id ≡ none)
        × (stuck.cookie ≡ t.cookie)
        × (stuck.path ≡ t.path)
  unfolding log_out is_matched post_logout
  log_out_lem t id = (
    rw (browse-orbynadmin none "/login") refl,
    load-clear_all w t.store id,
    load-clear_all w t.store id,
    refl,
    refl,
  )

  -- Logging out of the Builder's application, with a sign-in page that is no page of the dashboard:
  -- if it is answered, the browser ends on the sign-in page with no cookie; if its fetch throws, a
  -- session that is still an admin's leads back to the dashboard, still signed in, and any other
  -- cookie is deleted on the way. No thread's unsent text is left in either case.
  pub log_out_builder_end :
      (in_dashboard : String → Bool) (role_of : Option String → Option String) (t : Tab Store)
      (id : String)
      → in_dashboard "/sign-in" ≡ false
      → in_dashboard "/dashboard" ≡ true
      → is_authed t.cookie ≡ true
      → let out = log_out_builder logged_out t in
        let stuck = log_out_builder threw t in
        (browse (serve in_dashboard role_of) 3 out.cookie out.path ≡ some ("/sign-in", none))
        × (browse (serve in_dashboard role_of) 3 stuck.cookie stuck.path
            ≡ some (
                if is_admin (role_of t.cookie)
                then ("/dashboard", t.cookie)
                else ("/sign-in", none)))
        × (load_draft_buffer w out.store id ≡ none)
        × (load_draft_buffer w stuck.store id ≡ none)
  unfolding log_out_builder post_logout
  log_out_builder_end in_dashboard role_of t id out inside session = (
    sign_in_shown in_dashboard role_of 3 none out refl,
    sent_back in_dashboard role_of t.cookie out inside session,
    load-clear_all w t.store id,
    load-clear_all w t.store id,
  )
