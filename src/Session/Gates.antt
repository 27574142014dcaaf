-- ===== src/Session/Gates.antt =====
-- Redirects end, and where.
use meadow_ops.Base.{
  ℕ, zero, suc, ◌≡◌, refl, String, Bool, true, false, Option, none, some, ◌==◌, eq_iff,
  if◌then◌else◌, arith, Bool-cases, inl, inr,
}
use meadow_ops.Session.{
  Answer, page, redirect, redirect_deleting, is_authed, is_matched, is_admin, serve,
  serve_orbynadmin, browse, follow,
}

-- In orbynadmin a request is redirected at most once: without a session to the login page, and with
-- one from the login page to the dashboard. The cookie is never changed.
pub browse-orbynadmin :
    (cookie : Option String) (path : String)
    → browse serve_orbynadmin 1 cookie path
      ≡ some (
        (if is_matched path
            then (if is_authed cookie
                then (if path == "/login" then "/dashboard" else path)
                else "/login")
            else path),
        cookie,
      )
unfolding browse serve_orbynadmin is_matched
browse-orbynadmin cookie path = ground (arith, eq_iff path "/login")

module _ (in_dashboard : String → Bool) (role_of : Option String → Option String) where
  -- A request of the sign-in page without a usable cookie is answered with the page.
  pub sign_in_shown :
      (n : ℕ) (cookie : Option String)
      → in_dashboard "/sign-in" ≡ false
      → is_authed cookie ≡ false
      → browse (serve in_dashboard role_of) n cookie "/sign-in" ≡ some ("/sign-in", cookie)
  unfolding browse serve
  sign_in_shown zero cookie out no_session = ground arith
  sign_in_shown (suc n) cookie out no_session = ground arith

  expired :
      (n : ℕ) (cookie : Option String)
      → in_dashboard "/sign-in" ≡ false
      → browse (serve in_dashboard role_of) (suc n) cookie "/api/session-expired"
        ≡ some ("/sign-in", none)
  unfolding browse serve
  expired n cookie out = sign_in_shown n none out refl

  -- If the sign-in page is no page of the dashboard: a page of the dashboard that is requested with
  -- a cookie, other than /login and /api/session-expired, is shown to an admin; any other cookie is
  -- deleted, and the browser ends on the sign-in page.
  pub dashboard_end :
      (n : ℕ) (cookie : Option String) (path : String)
      → in_dashboard "/sign-in" ≡ false
      → in_dashboard path ≡ true
      → is_authed cookie ≡ true
      → path == "/login" ≡ false
      → path == "/api/session-expired" ≡ false
      → browse (serve in_dashboard role_of) (suc (suc n)) cookie path
        ≡ some (if is_admin (role_of cookie) then (path, cookie) else ("/sign-in", none))
  unfolding browse serve
  dashboard_end n cookie path out inside session a b =
      elim (Bool-cases (is_admin (role_of cookie))) [
        | inl admin ↦ ground (arith, eq_iff path "/sign-in")
        | inr other ↦
            let answer : serve in_dashboard role_of cookie path ≡ redirect "/api/session-expired" =
              unfold serve in ground (arith, eq_iff path "/sign-in") in
            rw (answer, other) (expired n cookie out)
      ]

  abbrev Ends : ℕ → Option String → String → Type 0
  Ends n cookie path =
      (end : String × Option String) × (browse (serve in_dashboard role_of) n cookie path
        ≡ some end)

  page_needs_admin :
      (cookie : Option String) (path : String)
      → serve in_dashboard role_of cookie path ≡ page
      → in_dashboard path ≡ true
      → is_admin (role_of cookie) ≡ true
  unfolding serve
  page_needs_admin cookie path e d = ground arith

  -- If a browser that follows redirects ends on a page of the dashboard, the cookie that it then has
  -- has the role admin.
  pub dashboard_needs_admin :
      (n : ℕ) (cookie : Option String) (path end : String) (last : Option String)
      → browse (serve in_dashboard role_of) n cookie path ≡ some (end, last)
      → in_dashboard end ≡ true
      → is_admin (role_of last) ≡ true
  unfolding browse
  dashboard_needs_admin zero cookie path end last e d =
      go (serve in_dashboard role_of cookie path) refl e
    where
      go :
          (a : Answer)
          → serve in_dashboard role_of cookie path ≡ a
          → follow (λ c p. none) cookie path a ≡ some (end, last)
          → is_admin (role_of last) ≡ true
      go page s f = ground (arith, page_needs_admin cookie path s)
      go (redirect to) s f = cc
      go (redirect_deleting to) s f = cc
  dashboard_needs_admin (suc n) cookie path end last e d =
      go (serve in_dashboard role_of cookie path) refl e
        (λ c p h. dashboard_needs_admin n c p end last h d)
    where
      go :
          (a : Answer)
          → serve in_dashboard role_of cookie path ≡ a
          → follow (browse (serve in_dashboard role_of) n) cookie path a ≡ some (end, last)
          → ((c : Option String) (p : String)
              → browse (serve in_dashboard role_of) n c p ≡ some (end, last)
              → is_admin (role_of last) ≡ true)
          → is_admin (role_of last) ≡ true
      go page s f ih = ground (arith, page_needs_admin cookie path s)
      go (redirect to) s f ih = ih cookie to f
      go (redirect_deleting to) s f ih = ih none to f
