-- ===== src/Session/Tests.antt =====
-- The sessions' laws at one application and one backend.
use meadow_ops.Base.{
  ◌≡◌, refl, String, Bool, true, Option, none, some, [], ◌∷◌, ◌==◌, if◌then◌else◌, ◌||◌,
}
use meadow_ops.Base.Json.{Json, str, obj, field, end, get, as_text}
use meadow_ops.Session.{serve, browse, is_matched, is_admin}
use meadow_ops.Session.Gates.{dashboard_needs_admin}
use meadow_ops.Draft.{load_draft_buffer}
use meadow_ops.Draft.ListStorage.{Items, list_storage}
use meadow_ops.Session.Logout.{Tab, logged_out, threw, log_out_builder, log_out_builder_end}
use meadow_ops.Session.Login.{
  parsed, BackendAnswer, denied, granted, credentials, post_login_builder,
  post_login_builder-cookie,
}

abbrev in_dashboard : String → Bool
in_dashboard path = path == "/dashboard" || path == "/mail"

abbrev role_of : Option String → Option String
role_of none = none
role_of (some token) = if token == "t-admin" then some "admin" else some "analyst"

dashboard_needs_admin_example : is_admin (role_of (some "t-admin")) ≡ true
unfolding browse serve is_matched
dashboard_needs_admin_example =
    dashboard_needs_admin in_dashboard role_of 1 (some "t-admin") "/sign-in" "/dashboard"
      (some "t-admin") refl refl

abbrev backend : String → String → BackendAnswer
backend email password =
    if password == "secret" then granted "t-admin" (some (str "admin")) else denied 401 (obj end)

abbrev form : Json
form = obj (field "email" (str "a@b") (field "password" (str "secret") end))

post_login_builder-cookie_example :
    (email : String) × (password : String) × (value : Json) × (role : Option Json) × (parsed form
      ≡ parsed value)
    × (credentials value ≡ some (email, password))
    × (backend email password ≡ granted "t-admin" role)
    × (as_text role ≡ some "admin")
unfolding post_login_builder credentials as_text get
post_login_builder-cookie_example =
    post_login_builder-cookie backend (some "http://api") (parsed form) "t-admin" refl

abbrev tab : Tab Items
tab = record {
  store = record { on = true; room = 2; pairs = ("meadowops:composer-draft:t1", "hello") ∷ [] };
  cookie = some "t-admin";
  path = "/mail";
}

log_out_builder_end_example :
    let out = log_out_builder list_storage logged_out tab in
    let stuck = log_out_builder list_storage threw tab in
    (browse (serve in_dashboard role_of) 3 out.cookie out.path ≡ some ("/sign-in", none))
    × (browse (serve in_dashboard role_of) 3 stuck.cookie stuck.path
        ≡ some (
            if is_admin (role_of (some "t-admin"))
            then ("/dashboard", some "t-admin")
            else ("/sign-in", none)))
    × (load_draft_buffer list_storage out.store "t1" ≡ none)
    × (load_draft_buffer list_storage stuck.store "t1" ≡ none)
log_out_builder_end_example =
    log_out_builder_end list_storage in_dashboard role_of tab "t1" refl refl refl
