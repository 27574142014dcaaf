-- ===== src/Api/Fetch/Guards.antt =====
-- What the proxies of the clients let through.
use meadow_ops.Base.{
  ◌≡◌, refl, sym, ap, ◌∙◌, String, Bool, true, false, Option, none, some, ◌<>◌, truthy, arith,
  Bool-cases, inl, inr, if◌then◌else◌,
}
use meadow_ops.Api.Fetch.{Call, Reply, Request, local, upstream, fetch_with}

-- The value of a cookie or an environment variable that is set and not empty.
unfoldable pub present : Option String → Bool
present none = false
present (some s) = truthy s

unfoldable pub value : Option String → String
value none = ""
value (some s) = s

-- A proxy calls the backend when both the session token and the base URL are set and not empty, with
-- that token, at that URL and with the call it was given; it answers 401 with no token, and 500 with a
-- token and no URL.
pub fetch_with_lem :
    (json_content no_store : Bool) (cookie base : Option String) (call : Call)
    → fetch_with json_content no_store cookie base call ≡ (
        if present cookie
        then (if present base
            then upstream (record {
              base_url = value base;
              call = call;
              authorization = "Bearer " <> value cookie;
              json_content = json_content;
              no_store = no_store;
            })
            else local 500 "Server is not configured")
        else local 401 "Not authenticated")
unfolding fetch_with present value
fetch_with_lem j n none base call = refl
fetch_with_lem j n (some token) none call = refl
fetch_with_lem j n (some token) (some url) call = refl

request_of : Reply → Request → Request
request_of (local status text) r = r
request_of (upstream s) r = s

-- A request that a proxy sends is for the call it was given, to the configured URL, and carries the
-- session's own token; neither the URL nor the token is empty.
pub sent_with_token :
    (json_content no_store : Bool) (cookie base : Option String) (call : Call) (r : Request)
    → fetch_with json_content no_store cookie base call ≡ upstream r
    → (present cookie ≡ true)
      × (present base ≡ true)
      × (r.authorization ≡ "Bearer " <> value cookie)
      × (r.base_url ≡ value base)
      × (r.call ≡ call)
unfolding request_of
sent_with_token j n cookie base call r h = elim (Bool-cases (present cookie)) [
  | inl c ↦ elim (Bool-cases (present base)) [
    | inl b ↦
        let e = rw (c, b) at (fetch_with_lem j n cookie base call) in
        let same = ap (λ s. request_of s r) (sym h ∙ e) in
        (c, b, ap (λ s. s.authorization) same, ap (λ s. s.base_url) same, ap (λ s. s.call) same)
    | inr b ↦ let e = fetch_with_lem j n cookie base call in grind arith
  ]
  | inr c ↦ let e = fetch_with_lem j n cookie base call in grind arith
]
