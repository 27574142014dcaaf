-- ===== src/Handlers/Tests.antt =====
-- The handlers in front of a backend that grants every request with one token.
use meadow_ops.Base.{refl, Option, none, some, [], ◌==◌, if◌then◌else◌}
use meadow_ops.Base.Json.{obj, end}
use meadow_ops.Api.Uri.{text}
use meadow_ops.Api.Fetch.{Request, fetch_with}
use meadow_ops.Handlers.{Answer, Server, answer_to, relay, call}
use meadow_ops.Handlers.Relay.{succeeded, IsGranted}
use meadow_ops.Handlers.Orbynadmin
use meadow_ops.Handlers.Orbynadmin.Granted as OrbynadminGranted
use meadow_ops.Handlers.Builder
use meadow_ops.Handlers.Builder.Granted as BuilderGranted

abbrev backend : Request → Option Answer
backend r =
    if r.authorization == "Bearer t1"
    then some (record {
      status = 200;
      json = some (obj end);
      content = [];
      content_type = none;
      content_disposition = none;
      content_type_options = none;
    })
    else none

abbrev server : Server
server = record { cookie = some "t1"; base_url = some "http://api"; backend = backend }

orbynadmin-IsGranted_example : IsGranted server
unfolding OrbynadminGranted.handle Orbynadmin.get_threads relay call answer_to fetch_with succeeded
orbynadmin-IsGranted_example =
    OrbynadminGranted.orbynadmin-IsGranted server OrbynadminGranted.get_threads_request refl

builder-IsGranted_example : IsGranted server
unfolding BuilderGranted.handle Builder.post_approve relay call answer_to fetch_with succeeded
builder-IsGranted_example =
    BuilderGranted.builder-IsGranted server (BuilderGranted.post_approve_request (text "s1")) refl
