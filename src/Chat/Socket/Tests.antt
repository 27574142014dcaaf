-- ===== src/Chat/Socket/Tests.antt =====
-- The socket's laws on short runs.
use meadow_ops.Base.{true, List, [], ◌∷◌}
use meadow_ops.Chat.Socket.{ticket_ok, Event, ticket, body, closed, run, mounted}
use meadow_ops.Chat.Socket.Alive.{IsAlive, run-mounted-IsAlive}

abbrev dropped : List Event
dropped = ticket ticket_ok ∷ body true true ∷ closed ∷ []

run-mounted-IsAlive_example : IsAlive (run dropped mounted)
run-mounted-IsAlive_example = run-mounted-IsAlive dropped
