-- ===== src/Chat/Socket.antt =====
-- use-chat-socket.ts of both applications (orbynadmin: src/app/(app)/chat; the Builder's
-- application: src/app/(dashboard)/mail): the connection that reconnects. The files have the same
-- code. `connect` is cut at its waits: the fetch of the ticket, and the reading of its body.
pub mod Alive
mod Tests
use meadow_ops.Base.{
  ℕ, zero, suc, ◌+◌, ◌-◌, String, Bool, true, false, not, Option, none, some, List, [], ◌∷◌,
  if◌then◌else◌,
}

-- The variables of the effect, with what the browser has pending for it: the calls of `connect` that
-- wait for the ticket or for its body, whether the reconnect timer runs, and the open socket.
pub record Connection : Type 0 where
  pub stopped : Bool
  pub fetching : ℕ
  pub reading : ℕ
  pub timer : ℕ
  pub socket : Bool
  pub opened : ℕ

-- `setTimeout(connect, RECONNECT_DELAY_MS)`
abbrev pub retry : Connection → Connection
retry s = record s { timer = suc s.timer }

unfoldable pub connect : Connection → Connection
connect s = if s.stopped then s else record s { fetching = suc s.fetching }

-- The answer to the fetch of a ticket: ok, not ok, or an exception.
pub data TicketAnswer : Type 0 where
  ticket_ok ticket_refused ticket_threw : TicketAnswer

unfoldable pub ticket_answered : TicketAnswer → Connection → Connection
ticket_answered ticket_ok s = record s { fetching = s.fetching - 1; reading = suc s.reading }
ticket_answered ticket_refused s = retry (record s { fetching = s.fetching - 1 })
ticket_answered ticket_threw s = retry (record s { fetching = s.fetching - 1 })

-- The body was read, and the WebSocket constructed, or one of the two threw.
unfoldable pub body_read : Bool → Bool → Connection → Connection
body_read is_json constructs s =
    let t = record s { reading = s.reading - 1 } in
    if not is_json
    then retry t
    else if s.stopped
    then t
    else if constructs
    then record t { socket = true; opened = suc s.opened }
    else retry t

-- `onclose`
unfoldable pub socket_closed : Connection → Connection
socket_closed s = let t = record s { socket = false } in if s.stopped then t else retry t

unfoldable pub timer_fires : Connection → Connection
unfolding connect
timer_fires s = connect (record s { timer = s.timer - 1 })

-- The effect's cleanup: the timer is cleared and the socket closed.
unfoldable pub stop : Connection → Connection
stop s = record s { stopped = true; timer = 0; socket = false }

pub data Event : Type 0 where
  ticket : TicketAnswer → Event
  body : Bool → Bool → Event
  closed : Event
  timeout : Event
  unmount : Event

-- An event happens only if what it answers is pending.
unfoldable pub pending : Event → Connection → Bool
pending (ticket a) s = elim s.fetching [ zero ↦ false | suc n ↦ true ]
pending (body j c) s = elim s.reading [ zero ↦ false | suc n ↦ true ]
pending closed s = s.socket
pending timeout s = elim s.timer [ zero ↦ false | suc n ↦ true ]
pending unmount s = not s.stopped

unfoldable pub handle : Event → Connection → Connection
unfolding ticket_answered body_read socket_closed timer_fires stop
handle (ticket a) s = ticket_answered a s
handle (body j c) s = body_read j c s
handle closed s = socket_closed s
handle timeout s = timer_fires s
handle unmount s = stop s

unfoldable pub step : Event → Connection → Connection
unfolding pending handle
step e s = if pending e s then handle e s else s

unfoldable pub run : List Event → Connection → Connection
unfolding step
run [] s = s
run (e ∷ es) s = run es (step e s)

-- The effect runs `connect` once, on mounting.
unfoldable pub mounted : Connection
unfolding connect
mounted =
    connect
      (record { stopped = false; fetching = 0; reading = 0; timer = 0; socket = false; opened = 0 })
