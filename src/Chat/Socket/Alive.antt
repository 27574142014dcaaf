-- ===== src/Chat/Socket/Alive.antt =====
-- The socket never dies silently, never runs twice, and stays closed once it is stopped.
use meadow_ops.Base.{
  ℕ, ◌+◌, ◌≤◌, ◌≡◌, refl, ◌∙◌, Bool, true, false, ◌||◌, ◌&&◌, nat_eq, List, [], ◌∷◌, arith,
}
use meadow_ops.Chat.Socket.{
  Connection, ticket_ok, ticket_refused, ticket_threw, Event, ticket, body, closed, timeout,
  unmount, step, run, mounted,
}

abbrev pub one_if : Bool → ℕ
one_if true = 1
one_if false = 0

-- How many things are under way that lead to an open socket, an open one included.
abbrev pub activities : Connection → ℕ
activities s = s.fetching + s.reading + s.timer + one_if s.socket

pub record IsAlive (s : Connection) : Type 0 where
  pub one_activity : (s.stopped || nat_eq (activities s) 1) ≡ true
  pub closed_after : (s.stopped && s.socket) ≡ false
  pub at_most_one : activities s ≤ 1

step-IsAlive : (e : Event) (s : Connection) → IsAlive s → IsAlive (step e s)
unfolding step
step-IsAlive (ticket ticket_ok) s v = ground arith
step-IsAlive (ticket ticket_refused) s v = ground arith
step-IsAlive (ticket ticket_threw) s v = ground arith
step-IsAlive (body j c) s v = ground arith
step-IsAlive closed s v = ground arith
step-IsAlive timeout s v = ground arith
step-IsAlive unmount s v = ground arith

run-IsAlive : (es : List Event) (s : Connection) → IsAlive s → IsAlive (run es s)
unfolding run
run-IsAlive [] s v = v
run-IsAlive (e ∷ es) s v = run-IsAlive es (step e s) (step-IsAlive e s v)

mounted-IsAlive : IsAlive mounted
unfolding mounted
mounted-IsAlive = ground arith

-- After any answers, exceptions, closings and timeouts, a socket that was not stopped has exactly
-- one of a ticket under way, a running timer and an open connection; one that was stopped has no
-- open connection.
pub run-mounted-IsAlive : (es : List Event) → IsAlive (run es mounted)
run-mounted-IsAlive es = run-IsAlive es mounted mounted-IsAlive

step_stopped :
    (e : Event) (s : Connection)
    → s.stopped ≡ true
    → ((step e s).stopped ≡ true) × ((step e s).opened ≡ s.opened)
unfolding step
step_stopped (ticket ticket_ok) s h = ground arith
step_stopped (ticket ticket_refused) s h = ground arith
step_stopped (ticket ticket_threw) s h = ground arith
step_stopped (body j c) s h = ground arith
step_stopped closed s h = ground arith
step_stopped timeout s h = ground arith
step_stopped unmount s h = ground arith

-- After the cleanup no connection is opened, whatever was under way.
pub stopped_opens_none :
    (es : List Event) (s : Connection)
    → s.stopped ≡ true
    → ((run es s).stopped ≡ true) × ((run es s).opened ≡ s.opened)
unfolding run
stopped_opens_none [] s h = (h, refl)
stopped_opens_none (e ∷ es) s h =
    let (still, same) = step_stopped e s h in
    let (end, count) = stopped_opens_none es (step e s) still in (end, count ∙ same)

-- From every state with `IsAlive` that was not stopped, a timeout, a ticket and a ticket's body, each
-- of them passed over where nothing waits for it, lead to an open connection.
pub reconnects :
    (s : Connection)
    → IsAlive s
    → s.stopped ≡ false
    → (run (timeout ∷ ticket ticket_ok ∷ body true true ∷ []) s).socket ≡ true
unfolding run
reconnects s v h = ground arith
