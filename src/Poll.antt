-- ===== src/Poll.antt =====
-- src/main-chat-server.c: `run_server`, its table of descriptors, and the rounds of its poll loop.
pub mod Places
pub mod Rounds
pub mod Requests
use datacomm_chat_server.Prelude.{
  ℕ, suc, ◌-◌, Bool, true, false, Option, none, some, List, [], ◌∷◌, ℤ, pos, negsuc, replicate,
  if◌then◌else◌, not,
}
use datacomm_chat_server.Prelude.Partial.{◌>>=◌}
use datacomm_chat_server.CString.{Str}
use datacomm_chat_server.Ndbm.{Ndbm}
use datacomm_chat_server.Records.{Env, Server, Event, closed, max_clients}
use datacomm_chat_server.Dispatch.{handle_request}
use datacomm_chat_server.Startup.{prepare}

-- `revents`, as far as the loop tells its values apart.
pub data Revents : Type 0 where
  no_events pollin other_events : Revents

-- `pollfds[i]` with `client_addrs[i]`. A descriptor that is `none` stands for -1.
pub record Slot : Type 0 where
  pub fd : Option ℕ
  pub revents : Revents
  pub addr : Str

-- The places behind the first, which is for the listening socket.
unfoldable pub init_pollfd : List Slot
init_pollfd = replicate (max_clients - 1) (record { fd = none; revents = no_events; addr = [] })

-- The loop that puts an accepted socket and its address into the first free place. Without one the
-- socket is dropped, and stays open.
unfoldable pub admit : List Slot → ℕ → Str → List Slot
admit [] client_sock addr = []
admit (slot ∷ slots) client_sock addr = elim slot.fd [
  | none ↦ record { fd = some client_sock; revents = no_events; addr = addr } ∷ slots
  | some taken ↦ slot ∷ admit slots client_sock addr
]

-- What the operating system answers in a round: the result of `poll`, the events at the listening
-- socket, what `accept` returns there with the text of the address, the events of the places, and for
-- each place what a request on it finds.
pub record Round : Type 0 where
  pub result : ℤ
  pub listening : Revents
  pub accepted : Option (ℕ × Str)
  pub revents : List Revents
  pub env : ℕ → Env

-- `poll` sets the events of each place.
unfoldable pub polled : List Slot → List Revents → List Slot
polled [] answers = []
polled (slot ∷ slots) [] = record slot { revents = no_events } ∷ polled slots []
polled (slot ∷ slots) (answer ∷ answers) = record slot { revents = answer } ∷ polled slots answers

-- `none`: `accept` failed, and `fatal_errno` ends the process.
unfoldable pub accept_client : Revents → Option (ℕ × Str) → List Slot → Option (List Slot)
unfolding admit
accept_client pollin none slots = none
accept_client pollin (some (client_sock, addr)) slots = some (admit slots client_sock addr)
accept_client other accepted slots = some slots

abbrev pub positive : ℤ → Bool
positive (pos (suc n)) = true
positive other = false

-- The table and the server between two rounds.
pub record Loop ⦃N : Ndbm⦄ : Type 0 where
  pub slots : List Slot
  pub server : Server

module _ ⦃N : Ndbm⦄ where
  -- A request on a place that is free fails to read its header.
  unfoldable pub handle_slot : Env → Option ℕ → Str → Server → Option (ℤ × Server)
  unfolding handle_request
  handle_slot env none addr s = none
  handle_slot env (some fd) addr s = handle_request env fd addr s

  -- `switch (pollfds[i].revents)`. The status of a request is not looked at any further.
  unfoldable pub serve_slot : Revents → Env → Slot → Server → Option Server
  unfolding handle_slot
  serve_slot pollin env slot s = handle_slot env slot.fd slot.addr s >>= λ answer. some answer.1
  serve_slot other env slot s = some s

  -- The loop over the places, from place `i` on.
  unfoldable pub serve_ready : (ℕ → Env) → ℕ → List Slot → Server → Option Server
  unfolding serve_slot
  serve_ready env i [] s = some s
  serve_ready env i (slot ∷ slots) s =
      serve_slot slot.revents (env i) slot s >>= λ after. serve_ready env (suc i) slots after

  -- What a round does after `poll` has reported events.
  unfoldable pub answer_events : Round → List Slot → Server → Option Loop
  unfolding accept_client serve_ready
  answer_events round waiting s = do
    slots ← accept_client round.listening round.accepted waiting
    after ← serve_ready round.env 1 slots s
    some (record { slots = slots; server = after })

  -- One round of `while (server_running)`.
  unfoldable pub poll_round : Round → Loop → Option Loop
  unfolding polled answer_events
  poll_round round l =
      let waiting = polled l.slots round.revents in
      if positive round.result
      then answer_events round waiting l.server
      else some (record l { slots = waiting })

  -- The rounds until `server_running` is false.
  unfoldable pub run_rounds : List Round → Loop → Option Loop
  unfolding poll_round
  run_rounds [] l = some l
  run_rounds (round ∷ rounds) l = poll_round round l >>= λ after. run_rounds rounds after

  -- `close(pollfds[i].fd)` of every place; that of a free one fails.
  unfoldable pub close_all : List Slot → List Event → List Event
  close_all [] events = events
  close_all (slot ∷ slots) events = elim slot.fd [
    | none ↦ close_all slots events
    | some fd ↦ close_all slots (closed fd ∷ events)
  ]

  -- `close(opts->server_sock)`
  abbrev pub close_socket : ℕ → Server → Server
  close_socket server_sock s = record s { events = closed server_sock ∷ s.events }

-- What the calls in front of the loop return: `socket` a descriptor or -1, the others success or -1.
pub record Sockets : Type 0 where
  pub server_sock : Option ℕ
  pub setsockopt : Bool
  pub bind : Bool
  pub listen : Bool

module _ ⦃N : Ndbm⦄ where
  -- The rounds on a fresh table, and what follows the loop.
  unfoldable pub serve_clients : ℕ → List Round → Server → Option Server
  unfolding init_pollfd run_rounds close_all
  serve_clients server_sock rounds s = do
    last ← run_rounds rounds (record { slots = init_pollfd; server = s })
    some (
        close_socket server_sock
          (record last.server { events = close_all last.slots last.server.events }))

  unfoldable pub run_server : Sockets → Env → List Round → Server → Option (ℤ × Server)
  unfolding prepare serve_clients
  run_server sockets env rounds s = elim sockets.server_sock [
    | none ↦ some (negsuc 0, s)
    | some server_sock ↦
        if not sockets.setsockopt
        then some (negsuc 0, close_socket server_sock s)
        else if not sockets.bind
        then some (negsuc 0, close_socket server_sock s)
        else if not sockets.listen
        then some (negsuc 0, close_socket server_sock s)
        else do
          prepared ← prepare env s
          after ← serve_clients server_sock rounds prepared
          some (pos 0, after)
  ]
