-- ===== src/Poll/Requests.antt =====
-- Whose requests the rounds of the poll loop of src/main-chat-server.c answer, and in which order.
use datacomm_chat_server.Poll.Places.{Client, clients_in, client_in, filled_with, clients_in_first}
use datacomm_chat_server.Prelude.{
  ℕ, suc, ◌≡◌, refl, ap, ◌∙◌, true, Option, none, some, List, [], ◌∷◌, ℤ, length, subst, arith,
  Bool-cases, sym, inl, inr, All, Bool, Option-cases, false, ◌≤◌, take, zero,
}
use datacomm_chat_server.Prelude.Partial.{◌>>=◌, bind_some, bind_same, bind_assoc}
use datacomm_chat_server.CString.{Str}
use datacomm_chat_server.Ndbm.{Ndbm}
use datacomm_chat_server.Records.{Env, Server}
use datacomm_chat_server.Dispatch.{handle_request}
use datacomm_chat_server.Dispatch.Reach.{Reaches, start, request}
use datacomm_chat_server.Poll.{
  Slot, Round, Revents, pollin, no_events, other_events, Loop, polled, positive, handle_slot,
  serve_slot, serve_ready, poll_round, run_rounds, admit, answer_events, init_pollfd, accept_client,
}
use datacomm_chat_server.Poll.Rounds.{
  accepted, answer_events-steps, poll_round-events, poll_round-timeout, run_rounds-clients_in,
}

module _ ⦃N : Ndbm⦄ where
  Reaches-trans : {s s' s'' : Server} → Reaches s s' → Reaches s' s'' → Reaches s s''
  Reaches-trans start later = later
  Reaches-trans (request env fd addr code e first) later =
      request env fd addr code e (Reaches-trans first later)

  handle_slot-Reaches :
      (env : Env) (fd : Option ℕ) (addr : Str) (s after : Server) (code : ℤ)
      → handle_slot env fd addr s ≡ some (code, after)
      → Reaches s after
  unfolding handle_slot
  handle_slot-Reaches env none addr s after code e = absurd (cc)
  handle_slot-Reaches env (some fd) addr s after code e = request env fd addr code e start

  serve_slot-Reaches :
      (events : Revents) (env : Env) (slot : Slot) (s after : Server)
      → serve_slot events env slot s ≡ some after
      → Reaches s after
  unfolding serve_slot
  serve_slot-Reaches no_events env slot s after e = subst (Reaches s) (cc e) start
  serve_slot-Reaches other_events env slot s after e = subst (Reaches s) (cc e) start
  serve_slot-Reaches pollin env slot s after e =
      let (answer, handled, last) = bind_some (handle_slot env slot.fd slot.addr s) _ after e in
      let (code, server) = answer in
      subst (Reaches s) (cc last) (handle_slot-Reaches env slot.fd slot.addr s server code handled)

  serve_ready-Reaches :
      (env : ℕ → Env) (i : ℕ) (slots : List Slot) (s after : Server)
      → serve_ready env i slots s ≡ some after
      → Reaches s after
  unfolding serve_ready
  serve_ready-Reaches env i [] s after e = subst (Reaches s) (cc e) start
  serve_ready-Reaches env i (slot ∷ slots) s after e =
      let (middle, first, rest) = bind_some (serve_slot slot.revents (env i) slot s) _ after e in
      Reaches-trans (serve_slot-Reaches slot.revents (env i) slot s middle first)
        (serve_ready-Reaches env (suc i) slots middle after rest)

  poll_round-Reaches :
      (round : Round) (l after : Loop)
      → poll_round round l ≡ some after
      → Reaches l.server after.server
  poll_round-Reaches round l after e = elim (Bool-cases (positive round.result)) [
    | inl events ↦
        let steps =
          answer_events-steps round (polled l.slots round.revents) l.server after
            (sym (poll_round-events round l events) ∙ e) in
        serve_ready-Reaches round.env 1 after.slots l.server after.server steps.1
    | inr timeout ↦
        let same : l.server ≡ after.server = cc (sym (poll_round-timeout round l timeout) ∙ e) in
        subst (Reaches l.server) same start
  ]

  -- The rounds of the poll loop are requests, one after the other.
  pub run_rounds-Reaches :
      (rounds : List Round) (l after : Loop)
      → run_rounds rounds l ≡ some after
      → Reaches l.server after.server
  unfolding run_rounds
  run_rounds-Reaches [] l after e =
      let same : l.server ≡ after.server = cc e in subst (Reaches l.server) same start
  run_rounds-Reaches (round ∷ rounds) l after e =
      let (middle, first, rest) = bind_some (poll_round round l) _ after e in
      Reaches-trans (poll_round-Reaches round l middle first)
        (run_rounds-Reaches rounds middle after rest)

-- The requests of a round, written without the table: for each client with data, in the order in which
-- the clients were accepted, the number of its place, its descriptor and its address.
abbrev pub Ready : Type 0
Ready = ℕ × Client

unfoldable pub ready : ℕ → List Client → List Revents → List Ready
ready i [] answers = []
ready i (client ∷ clients) [] = []
ready i (client ∷ clients) (pollin ∷ answers) = (i, client) ∷ ready (suc i) clients answers
ready i (client ∷ clients) (other ∷ answers) = ready (suc i) clients answers

-- `accept` is called and fails.
abbrev pub accept_fails : Revents → Option Client → Bool
accept_fails pollin none = true
accept_fails other client = false

client_in-slot :
    (slot : Slot) (fd : ℕ) (addr : Str)
    → client_in slot ≡ some (fd, addr)
    → (slot.fd ≡ some fd) × (slot.addr ≡ addr)
unfolding client_in
client_in-slot slot fd addr e = elim (Option-cases slot.fd) [
  | inl free ↦ absurd (ground (arith, free, e))
  | inr (x, there) ↦
      let found : Client = (x, slot.addr) in
      let wanted : Client = (fd, addr) in
      let kept : client_in slot ≡ some found = rw (client_in, there) refl in
      let same : some found ≡ some wanted = sym kept ∙ e in
      let number : x ≡ fd = cc same in (there ∙ ap some number, cc same)
]

admit_taken :
    (slot : Slot) (slots : List Slot) (x fd : ℕ) (addr : Str)
    → slot.fd ≡ some x
    → admit (slot ∷ slots) fd addr ≡ slot ∷ admit slots fd addr
unfolding admit
admit_taken slot slots x fd addr there = simp (admit, there)

-- The free places have no events.
IsQuiet : List Slot → Type 0
IsQuiet = All (λ slot. slot.fd ≡ none → slot.revents ≡ no_events)

module _ ⦃N : Ndbm⦄ where
  -- The requests, one after the other.
  pub answer_all : (ℕ → Env) → List Ready → Server → Option Server
  answer_all env [] s = some s
  answer_all env ((i, (fd, addr)) ∷ requests) s =
      handle_request (env i) fd addr s >>= λ answer. answer_all env requests answer.1

  serve_ready_none :
      (env : ℕ → Env) (i : ℕ) (slots : List Slot) (s : Server)
      → serve_ready env i (polled slots []) s ≡ some s
  unfolding serve_ready serve_slot polled
  serve_ready_none env i [] s = refl
  serve_ready_none env i (slot ∷ slots) s = serve_ready_none env (suc i) slots s

  -- An accepted client is not served in the same round.
  serve_ready-admit :
      (env : ℕ → Env) (i : ℕ) (slots : List Slot) (fd : ℕ) (addr : Str) (s : Server)
      → IsQuiet slots
      → serve_ready env i (admit slots fd addr) s ≡ serve_ready env i slots s
  unfolding serve_ready serve_slot admit IsQuiet
  serve_ready-admit env i [] fd addr s quiet = refl
  serve_ready-admit env i (slot ∷ slots) fd addr s quiet = elim (Option-cases slot.fd) [
    | inl free ↦ rw (admit, free) (rw (quiet.0 free) refl)
    | inr (x, there) ↦
        ap (λ l. serve_ready env i l s) (admit_taken slot slots x fd addr there)
        ∙ bind_same (serve_slot slot.revents (env i) slot s) _ _
            (λ after. serve_ready-admit env (suc i) slots fd addr after quiet.1)
  ]

  serve_ready-ready :
      (env : ℕ → Env) (i : ℕ) (slots : List Slot) (clients : List Client) (m : ℕ)
      (answers : List Revents) (s : Server)
      → clients_in slots ≡ filled_with clients m
      → length answers ≤ length clients
      → serve_ready env i (polled slots answers) s ≡ answer_all env (ready i clients answers) s
  unfolding serve_ready serve_slot handle_slot polled clients_in answer_all ready
  serve_ready-ready env i [] [] m [] s shape short = refl
  serve_ready-ready env i [] [] m (answer ∷ answers) s shape short = absurd (omega arith)
  serve_ready-ready env i [] (client ∷ clients) m answers s shape short = absurd (cc shape)
  serve_ready-ready env i (slot ∷ slots) [] m [] s shape short =
      serve_ready_none env i (slot ∷ slots) s
  serve_ready-ready env i (slot ∷ slots) [] m (answer ∷ answers) s shape short =
      absurd (omega arith)
  serve_ready-ready env i (slot ∷ slots) (client ∷ clients) m [] s shape short =
      serve_ready_none env i (slot ∷ slots) s
  serve_ready-ready env i (slot ∷ slots) (client ∷ clients) m (no_events ∷ answers) s shape short =
      let rest : clients_in slots ≡ filled_with clients m = cc shape in
      serve_ready-ready env (suc i) slots clients m answers s rest (omega arith)
  serve_ready-ready env i (slot ∷ slots) (client ∷ clients) m (other_events ∷ answers) s shape
        short =
      let rest : clients_in slots ≡ filled_with clients m = cc shape in
      serve_ready-ready env (suc i) slots clients m answers s rest (omega arith)
  serve_ready-ready env i (slot ∷ slots) ((fd, addr) ∷ clients) m (pollin ∷ answers) s shape short =
      let first : client_in slot ≡ some (fd, addr) = cc shape in
      let rest : clients_in slots ≡ filled_with clients m = cc shape in
      let (there, named) = client_in-slot slot fd addr first in
      rw (there, named)
        (bind_assoc (handle_request (env i) fd addr s) _ _
          ∙ bind_same (handle_request (env i) fd addr s) _ _ (λ answer.
            serve_ready-ready env (suc i) slots clients m answers answer.1 rest (omega arith)))

  -- The places that have no client are quiet, where poll reports no more events than there are clients.
  polled-IsQuiet :
      (slots : List Slot) (clients : List Client) (m : ℕ) (answers : List Revents)
      → clients_in slots ≡ filled_with clients m
      → length answers ≤ length clients
      → IsQuiet (polled slots answers)
  unfolding polled clients_in IsQuiet
  polled-IsQuiet [] clients m answers shape short = tt
  polled-IsQuiet (slot ∷ slots) [] m (answer ∷ answers) shape short = absurd (omega arith)
  polled-IsQuiet (slot ∷ slots) [] zero [] shape short = absurd (cc shape)
  polled-IsQuiet (slot ∷ slots) [] (suc m) [] shape short =
      ((λ free. refl), polled-IsQuiet slots [] m [] (cc shape) short)
  polled-IsQuiet (slot ∷ slots) (client ∷ clients) m [] shape short =
      ((λ free. refl), polled-IsQuiet slots clients m [] (cc shape) (omega arith))
  polled-IsQuiet (slot ∷ slots) ((fd, addr) ∷ clients) m (answer ∷ answers) shape short =
      let first : client_in slot ≡ some (fd, addr) = cc shape in
      let there = client_in-slot slot fd addr first in
      (
        (λ free. absurd (cc (there.0, free))),
        polled-IsQuiet slots clients m answers (cc shape) (omega arith),
      )

  abbrev as_loop : List Slot → Server → Option Loop
  as_loop slots s = some (record { slots = slots; server = s })

  loop_server :
      (o : Option Server) (slots : List Slot) → ((o >>= as_loop slots) >>= λ l. some l.server) ≡ o
  loop_server none slots = refl
  loop_server (some s) slots = refl

  serve_accepted :
      (listening : Revents) (client : Option Client) (env : ℕ → Env) (slots : List Slot)
      (s : Server)
      → IsQuiet slots
      → accept_fails listening client ≡ false
      → ((accept_client listening client slots >>= λ t. serve_ready env 1 t s >>= as_loop t)
          >>= λ l. some l.server)
        ≡ serve_ready env 1 slots s
  unfolding accept_client
  serve_accepted no_events client env slots s quiet accepts =
      loop_server (serve_ready env 1 slots s) slots
  serve_accepted other_events client env slots s quiet accepts =
      loop_server (serve_ready env 1 slots s) slots
  serve_accepted pollin none env slots s quiet accepts = absurd (cc accepts)
  serve_accepted pollin (some (fd, addr)) env slots s quiet accepts =
      loop_server (serve_ready env 1 (admit slots fd addr) s) (admit slots fd addr)
      ∙ serve_ready-admit env 1 slots fd addr s quiet

  answer_events-ready :
      (round : Round) (slots : List Slot) (clients : List Client) (m : ℕ) (s : Server)
      → clients_in slots ≡ filled_with clients m
      → length round.revents ≤ length clients
      → accept_fails round.listening round.accepted ≡ false
      → (answer_events round (polled slots round.revents) s >>= λ after. some after.server)
        ≡ answer_all round.env (ready 1 clients round.revents) s
  unfolding answer_events
  answer_events-ready round slots clients m s shape short accepts =
      serve_accepted round.listening round.accepted round.env (polled slots round.revents) s
        (polled-IsQuiet slots clients m round.revents shape short) accepts
      ∙ serve_ready-ready round.env 1 slots clients m round.revents s shape short

  -- In a round in which poll reports events, on places that have a client, and accept does not fail,
  -- whatever rounds were before: the server handles exactly the requests of the clients with data, each
  -- once, in the order in which the clients were accepted, with the descriptor and the address that
  -- each was accepted with, among the first 254 that were; the round ends the process where one of the
  -- requests does, and nowhere else.
  pub poll_round-serves :
      (rounds : List Round) (round : Round) (s : Server) (l : Loop)
      → run_rounds rounds (record { slots = init_pollfd; server = s }) ≡ some l
      → positive round.result ≡ true
      → accept_fails round.listening round.accepted ≡ false
      → length round.revents ≤ length (take 254 (accepted rounds))
      → (poll_round round l >>= λ after. some after.server)
        ≡ answer_all round.env (ready 1 (take 254 (accepted rounds)) round.revents) l.server
  poll_round-serves rounds round s l e events accepts short =
      let (m, shape) =
        clients_in_first l.slots (accepted rounds)
          (run_rounds-clients_in rounds (record { slots = init_pollfd; server = s }) l e) in
      ap (λ o. o >>= λ after. some after.server) (poll_round-events round l events)
      ∙ answer_events-ready round l.slots (take 254 (accepted rounds)) m l.server shape short
          accepts
