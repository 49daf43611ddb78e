-- ===== src/Poll/Rounds.antt =====
-- Whom the rounds of the poll loop of src/main-chat-server.c accept.
use datacomm_chat_server.Prelude.{
  ℕ, ◌≡◌, refl, ap, ◌∙◌, sym, true, false, Option, none, some, List, [], ◌∷◌, ◌++◌, take,
  if◌then◌else◌, Bool-cases, inl, inr, subst,
}
use datacomm_chat_server.Prelude.Partial.{bind_some}
use datacomm_chat_server.CString.{Str}
use datacomm_chat_server.Ndbm.{Ndbm}
use datacomm_chat_server.Records.{Server}
use datacomm_chat_server.Poll.{
  Slot, Round, Revents, pollin, no_events, other_events, Loop, init_pollfd, polled, accept_client,
  positive, serve_ready, poll_round, run_rounds, answer_events,
}
use datacomm_chat_server.Poll.Places.{
  Client, client_in, clients_in, place, place_all, served, clients_in-admit, served_first,
}

clients_in-polled :
    (slots : List Slot) (answers : List Revents)
    → clients_in (polled slots answers) ≡ clients_in slots
unfolding clients_in client_in polled
clients_in-polled [] answers = refl
clients_in-polled (slot ∷ slots) [] = ap (λ l. client_in slot ∷ l) (clients_in-polled slots [])
clients_in-polled (slot ∷ slots) (answer ∷ answers) =
    ap (λ l. client_in slot ∷ l) (clients_in-polled slots answers)

place_all-append :
    (table : List (Option Client)) (xs ys : List Client)
    → place_all table (xs ++ ys) ≡ place_all (place_all table xs) ys
unfolding place_all
place_all-append table [] ys = refl
place_all-append table (x ∷ xs) ys = place_all-append (place table x) xs ys

-- The client that `accept` returns at the listening socket.
unfoldable pub accepted_at : Revents → Option (ℕ × Str) → List Client
accepted_at pollin none = []
accepted_at pollin (some (fd, addr)) = (fd, addr) ∷ []
accepted_at other accepted = []

-- The client that is accepted in a round, if one is.
unfoldable pub accepted_in : Round → List Client
unfolding accepted_at
accepted_in round = if positive round.result then accepted_at round.listening round.accepted else []

unfoldable pub accepted : List Round → List Client
accepted [] = []
accepted (round ∷ rounds) = accepted_in round ++ accepted rounds

accept_client-clients_in :
    (listening : Revents) (client : Option (ℕ × Str)) (slots after : List Slot)
    → accept_client listening client slots ≡ some after
    → clients_in after ≡ place_all (clients_in slots) (accepted_at listening client)
unfolding accept_client accepted_at place_all
accept_client-clients_in no_events client slots after e = ap clients_in (sym (cc e))
accept_client-clients_in other_events client slots after e = ap clients_in (sym (cc e))
accept_client-clients_in pollin none slots after e = absurd (cc)
accept_client-clients_in pollin (some (fd, addr)) slots after e =
    ap clients_in (sym (cc e)) ∙ clients_in-admit slots fd addr

module _ ⦃N : Ndbm⦄ where
  pub poll_round-events :
      (round : Round) (l : Loop)
      → positive round.result ≡ true
      → poll_round round l ≡ answer_events round (polled l.slots round.revents) l.server
  unfolding poll_round
  poll_round-events round l events = rw (poll_round, events) refl

  pub poll_round-timeout :
      (round : Round) (l : Loop)
      → positive round.result ≡ false
      → poll_round round l ≡ some (record l { slots = polled l.slots round.revents })
  unfolding poll_round
  poll_round-timeout round l events = rw (poll_round, events) refl

  pub answer_events-steps :
      (round : Round) (waiting : List Slot) (s : Server) (after : Loop)
      → answer_events round waiting s ≡ some after
      → (accept_client round.listening round.accepted waiting ≡ some after.slots)
        × (serve_ready round.env 1 after.slots s ≡ some after.server)
  unfolding answer_events
  answer_events-steps round waiting s after e =
      let (slots, accepted, rest) = bind_some _ _ after e in
      let (server, handled, last) = bind_some _ _ after rest in
      let same_slots : slots ≡ after.slots = cc last in
      let same_server : server ≡ after.server = cc last in
      (
        accepted ∙ ap some same_slots,
        subst (λ l. serve_ready round.env 1 l s ≡ some after.server) same_slots
            (handled ∙ ap some same_server),
      )

  -- A round adds the client that it accepts.
  poll_round-clients_in :
      (round : Round) (l after : Loop)
      → poll_round round l ≡ some after
      → clients_in after.slots ≡ place_all (clients_in l.slots) (accepted_in round)
  unfolding accepted_in place_all
  poll_round-clients_in round l after e =
      let waiting = polled l.slots round.revents in
      let kept = clients_in-polled l.slots round.revents in
      elim (Bool-cases (positive round.result)) [
        | inl events ↦
            let (slots, handled) =
              answer_events-steps round waiting l.server after
                (sym (poll_round-events round l events) ∙ e) in
            rw (events, ← kept)
              (accept_client-clients_in round.listening round.accepted waiting after.slots slots)
        | inr timeout ↦
            let same : waiting ≡ after.slots = cc (sym (poll_round-timeout round l timeout) ∙ e) in
            rw timeout (ap clients_in (sym same) ∙ kept)
      ]

  pub run_rounds-clients_in :
      (rounds : List Round) (l after : Loop)
      → run_rounds rounds l ≡ some after
      → clients_in after.slots ≡ place_all (clients_in l.slots) (accepted rounds)
  unfolding run_rounds accepted place_all
  run_rounds-clients_in [] l after e =
      let same : l ≡ after = cc e in ap (λ m. clients_in m.slots) (sym same)
  run_rounds-clients_in (round ∷ rounds) l after e =
      let (middle, first, rest) = bind_some (poll_round round l) _ after e in
      run_rounds-clients_in rounds middle after rest
      ∙ ap (λ table. place_all table (accepted rounds)) (poll_round-clients_in round l middle first)
      ∙ sym (place_all-append (clients_in l.slots) (accepted_in round) (accepted rounds))

  -- However many rounds the poll loop makes, its table holds the descriptors and addresses of the first
  -- 254 sockets that were accepted, in their order and as they were accepted; no later one changes it.
  pub run_rounds_first :
      (rounds : List Round) (s : Server) (last : Loop)
      → run_rounds rounds (record { slots = init_pollfd; server = s }) ≡ some last
      → served last.slots ≡ take 254 (accepted rounds)
  run_rounds_first rounds s last e =
      served_first last.slots (accepted rounds)
        (run_rounds-clients_in rounds (record { slots = init_pollfd; server = s }) last e)
