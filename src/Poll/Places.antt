-- ===== src/Poll/Places.antt =====
-- Which clients the table of src/main-chat-server.c holds.
use datacomm_chat_server.Prelude.{
  ℕ, Option, none, some, List, [], ◌∷◌, ◌++◌, ◌≡◌, refl, replicate, take, suc, zero, ap, ◌∙◌, sym,
  append_nil, append_assoc, Option-cases, inl, inr,
}
use datacomm_chat_server.CString.{Str}
use datacomm_chat_server.Poll.{Slot, init_pollfd, admit}

-- A client that was accepted: its descriptor and the text of its address.
abbrev pub Client : Type 0
Client = ℕ × Str

-- The client in a place, and what an accepted client does to a table.
unfoldable pub client_in : Slot → Option Client
client_in slot = elim slot.fd [ none ↦ none | some fd ↦ some (fd, slot.addr) ]

unfoldable pub clients_in : List Slot → List (Option Client)
unfolding client_in
clients_in [] = []
clients_in (slot ∷ slots) = client_in slot ∷ clients_in slots

unfoldable pub place : List (Option Client) → Client → List (Option Client)
place [] client = []
place (none ∷ table) client = some client ∷ table
place (some taken ∷ table) client = some taken ∷ place table client

unfoldable pub place_all : List (Option Client) → List Client → List (Option Client)
unfolding place
place_all table [] = table
place_all table (client ∷ clients) = place_all (place table client) clients

-- The clients in a table, without its free places.
unfoldable pub taken : List (Option Client) → List Client
taken [] = []
taken (none ∷ table) = taken table
taken (some client ∷ table) = client ∷ taken table

pub served : List Slot → List Client
unfolding clients_in taken
served slots = taken (clients_in slots)

pub clients_in-admit :
    (slots : List Slot) (fd : ℕ) (addr : Str)
    → clients_in (admit slots fd addr) ≡ place (clients_in slots) (fd, addr)
unfolding clients_in client_in admit place
clients_in-admit [] fd addr = refl
clients_in-admit (slot ∷ slots) fd addr = elim (Option-cases slot.fd) [
  | inl free ↦ rw (admit, free) refl
  | inr (x, there) ↦
      let kept : client_in slot ≡ some (x, slot.addr) = rw (client_in, there) refl in
      rw (admit, there)
        (ap (λ l. client_in slot ∷ l) (clients_in-admit slots fd addr)
          ∙ ap (λ c. c ∷ place (clients_in slots) (fd, addr)) kept)
]

-- The table as `init_pollfd` and the clients accepted so far leave it: those in front, then the free
-- places.
abbrev pub filled_with : List Client → ℕ → List (Option Client)
filled_with [] n = replicate n none
filled_with (client ∷ clients) n = some client ∷ filled_with clients n

place-filled_with :
    (clients : List Client) (n : ℕ) (client : Client)
    → place (filled_with clients (suc n)) client ≡ filled_with (clients ++ client ∷ []) n
unfolding place
place-filled_with [] n client = refl
place-filled_with (x ∷ clients) n client = ap (◌∷◌ (some x)) (place-filled_with clients n client)

place_full :
    (clients : List Client) (client : Client)
    → place (filled_with clients 0) client ≡ filled_with clients 0
unfolding place
place_full [] client = refl
place_full (x ∷ clients) client = ap (◌∷◌ (some x)) (place_full clients client)

taken-filled_with : (clients : List Client) (n : ℕ) → taken (filled_with clients n) ≡ clients
unfolding taken
taken-filled_with [] zero = refl
taken-filled_with [] (suc n) = taken-filled_with [] n
taken-filled_with (client ∷ clients) n = ap (◌∷◌ client) (taken-filled_with clients n)

place_all-filled_with :
    (before : List Client) (n : ℕ) (clients : List Client)
    → (m : ℕ) × (place_all (filled_with before n) clients
        ≡ filled_with (before ++ take n clients) m)
unfolding place_all
place_all-filled_with before zero [] = (0, ap (λ l. filled_with l 0) (sym (append_nil before)))
place_all-filled_with before (suc n) [] =
    (suc n, ap (λ l. filled_with l (suc n)) (sym (append_nil before)))
place_all-filled_with before zero (client ∷ clients) =
    rw (place_full before client) (place_all-filled_with before zero clients)
place_all-filled_with before (suc n) (client ∷ clients) =
    let (m, e) = place_all-filled_with (before ++ client ∷ []) n clients in
    (
      m,
      ap (λ t. place_all t clients) (place-filled_with before n client)
          ∙ e
          ∙ ap (λ l. filled_with l m) (append_assoc before (client ∷ []) (take n clients)),
    )

clients_in-init_pollfd : clients_in init_pollfd ≡ filled_with [] 254
unfolding clients_in client_in init_pollfd
clients_in-init_pollfd = refl

-- A table that a fresh one became by taking in clients.
pub clients_in_first :
    (slots : List Slot) (clients : List Client)
    → clients_in slots ≡ place_all (clients_in init_pollfd) clients
    → (m : ℕ) × (clients_in slots ≡ filled_with (take 254 clients) m)
clients_in_first slots clients e =
    let (m, shape) = place_all-filled_with [] 254 clients in
    (m, e ∙ ap (λ table. place_all table clients) clients_in-init_pollfd ∙ shape)

pub served_first :
    (slots : List Slot) (clients : List Client)
    → clients_in slots ≡ place_all (clients_in init_pollfd) clients
    → served slots ≡ take 254 clients
unfolding served
served_first slots clients e =
    let (m, shape) = clients_in_first slots clients e in
    ap taken shape ∙ taken-filled_with (take 254 clients) m
