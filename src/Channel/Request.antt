-- ===== src/Channel/Request.antt =====
-- The body of UPDATE CHANNEL as a client writes it, and that the server reads it back.
use datacomm_chat_server.Prelude.{
  ℕ, ◌≤◌, ◌^◌, ◌≡◌, refl, Bool, true, false, Option, none, some, List, [], ◌∷◌, ◌++◌, length, All,
  arith, next, ◌-◌, ltb, ◌%◌, lt→ltb,
}
use datacomm_chat_server.Prelude.Partial.{is_some}
use datacomm_chat_server.CString.{Str, codes, etx, decimal, to_int, streq}
use datacomm_chat_server.CString.Tokens.{IsField}
use datacomm_chat_server.CString.Decimal.{strtol-decimal}
use datacomm_chat_server.CString.Number.{decimal-IsField}
use datacomm_chat_server.Request.{strncpy}
use datacomm_chat_server.Request.Fields.{Fits, token_or-field, strncpy-Fits, copy_token-Fits}
use datacomm_chat_server.Channel.Update.{
  read_names, read_counted, read_alter, read_optional, parse_update, Alter, UpdateRequest,
  text_or_empty,
}

-- What a client may ask of a list: names to add, names to remove, both, or nothing.
pub data Change : Type 0 where
  no_change : Change
  adds removes : List Str → Change
  adds_and_removes : List Str → List Str → Change

pub record Update : Type 0 where
  pub name : Str
  pub new_name : Option Str
  pub publicity : Option Bool
  pub users : Change
  pub admins : Change
  pub banned : Change

-- A field and its delimiter, in front of the rest of a body.
abbrev field : Str → Str → Str
field f rest = f ++ etx ∷ rest

render_names : List Str → Str → Str
render_names [] rest = rest
render_names (name ∷ names) rest = field name (render_names names rest)

render_counted : List Str → Str → Str
unfolding render_names
render_counted names rest = field (decimal (length names)) (render_names names rest)

render_change : Change → Str → Str
unfolding render_counted
render_change no_change rest = field (codes "0") rest
render_change (adds names) rest = field (codes "1") (render_counted names rest)
render_change (removes names) rest = field (codes "2") (render_counted names rest)
render_change (adds_and_removes names others) rest =
    field (codes "3") (render_counted names (render_counted others rest))

render_optional : Option Str → Str → Str
render_optional none rest = field (codes "0") rest
render_optional (some value) rest = field (codes "1") (field value rest)

pub publicity_text : Option Bool → Option Str
publicity_text none = none
publicity_text (some true) = some (codes "1")
publicity_text (some false) = some (codes "0")

-- The body of a request, every field with a delimiter behind it.
pub render : Update → Str
unfolding render_change render_optional
render u = field u.name (
    render_optional u.new_name (
      render_optional (publicity_text u.publicity)
        (render_change u.users (render_change u.admins (render_change u.banned [])))))

-- A list of names that its array has room for.
pub record IsNames (names : List Str) : Type 0 where
  pub room : length names ≤ 64
  pub fits : All (Fits 21) names

abbrev pub IsChange : Change → Type 0
IsChange no_change = Unit {0}
IsChange (adds names) = IsNames names
IsChange (removes names) = IsNames names
IsChange (adds_and_removes names others) = IsNames names × IsNames others

abbrev IsOptional : Option Str → Type 0
IsOptional none = Unit {0}
IsOptional (some value) = IsField value

abbrev pub IsName : Option Str → Type 0
IsName none = Unit {0}
IsName (some name) = Fits 21 name

pub record IsUpdate (u : Update) : Type 0 where
  pub name_fits : Fits 21 u.name
  pub new_name_fits : IsName u.new_name
  pub users_fit : IsChange u.users
  pub admins_fit : IsChange u.admins
  pub banned_fit : IsChange u.banned

-- What the server makes of them.
unfoldable pub alter_of : Change → Alter
alter_of no_change = record { flag = codes "0"; added = []; removed = [] }
alter_of (adds names) = record { flag = codes "1"; added = names; removed = [] }
alter_of (removes names) = record { flag = codes "2"; added = []; removed = names }
alter_of (adds_and_removes names others) = record {
  flag = codes "3";
  added = names;
  removed = others;
}

pub name_or_empty : Option Str → Str
name_or_empty none = []
name_or_empty (some name) = name

pub is_public : Option Bool → Bool
is_public (some true) = true
is_public other = false

unfoldable pub request_of : Update → UpdateRequest
request_of u = record {
  channel_name = u.name;
  is_change_name = is_some u.new_name;
  new_channel_name = name_or_empty u.new_name;
  is_change_publicity = is_some u.publicity;
  new_publicity = is_public u.publicity;
  users = alter_of u.users;
  admins = alter_of u.admins;
  banned = alter_of u.banned;
}

read_names-render :
    (names : List Str) (room : ℕ) (rest : Str)
    → length names ≤ room
    → All (Fits 21) names
    → read_names (length names) room (render_names names rest) ≡ next (names, rest)
unfolding read_names render_names
read_names-render [] room rest h fits = refl
read_names-render (name ∷ names) room rest h fits =
    let token = token_or-field 400 name (render_names names rest) fits.0.field in
    let later = read_names-render names (room - 1) rest (omega arith) fits.1 in
    let place : ltb 0 room ≡ true = lt→ltb 0 room (omega arith) in
    rw token (rw (place, later, strncpy-Fits 21 name fits.0) refl)

read_counted-render :
    (names : List Str) (rest : Str)
    → IsNames names
    → read_counted (render_counted names rest) ≡ next (names, rest)
unfolding read_counted render_counted to_int
read_counted-render names rest h =
    let n = length names in
    let token = token_or-field 400 (decimal n) (render_names names rest) (decimal-IsField n) in
    let number = strtol-decimal n (omega (arith, h.room)) in
    let low : n % 2 ^ 32 ≡ n = omega (arith, h.room) in
    let small : ltb n (2 ^ 31) ≡ true = lt→ltb n (2 ^ 31) (omega (arith, h.room)) in
    rw token (rw (number, low, small) (read_names-render names 64 rest h.room h.fits))

read_alter-render :
    (c : Change) (rest : Str)
    → IsChange c
    → read_alter (render_change c rest) ≡ next (alter_of c, rest)
unfolding read_alter render_change alter_of streq
read_alter-render no_change rest h = refl
read_alter-render (adds names) rest h = rw (read_counted-render names rest h) refl
read_alter-render (removes names) rest h = rw (read_counted-render names rest h) refl
read_alter-render (adds_and_removes names others) rest h =
    rw (read_counted-render names (render_counted others rest) h.0)
      (rw (read_counted-render others rest h.1) refl)

read_optional-render :
    (o : Option Str) (rest : Str)
    → IsOptional o
    → read_optional (render_optional o rest) ≡ next (o, rest)
unfolding read_optional render_optional streq
read_optional-render none rest h = refl
read_optional-render (some value) rest h = rw (token_or-field 400 value rest h) refl

IsName-IsOptional : (o : Option Str) → IsName o → IsOptional o
IsName-IsOptional none h = tt
IsName-IsOptional (some name) h = h.field

strncpy-IsName : (o : Option Str) → IsName o → strncpy 21 (text_or_empty o) ≡ name_or_empty o
unfolding name_or_empty
strncpy-IsName none h = refl
strncpy-IsName (some name) h = strncpy-Fits 21 name h

publicity-IsOptional : (p : Option Bool) → IsOptional (publicity_text p)
unfolding publicity_text
publicity-IsOptional none = tt
publicity-IsOptional (some true) = (refl, ((omega arith, omega arith), tt))
publicity-IsOptional (some false) = (refl, ((omega arith, omega arith), tt))

streq-publicity :
    (p : Option Bool) → streq (text_or_empty (publicity_text p)) (codes "1") ≡ is_public p
unfolding publicity_text is_public streq
streq-publicity none = refl
streq-publicity (some true) = refl
streq-publicity (some false) = refl

is_some-publicity : (p : Option Bool) → is_some (publicity_text p) ≡ is_some p
unfolding publicity_text
is_some-publicity none = refl
is_some-publicity (some true) = refl
is_some-publicity (some false) = refl

-- Every update of a channel that a client may ask for, with names that their arrays have room for and
-- at most 64 names in a list, is read back from its body as it was asked for: a new name, a new
-- publicity, and the names to add to and to remove from each of the three lists.
pub parse_update-render : (u : Update) → IsUpdate u → parse_update (render u) ≡ next (request_of u)
unfolding parse_update render request_of
parse_update-render u h =
    let tail4 = render_change u.banned [] in
    let tail3 = render_change u.admins tail4 in
    let tail2 = render_change u.users tail3 in
    let tail1 = render_optional (publicity_text u.publicity) tail2 in
    let tail0 = render_optional u.new_name tail1 in
    rw
      (
        token_or-field 400 u.name tail0 h.name_fits.field,
        copy_token-Fits 21 u.name h.name_fits,
        read_optional-render u.new_name tail1 (IsName-IsOptional u.new_name h.new_name_fits),
        read_optional-render (publicity_text u.publicity) tail2 (publicity-IsOptional u.publicity),
        read_alter-render u.users tail3 h.users_fit,
        read_alter-render u.admins tail4 h.admins_fit,
        read_alter-render u.banned [] h.banned_fit,
        strncpy-IsName u.new_name h.new_name_fits,
        streq-publicity u.publicity,
        is_some-publicity u.publicity,
      )
      refl
