-- ===== src/Logger.antt =====
-- src/logger.c: `log_event`, which writes an event into a file. Nothing of the server calls it.
use datacomm_chat_server.Prelude.{
  ℕ, ◌-◌, ◌*◌, ◌≡◌, refl, Option, some, List, [], ◌∷◌, ◌++◌, ℤ, pos, negsuc, ltb, if◌then◌else◌,
  get_elem?, set, suc, zero,
}
use datacomm_chat_server.Prelude.Partial.{◌>>=◌}
use datacomm_chat_server.CString.{Str, codes, streq, show_int}

-- The times of the connections, in an array of 100 places, and the text of the file.
pub record Log : Type 0 where
  pub connection_time : List ℕ
  pub text : Str

-- `difftime(current_time, earlier) * 1000`, as `long long`.
abbrev pub milliseconds : ℕ → ℕ → ℤ
milliseconds now earlier =
    if ltb now earlier then negsuc ((earlier - now) * 1000 - 1) else pos ((now - earlier) * 1000)

abbrev pub event_line : Str → Str → Str → Str
event_line c_time_string event_type ip_address =
    c_time_string ++ codes ", " ++ event_type ++ codes ", " ++ ip_address

-- `c_time_string` is the text of `ctime` without its line feed. `none`: the index is behind the array.
unfoldable pub log_event : Str → ℕ → Log → Str → Str → ℕ → Option Log
unfolding streq show_int
log_event c_time_string current_time log ip_address event_type i =
    let line = event_line c_time_string event_type ip_address in
    if streq event_type (codes "CONNECT")
    then (get_elem? log.connection_time i >>= λ old. some (record {
      connection_time = set log.connection_time i current_time;
      text = log.text ++ line ++ 10 ∷ [];
    }))
    else if streq event_type (codes "DISCONNECT")
    then (get_elem? log.connection_time i >>= λ earlier. some (record log {
      text =
          log.text ++ line ++ codes ", " ++ show_int (milliseconds current_time earlier) ++ 10 ∷ [];
    }))
    else some (record log { text = log.text ++ line ++ 10 ∷ [] })

get_elem-set :
    (l : List ℕ) (i old new : ℕ) → get_elem? l i ≡ some old → get_elem? (set l i new) i ≡ some new
get_elem-set [] i old new e = absurd (cc)
get_elem-set (x ∷ l) zero old new e = refl
get_elem-set (x ∷ l) (suc i) old new e = get_elem-set l i old new e

-- A client that connects at one time and disconnects at another is logged with the milliseconds
-- between the two, as long as its index has a place in the array.
log_event-duration :
    (c1 c2 ip : Str) (t1 t2 i old : ℕ) (log : Log)
    → get_elem? log.connection_time i ≡ some old
    → (log_event c1 t1 log ip (codes "CONNECT") i >>= λ l.
        log_event c2 t2 l ip (codes "DISCONNECT") i)
      ≡ some (record {
        connection_time = set log.connection_time i t1;
        text =
            log.text
            ++ event_line c1 (codes "CONNECT") ip
            ++ 10 ∷ []
            ++ event_line c2 (codes "DISCONNECT") ip
            ++ codes ", "
            ++ show_int (milliseconds t2 t1)
            ++ 10 ∷ [];
      })
unfolding log_event streq
log_event-duration c1 c2 ip t1 t2 i old log there =
    rw there (rw (get_elem-set log.connection_time i old t1 there) refl)
