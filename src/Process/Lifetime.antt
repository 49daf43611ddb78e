-- ===== src/Process/Lifetime.antt =====
-- The array of connected users over the whole life of the process of src/main-chat-server.c.
use datacomm_chat_server.Process.Paths.{setup_db_paths, DbPaths}
use datacomm_chat_server.Options.{Opt, parse_arguments, options_init, Parsed}
use datacomm_chat_server.Accounts.{admin_name, generate_user_account}
use datacomm_chat_server.Menu.{navigate_menu}
use datacomm_chat_server.Database.{
  check_duplicate_channel_name, insert_display_name, insert_user_login, insert_user_account,
  check_duplicate_display_name,
}
use datacomm_chat_server.Options.{exit_failure, ended, parsed}
use datacomm_chat_server.Prelude.{
  ℕ, ◌≡◌, refl, sym, subst, Bool, true, false, Option, some, none, List, [], ◌∷◌, ◌==◌, length, ℤ,
  pos, Option-cases, Bool-cases, inl, inr, arith, fault, exits, next, negsuc, not, is_code, ◌&&◌,
  if◌then◌else◌, Flow,
}
use datacomm_chat_server.CString.{Str, codes}
use datacomm_chat_server.Ndbm.{Ndbm}
use datacomm_chat_server.Records.{Env, Server}
use datacomm_chat_server.Cache.{initial_users, get_num_connected_users}
use datacomm_chat_server.Cache.View.{IsCache, connected, initial_users-IsCache, get_num-connected}
use datacomm_chat_server.Dispatch.Invariant.{CacheOf}
use datacomm_chat_server.Dispatch.Reach.{Reaches-IsCache}
use datacomm_chat_server.Request.Holds.{Holds, Holds-some, Holds-none, Holds-then, Holds-if}
use datacomm_chat_server.Startup.{
  prepare, create_admin, create_global_channel, admin_uuid, admin_login,
}
use datacomm_chat_server.Poll.{
  Sockets, Round, Loop, init_pollfd, run_rounds, serve_clients, run_server,
}
use datacomm_chat_server.Poll.Requests.{run_rounds-Reaches}
use datacomm_chat_server.Process.{
  Visit, start_server, enter_choice, main_loop, main, close_again, show_menu, with_paths,
  with_options,
}

module _ ⦃N : Ndbm⦄ where
  create_admin-IsCache : (s : Server) → CacheOf s → Holds CacheOf (create_admin s)
  unfolding create_admin
  create_admin-IsCache s ok =
      let s1 : Server = (insert_display_name s admin_name admin_uuid).1 in
      let s2 : Server = (insert_user_login s1 admin_login).1 in
      let (stored, s3) = insert_user_account s2 (generate_user_account admin_uuid admin_name) in
      let named = (insert_display_name s admin_name admin_uuid).0 in
      let logged = (insert_user_login s1 admin_login).0 in
      let inserted = is_code stored 0 && (is_code logged 0 && is_code named 0) in
      Holds-if CacheOf (check_duplicate_display_name s admin_name) (some s)
        (if inserted then some s3 else none) (Holds-some CacheOf s ok)
        (Holds-if CacheOf inserted (some s3) none (Holds-some CacheOf s3 ok) (Holds-none CacheOf))

  global_channel-IsCache :
      (env : Env) (s : Server) → CacheOf s → CacheOf (create_global_channel env s)
  unfolding create_global_channel
  global_channel-IsCache env s ok =
      elim (Bool-cases (check_duplicate_channel_name s (codes "global"))) [
        | inl there ↦ rw (create_global_channel, there) ok
        | inr free ↦ rw (create_global_channel, free) ok
      ]

  prepare-IsCache : (env : Env) (s : Server) → CacheOf s → Holds CacheOf (prepare env s)
  unfolding prepare
  prepare-IsCache env s ok =
      Holds-then CacheOf CacheOf (create_admin s) (λ p. some (create_global_channel env p))
        (create_admin-IsCache s ok)
        (λ p k. Holds-some CacheOf (create_global_channel env p) (global_channel-IsCache env p k))

  Holds-of : {A : Type 0} (P : A → Type 0) (o : Option A) → ((a : A) → o ≡ some a → P a) → Holds P o
  unfolding Holds
  Holds-of P none k = tt
  Holds-of P (some a) k = k a refl

  run_rounds-IsCache :
      (rounds : List Round) (l : Loop)
      → CacheOf l.server
      → Holds (λ (last : Loop). CacheOf last.server) (run_rounds rounds l)
  run_rounds-IsCache rounds l ok =
      Holds-of (λ (last : Loop). CacheOf last.server) (run_rounds rounds l)
        (λ last e. Reaches-IsCache (run_rounds-Reaches rounds l last e) ok)

  serve_clients-IsCache :
      (server_sock : ℕ) (rounds : List Round) (s : Server)
      → CacheOf s
      → Holds CacheOf (serve_clients server_sock rounds s)
  unfolding serve_clients
  serve_clients-IsCache server_sock rounds s ok =
      Holds-then CacheOf (λ (last : Loop). CacheOf last.server)
        (run_rounds rounds (record { slots = init_pollfd; server = s })) _
        (run_rounds-IsCache rounds (record { slots = init_pollfd; server = s }) ok)
        (λ last k. Holds-some CacheOf _ k)

  AnswerOf : ℤ × Server → Type 0
  AnswerOf answer = CacheOf answer.1

  -- The sockets are opened, or `run_server` returns -1 with the databases and the users as they were.
  run_server-IsCache :
      (sockets : Sockets) (env : Env) (rounds : List Round) (s : Server)
      → CacheOf s
      → Holds AnswerOf (run_server sockets env rounds s)
  unfolding run_server AnswerOf
  run_server-IsCache sockets env rounds s ok = elim (Option-cases sockets.server_sock) [
    | inl closed ↦ rw (run_server, closed) (Holds-some AnswerOf (negsuc 0, s) ok)
    | inr (server_sock, opened) ↦
        rw (run_server, opened)
          (Holds-if AnswerOf (not sockets.setsockopt) _ _ (Holds-some AnswerOf _ ok) (
            Holds-if AnswerOf (not sockets.bind) _ _ (Holds-some AnswerOf _ ok) (
              Holds-if AnswerOf (not sockets.listen) _ _ (Holds-some AnswerOf _ ok) (
                Holds-then AnswerOf CacheOf (prepare env s) _ (prepare-IsCache env s ok)
                  (λ prepared k.
                    Holds-then AnswerOf CacheOf (serve_clients server_sock rounds prepared) _
                      (serve_clients-IsCache server_sock rounds prepared k)
                      (λ after kept. Holds-some AnswerOf (pos 0, after) kept))))))
  ]

  close_again-IsCache : (sock : Option ℕ) (s : Server) → CacheOf s → CacheOf (close_again sock s)
  close_again-IsCache none s ok = ok
  close_again-IsCache (some server_sock) s ok = ok

  start_server-IsCache : (v : Visit) (s : Server) → CacheOf s → Holds CacheOf (start_server v s)
  unfolding start_server AnswerOf
  start_server-IsCache v s ok =
      Holds-then CacheOf AnswerOf (run_server v.sockets v.env v.rounds s) _
        (run_server-IsCache v.sockets v.env v.rounds s ok)
        (λ answer k.
          Holds-some CacheOf (close_again v.sockets.server_sock answer.1)
            (close_again-IsCache v.sockets.server_sock answer.1 k))

  LoopOf : Bool × Server → Type 0
  LoopOf left = CacheOf left.1

  main_loop-IsCache :
      (visits : List Visit) (s : Server) → CacheOf s → Holds LoopOf (main_loop visits s)
  unfolding main_loop enter_choice LoopOf
  main_loop-IsCache [] s ok = Holds-some LoopOf (false, s) ok
  main_loop-IsCache (v ∷ visits) s ok = elim (Option-cases (navigate_menu v.keys)) [
    | inl waits ↦ rw (main_loop, waits) (Holds-some LoopOf (false, s) ok)
    | inr (choice, entered) ↦ elim (Bool-cases (choice == 4)) [
      | inl quit ↦ rw (main_loop, entered, quit) (Holds-some LoopOf (true, s) ok)
      | inr stays ↦
          rw (main_loop, entered, stays)
            (Holds-then LoopOf CacheOf (enter_choice choice v s) (main_loop visits)
              (Holds-if CacheOf (choice == 1) (start_server v s) (some s)
                (start_server-IsCache v s ok) (Holds-some CacheOf s ok))
              (λ after k. main_loop-IsCache visits after k))
    ]
  ]

  ProcessOf : Option ℤ × Server → Type 0
  ProcessOf left = CacheOf left.1

  show_menu-IsCache :
      (log_opens : Bool) (visits : List Visit) (s : Server)
      → CacheOf s
      → Holds ProcessOf (show_menu log_opens visits s)
  unfolding show_menu ProcessOf LoopOf
  show_menu-IsCache false visits s ok = Holds-some ProcessOf (some (pos 1), s) ok
  show_menu-IsCache true visits s ok =
      Holds-then ProcessOf LoopOf (main_loop visits s) _ (main_loop-IsCache visits s ok)
        (λ left k. Holds-some ProcessOf (if left.0 then some (pos 0) else none, left.1) k)

  with_paths-IsCache :
      (paths : Flow DbPaths) (log_opens : Bool) (visits : List Visit) (s : Server)
      → CacheOf s
      → Holds ProcessOf (with_paths paths log_opens visits s)
  unfolding with_paths ProcessOf
  with_paths-IsCache fault log_opens visits s ok = Holds-none ProcessOf
  with_paths-IsCache (exits code) log_opens visits s ok = Holds-some ProcessOf (some (pos 1), s) ok
  with_paths-IsCache (next paths) log_opens visits s ok =
      show_menu-IsCache log_opens visits (record s { cache = initial_users }) initial_users-IsCache

  with_options-IsCache :
      (p : Parsed) (home : Option Str) (log_opens : Bool) (visits : List Visit) (s : Server)
      → CacheOf s
      → Holds ProcessOf (with_options p home log_opens visits s)
  unfolding with_options ProcessOf
  with_options-IsCache exit_failure home log_opens visits s ok =
      Holds-some ProcessOf (some (pos 1), s) ok
  with_options-IsCache (ended msg) home log_opens visits s ok =
      Holds-some ProcessOf (some (pos 2), s) ok
  with_options-IsCache (parsed opts) home log_opens visits s ok =
      with_paths-IsCache (setup_db_paths home) log_opens visits s ok

  -- Over the whole life of the process, whatever its arguments are, however often the server is
  -- started from the menu and whatever its clients send: the array of connected users has all its
  -- places, no entry behind a free one, and `get_num_connected_users` counts exactly the connected
  -- users. The array is zeroed when the process starts.
  pub main-IsCache :
      (getopt : List Str → List Opt × ℕ) (argv : List Str) (home : Option Str) (log_opens : Bool)
      (visits : List Visit) (s after : Server) (code : Option ℤ)
      → s.cache ≡ initial_users
      → main getopt argv home log_opens visits s ≡ some (code, after)
      → IsCache after.cache × (get_num_connected_users after.cache ≡ length (connected after.cache))
  unfolding main Holds ProcessOf
  main-IsCache getopt argv home log_opens visits s after code zeroed e =
      let start : CacheOf s = subst IsCache (sym zeroed) initial_users-IsCache in
      let p = parse_arguments getopt argv options_init in
      let ok : IsCache after.cache =
        subst (Holds ProcessOf) e (with_options-IsCache p home log_opens visits s start) in
      (ok, get_num-connected after.cache (omega (arith, ok.size)))
