-- ===== src/Process.antt =====
-- `main` of src/main-chat-server.c: from the arguments to the loop over the menu.
pub mod Paths
pub mod Lifetime
use datacomm_chat_server.Prelude.{
  ℕ, Bool, true, false, Option, some, none, List, [], ◌∷◌, ◌==◌, not, if◌then◌else◌, ℤ, pos, fault,
  exits, next, Flow,
}
use datacomm_chat_server.Prelude.Partial.{◌>>=◌}
use datacomm_chat_server.CString.{Str}
use datacomm_chat_server.Ndbm.{Ndbm}
use datacomm_chat_server.Records.{Env, Server}
use datacomm_chat_server.Cache.{initial_users}
use datacomm_chat_server.Menu.{Key, navigate_menu}
use datacomm_chat_server.Options.{
  Opt, parse_arguments, options_init, parsed, exit_failure, ended, Parsed,
}
use datacomm_chat_server.Poll.{Sockets, Round, run_server, close_socket}
use datacomm_chat_server.Process.Paths.{setup_db_paths, DbPaths}

-- One round of the loop over the menu: the keys pressed there, and, where the server is started, what
-- its sockets, the start and the rounds of its poll loop find until `q` is pressed.
pub record Visit : Type 0 where
  pub keys : List Key
  pub sockets : Sockets
  pub env : Env
  pub rounds : List Round

module _ ⦃N : Ndbm⦄ where
  -- `close(opts.server_sock)` behind the run, which has closed the socket before.
  abbrev pub close_again : Option ℕ → Server → Server
  close_again none s = s
  close_again (some server_sock) s = close_socket server_sock s

  -- `case 1`. The result of `run_server` only decides what is shown.
  unfoldable pub start_server : Visit → Server → Option Server
  unfolding run_server
  start_server v s = do
    (code, after) ← run_server v.sockets v.env v.rounds s
    some (close_again v.sockets.server_sock after)

  -- The cases 2 and 3 only show what is stored, and the default does nothing.
  unfoldable pub enter_choice : ℕ → Visit → Server → Option Server
  unfolding start_server
  enter_choice choice v s = if choice == 1 then start_server v s else some s

  -- `while (!quit)`: whether the loop was left, and the server then. It waits for keys where the
  -- visits, or the keys of a visit, end first.
  unfoldable pub main_loop : List Visit → Server → Option (Bool × Server)
  unfolding enter_choice navigate_menu
  main_loop [] s = some (false, s)
  main_loop (v ∷ visits) s = elim (navigate_menu v.keys) [
    | none ↦ some (false, s)
    | some choice ↦ elim (choice == 4) [
      | true ↦ some (true, s)
      | false ↦ (enter_choice choice v s >>= λ after. main_loop visits after)
    ]
  ]

  -- Behind the initialisation of the array. `log_opens` says whether err_log.txt can be opened. The
  -- result is the exit status, `none` while the process runs, and the server.
  unfoldable pub show_menu : Bool → List Visit → Server → Option (Option ℤ × Server)
  unfolding main_loop
  show_menu false visits s = some (some (pos 1), s)
  show_menu true visits s =
      main_loop visits s >>= λ left. some (if left.0 then some (pos 0) else none, left.1)

  unfoldable pub with_paths : Flow DbPaths → Bool → List Visit → Server → Option (Option ℤ × Server)
  unfolding show_menu initial_users
  with_paths fault log_opens visits s = none
  with_paths (exits code) log_opens visits s = some (some (pos 1), s)
  with_paths (next paths) log_opens visits s =
      show_menu log_opens visits (record s { cache = initial_users })

  unfoldable pub with_options :
      Parsed → Option Str → Bool → List Visit → Server → Option (Option ℤ × Server)
  unfolding setup_db_paths with_paths
  with_options exit_failure home log_opens visits s = some (some (pos 1), s)
  with_options (ended msg) home log_opens visits s = some (some (pos 2), s)
  with_options (parsed opts) home log_opens visits s =
      with_paths (setup_db_paths home) log_opens visits s

  module _ (getopt : List Str → List Opt × ℕ) where
    unfoldable pub main :
        List Str → Option Str → Bool → List Visit → Server → Option (Option ℤ × Server)
    unfolding parse_arguments with_options
    main argv home log_opens visits s =
        with_options (parse_arguments getopt argv options_init) home log_opens visits s
