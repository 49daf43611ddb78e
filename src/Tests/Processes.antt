-- ===== src/Tests/Processes.antt =====
-- The process from its arguments on, its poll loop, its menu and its viewers, at concrete values.
use datacomm_chat_server.Startup.{prepare, create_admin, create_global_channel}
use datacomm_chat_server.Response.{send_create_user_response}
use datacomm_chat_server.User.{read_and_create_user}
use datacomm_chat_server.Prelude.{
  ℕ, ◌≡◌, refl, true, some, none, Option, List, [], ◌∷◌, pos, ℤ, arith, length, next, take,
}
use datacomm_chat_server.CString.{Str, codes, decimal, streq}
use datacomm_chat_server.Header.{read_header}
use datacomm_chat_server.Records.{Server}
use datacomm_chat_server.Ndbm.Assoc.{insert, keys, table_ndbm, table_reliable, lookup}
use datacomm_chat_server.Cache.{get_num_connected_users}
use datacomm_chat_server.Cache.View.{IsCache, connected}
use datacomm_chat_server.Dispatch.{handle_request, serve, select}
use datacomm_chat_server.Client.{request_bytes, choose_create_user}
use datacomm_chat_server.Poll.{
  Round, Sockets, Loop, no_events, pollin, init_pollfd, run_rounds, poll_round, serve_ready,
  answer_events, polled, accept_client, admit, serve_slot, handle_slot, run_server, serve_clients,
}
use datacomm_chat_server.Poll.Places.{served}
use datacomm_chat_server.Prelude.Partial.{◌>>=◌}
use datacomm_chat_server.Poll.Rounds.{accepted, run_rounds_first, accepted_in, accepted_at}
use datacomm_chat_server.Poll.Requests.{answer_all, ready, poll_round-serves}
use datacomm_chat_server.Menu.{
  key_up, enter, other_key, navigate_menu, downwards, navigate_menu-returns,
}
use datacomm_chat_server.Options.{
  Opt, option_p, parse_arguments, options_init, parsed, exit_failure,
}
use datacomm_chat_server.Options.Arguments.{GetoptWorks, parse_arguments-ports}
use datacomm_chat_server.Process.{
  Visit, main, with_options, with_paths, show_menu, main_loop, enter_choice, start_server,
}
use datacomm_chat_server.Process.Paths.{setup_db_paths, setup_db_paths_cases, under}
use datacomm_chat_server.Process.Lifetime.{main-IsCache}
use datacomm_chat_server.Tests.Data.{quiet, env_with, get_or, some-get_or}

-- A client is accepted in the first round, and asks to be created as a user in the second.
abbrev arrival : Round
arrival = record {
  result = pos 1;
  listening = pollin;
  accepted = some (7, codes "10.0.0.7");
  revents = [];
  env = λ i. env_with [];
}

abbrev first_request : Round
first_request = record {
  result = pos 1;
  listening = no_events;
  accepted = none;
  revents = pollin ∷ [];
  env = λ i. env_with (request_bytes 0 choose_create_user);
}

abbrev fresh : Loop
fresh = record { slots = init_pollfd; server = quiet }

abbrev after_rounds : Loop
after_rounds = get_or fresh (run_rounds (arrival ∷ first_request ∷ []) fresh)

run_rounds_first_example : served after_rounds.slots ≡ take 254 ((7, codes "10.0.0.7") ∷ [])
unfolding run_rounds poll_round answer_events polled accept_client admit init_pollfd serve_ready
    serve_slot handle_slot handle_request read_header request_bytes serve select
    read_and_create_user lookup streq send_create_user_response accepted accepted_in accepted_at
run_rounds_first_example =
    run_rounds_first (arrival ∷ first_request ∷ []) quiet after_rounds
      (some-get_or fresh (run_rounds (arrival ∷ first_request ∷ []) fresh) refl)

-- Two clients are accepted, and the second asks to be created as a user.
abbrev second_arrival : Round
second_arrival = record arrival { accepted = some (9, codes "10.0.0.8") }

abbrev second_request : Round
second_request = record first_request { revents = no_events ∷ pollin ∷ [] }

abbrev after_arrivals : Loop
after_arrivals = get_or fresh (run_rounds (arrival ∷ second_arrival ∷ []) fresh)

poll_round-serves_example :
    (poll_round second_request after_arrivals >>= λ after. some after.server)
    ≡ answer_all second_request.env ((2, (9, codes "10.0.0.8")) ∷ []) after_arrivals.server
unfolding run_rounds poll_round answer_events polled accept_client admit init_pollfd serve_ready
    serve_slot accepted accepted_in accepted_at ready
poll_round-serves_example =
    poll_round-serves (arrival ∷ second_arrival ∷ []) second_request quiet after_arrivals
      (some-get_or fresh (run_rounds (arrival ∷ second_arrival ∷ []) fresh) refl) refl refl
      (omega arith)

-- The getopt of the two ways to start the server.
abbrev two_ways : List Str → List Opt × ℕ
two_ways (program ∷ flag ∷ optarg ∷ []) = (option_p optarg ∷ [], 3)
two_ways argv = ([], 1)

two_ways-GetoptWorks : GetoptWorks two_ways
two_ways-GetoptWorks = record { no_option = λ program. refl; one_option = λ program optarg. refl }

parse_arguments-ports_example :
    (parse_arguments two_ways (codes "server" ∷ []) options_init
      ≡ parsed (record { port_in = 5050; server_sock = 0 }))
    × (parse_arguments two_ways (codes "server" ∷ codes "-p" ∷ decimal 8080 ∷ []) options_init
        ≡ parsed (record { port_in = 8080; server_sock = 0 }))
    × (parse_arguments two_ways (codes "server" ∷ codes "-p" ∷ []) options_init ≡ exit_failure)
parse_arguments-ports_example =
    parse_arguments-ports two_ways two_ways-GetoptWorks (codes "server") 8080
      (codes "server" ∷ codes "-p" ∷ []) (omega arith) (omega arith) (omega arith)

setup_db_paths_cases_example :
    setup_db_paths (some (codes "/home/al"))
    ≡ next (record {
      login_info = under (codes "/home/al") (codes "user_login_info");
      display_names = under (codes "/home/al") (codes "display_names");
      user_account = under (codes "/home/al") (codes "user_account_info");
      channel_info = under (codes "/home/al") (codes "channel_info");
      message_info = under (codes "/home/al") (codes "messages_info");
    })
setup_db_paths_cases_example = setup_db_paths_cases (codes "/home/al")

navigate_menu-returns_example :
    (navigate_menu (key_up ∷ key_up ∷ other_key ∷ enter ∷ []) ≡ some 3)
    × (navigate_menu (key_up ∷ key_up ∷ other_key ∷ []) ≡ none)
unfolding downwards
navigate_menu-returns_example =
    navigate_menu-returns (key_up ∷ key_up ∷ other_key ∷ []) []
      ((λ e. cc e), ((λ e. cc e), ((λ e. cc e), tt)))

-- The server is started, serves the two rounds, is stopped, and the menu is left.
abbrev sockets : Sockets
sockets = record { server_sock = some 3; setsockopt = true; bind = true; listen = true }

abbrev run_visit : Visit
run_visit = record {
  keys = enter ∷ [];
  sockets = sockets;
  env = env_with [];
  rounds = arrival ∷ first_request ∷ [];
}

abbrev quit_visit : Visit
quit_visit = record run_visit { keys = key_up ∷ enter ∷ [] }

abbrev whole_run : Option (Option ℤ × Server)
whole_run =
    main two_ways (codes "server" ∷ []) (some (codes "/home/al")) true (run_visit ∷ quit_visit ∷ [])
      quiet

abbrev at_end : Option ℤ × Server
at_end = get_or (none, quiet) whole_run

main-IsCache_example :
    IsCache at_end.1.cache
    × (get_num_connected_users at_end.1.cache ≡ length (connected at_end.1.cache))
unfolding main with_options with_paths show_menu main_loop enter_choice start_server run_server
    serve_clients prepare create_admin create_global_channel run_rounds poll_round answer_events
    polled accept_client admit init_pollfd serve_ready serve_slot handle_slot handle_request
    read_header request_bytes serve select read_and_create_user lookup streq keys insert
    send_create_user_response parse_arguments setup_db_paths navigate_menu
main-IsCache_example =
    main-IsCache two_ways (codes "server" ∷ []) (some (codes "/home/al")) true
      (run_visit ∷ quit_visit ∷ []) quiet at_end.1 at_end.0 refl
      (some-get_or (none, quiet) whole_run refl)
