-- ===== src/Lib.antt =====
-- A model of the chat server: a program that answers requests of clients over TCP, keeps users, channels
-- and messages in five ndbm databases, and the users who are connected in an array. A request is a
-- header of four bytes and a body of fields that ETX separates.
--
-- The files, and the code that each models:
--   Records: the structures of include/my_ndbm.h and include/server.h, and the state of the server. A
--     Server is the five databases, the array active_users and the socket calls made so far; an Env is
--     what the environment answers during a request.
--   CString: the functions of the C library on texts (strcmp, strtok, strtol, "%d"), as lists of bytes
--     without the final NUL. Tokens and Decimal hold their laws.
--   Header: read_header and create_response_header of src/server.c.
--   Util: compare_strings, is_number and get_ip_str of src/util.c, and in Util/Tokenize tokenize_malloc.
--   Logger: log_event of src/logger.c.
--   Ndbm: the ndbm library, which is not part of the repository: its operations and documented
--     behaviour as an instance argument, and, as a second record, a disk without errors. Ndbm/Assoc
--     meets both with an association list.
--   Database, Database/Update: src/my_ndbm.c, one function per function. A pointer that may be null is
--     an Option, a status an integer beside the new state.
--   Cache: get_num_connected_users, insert_user_in_cache, remove_user_in_cache and the look-ups among
--     the connected users in src/server.c. Cache/View reads the array as a list.
--   Accounts: generate_user_login, generate_user_account, login_user_account and logout_user_account.
--   Request: how the handlers read a body and copy its fields; Request/Keeps and Request/Holds carry a
--     property through a handler.
--   User: read_and_create_user and read_and_destroy_user.
--   Auth: read_and_login_user, read_and_logout_user and build_channel_name_list.
--   Channel, Channel/Update: read_and_create_channel, read_and_read_channel, read_and_update_channel and
--     create_channel_or_null_malloc. Channel/Request holds how the fields of an update are read and
--     Channel/Adding what the update adds to a channel.
--   Message: read_and_create_message, read_and_read_message, build_message_list and
--     generate_message_malloc_or_null.
--   Response: the functions send_*_response.
--   Dispatch: handle_request. It reads the header, calls the handler, and sends the response; the state
--     goes from each to the next. Dispatch/Sessions, Dispatch/Logins, Dispatch/Logouts, Dispatch/Visits and
--     Dispatch/Messages follow a request through all of them.
--   Startup: create_admin and create_global_channel of src/my_ndbm.c, as run_server of
--     src/main-chat-server.c calls them.
--   Poll: run_server of src/main-chat-server.c, its table of descriptors and the rounds of its loop. A
--     Round is what poll, accept and the clients do in it. Poll/Places, Poll/Rounds and Poll/Requests
--     hold whom the loop accepts and answers.
--   Process, Process/Paths: main and setup_db_paths of src/main-chat-server.c. A Visit is one round of
--     the loop over the menu.
--   Menu, Menu/Drawing: navigate_menu, print_menu and print_db_paths of src/ncurses_ui.c.
--   Options: parse_port of src/conversion.c, options_init and parse_arguments of src/option_handler.c.
--   DbViewer: src/db_viewer.c. DbViewer/Standalone with its modules Accounts and Program:
--     db_viewer/main.c, on the bytes of the server's records. Cache/Viewer: view_active_users of
--     src/server.c.
--   Client: mock_client/main.c. Client/Served is what the server makes of its requests, Client/Session how
--     it reads the responses, Client/Dialog both together, and Client/Copy its function copy.
--   Prelude: shared names. Tests: concrete servers and requests.
--
-- A handler read_and_X is modelled by a function of the same name, split where its body has stages. A
-- handler ends in one of three ways: it returns a status early, it goes on to its end, or it faults. A
-- fault is a failed assertion, or undefined behaviour that the bytes of a request decide: a null pointer
-- that is read, a text longer than its array, an array without its NUL. A fault makes handle_request
-- `none`, the end of the process.
--
-- Taken as given: malloc succeeds, the host is little-endian, a read of a socket yields the bytes that
-- wait there, up to the number asked for, where there are none waits for one, and yields none when the
-- client has closed its side, a write sends all its bytes or fails, and a key of a database is equal to
-- another when the texts are, since keys have a fixed size and are padded. `O_CREAT` is the Boolean
-- argument of dbm_open. The prints of the server are left out, and of the terminal output all but what
-- the viewers and the menu print. What poll, accept, getopt and the socket calls answer is an argument of the model. The thread that runs the server
-- ends before the menu is shown again.
--
-- Loops are structural recursions over the array or list that they go through, with the number of
-- entries in use as a second argument. compare_strings runs on fuel, the sum of both lengths, and
-- compare_strings-squeeze shows that it is enough. `%d` runs on one more than the number, and
-- strtol-decimal shows the same of it. tokenize_malloc runs on one more than the length of its text, since
-- every token takes at least a byte, and copy on one more than the bytes asked for, since every round but
-- the last adds a byte. The poll loop and the loop over the menu go through the rounds that happen.
--
-- Not modelled: copies of a constant size that overrun a structure whatever the request is (the memcpy of
-- get_user_account_malloc_or_null, the strncpy at the end of read_and_read_message), and the list of
-- channels that a login allocates 8 bytes too short where there is none; what is read behind a name of 21
-- bytes that fills its array; get_message_malloc_or_null, which nothing calls, and which looks up a key of
-- another size than the one that is stored; src/error.c, which ends the process; the windows of
-- src/ncurses_ui.c; the calls of the system behind clean_stdin, generate_random_uuid_malloc and the set-up
-- of sockets.
mod Prelude
pub mod CString
pub mod Header
pub mod Util
pub mod Ndbm
pub mod Records
pub mod Database
pub mod Cache
pub mod Request
pub mod Accounts
pub mod User
pub mod Auth
pub mod Client
pub mod Channel
pub mod Message
pub mod Response
pub mod Dispatch
pub mod Startup
pub mod Poll
pub mod Logger
pub mod Menu
pub mod Options
pub mod Process
pub mod DbViewer
pub mod Tests
