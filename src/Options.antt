-- ===== src/Options.antt =====
-- src/conversion.c: `parse_port`. src/option_handler.c: `options_init` and `parse_arguments`, on what
-- `getopt` makes of the arguments.
pub mod Arguments
use datacomm_chat_server.Prelude.{
  ℕ, ◌%◌, ◌^◌, Bool, true, false, ◌||◌, not, ◌==◌, ltb, if◌then◌else◌, Option, none, some, List, [],
  ◌∷◌, length, ℤ, pos, negsuc, ◌-◌,
}
use datacomm_chat_server.CString.{Str, is_empty, strtol, strtol_end, strtol_range}

abbrev pub default_port : ℕ
default_port = 5050

abbrev pub max_arg_count : ℕ
max_arg_count = 3

-- The messages that `fatal_message` ends the process with.
pub data PortError : Type 0 where
  not_a_decimal_number extra_characters out_of_range_of_long greater_than_max less_than_zero :
      PortError

pub data Port : Type 0 where
  port : ℕ → Port
  fatal : PortError → Port

abbrev pub uint16_max : ℕ
uint16_max = 2 ^ 16 - 1

abbrev pub port_of : ℤ → Port
port_of (pos sl) = if ltb uint16_max sl then fatal greater_than_max else port sl
port_of (negsuc sl) = fatal less_than_zero

-- The radix is 10 at its one call.
unfoldable pub parse_port : Str → Port
unfolding strtol strtol_end strtol_range
parse_port buff = elim (strtol_end buff) [
  | none ↦ fatal not_a_decimal_number
  | some end ↦
      if not (is_empty end)
      then fatal extra_characters
      else if strtol_range buff
      then fatal out_of_range_of_long
      else port_of (strtol buff)
]

pub record Options : Type 0 where
  pub port_in : ℕ
  pub server_sock : ℕ

abbrev pub options_init : Options
options_init = record { port_in = default_port; server_sock = 0 }

-- What a call of `getopt` returns: `p` with its argument, `:` or `?`.
pub data Opt : Type 0 where
  option_p : Str → Opt
  missing_operand unknown_option : Opt

-- `EXIT_SUCCESS` with the options, `EXIT_FAILURE`, or the end of the process by `parse_port`.
pub data Parsed : Type 0 where
  parsed : Options → Parsed
  exit_failure : Parsed
  ended : PortError → Parsed

abbrev pub set_port : Port → Options → Parsed
set_port (port n) opts = parsed (record opts { port_in = n })
set_port (fatal msg) opts = ended msg

abbrev pub then_parsed : Parsed → (Options → Parsed) → Parsed
then_parsed (parsed opts) f = f opts
then_parsed exit_failure f = exit_failure
then_parsed (ended msg) f = ended msg

-- The loop over the options.
unfoldable pub parse_options : List Opt → Options → Parsed
unfolding parse_port
parse_options [] opts = parsed opts
parse_options (option_p optarg ∷ results) opts =
    then_parsed (set_port (parse_port optarg) opts) (λ after. parse_options results after)
parse_options (other ∷ results) opts = exit_failure

module _ (getopt : List Str → List Opt × ℕ) where
  unfoldable pub parse_arguments : List Str → Options → Parsed
  unfolding parse_options
  parse_arguments argv opts =
      let argc = length argv in
      let (results, optind) = getopt argv in
      if ltb max_arg_count argc || argc % 2 == 0
      then exit_failure
      else then_parsed (parse_options results opts)
          (λ after. if ltb optind argc then exit_failure else parsed after)
