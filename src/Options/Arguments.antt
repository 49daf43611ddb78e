-- ===== src/Options/Arguments.antt =====
-- Which ports the arguments of the server give.
use datacomm_chat_server.Prelude.{
  ℕ, ◌^◌, ◌<◌, ◌≤◌, ◌≡◌, ◌∙◌, refl, subst, true, false, [], ◌∷◌, arith, pos, ltb, if◌then◌else◌,
  List, length, Bool-cases, Option-cases, inl, inr, ℤ, negsuc, ◌||◌, ◌≢◌, ◌%◌, ◌==◌,
}
use datacomm_chat_server.CString.{Str, decimal, strtol, strtol_end, strtol_range, codes, is_empty}
use datacomm_chat_server.CString.Decimal.{strtol-decimal}
use datacomm_chat_server.CString.Number.{strtol_end-decimal, strtol_range-decimal}
use datacomm_chat_server.Options.{
  Port, port, fatal, greater_than_max, out_of_range_of_long, parse_port, Options, options_init, Opt,
  option_p, Parsed, parsed, exit_failure, ended, parse_options, parse_arguments, port_of, set_port,
  then_parsed, missing_operand, unknown_option,
}

parse_port_small :
    (n : ℕ)
    → n < 2 ^ 63
    → parse_port (decimal n) ≡ (if ltb 65535 n then fatal greater_than_max else port n)
unfolding parse_port
parse_port_small n h =
    let range : strtol_range (decimal n) ≡ false = strtol_range-decimal n ∙ ground arith in
    rw (parse_port, strtol_end-decimal n, range, strtol-decimal n h) refl

parse_port_large : (n : ℕ) → 2 ^ 63 ≤ n → parse_port (decimal n) ≡ fatal out_of_range_of_long
unfolding parse_port
parse_port_large n h =
    let range : strtol_range (decimal n) ≡ true = strtol_range-decimal n ∙ ground arith in
    rw (parse_port, strtol_end-decimal n, range) refl

-- A number that is printed in decimal is parsed as the port of that number where it is below 65536,
-- and otherwise ends the process, with a message of its own for a number beyond `long`.
pub parse_port-decimal :
    (n : ℕ)
    → parse_port (decimal n) ≡ (
        if ltb n (2 ^ 16)
        then port n
        else if ltb n (2 ^ 63)
        then fatal greater_than_max
        else fatal out_of_range_of_long)
parse_port-decimal n = elim (Bool-cases (ltb n (2 ^ 63))) [
  | inl small ↦ parse_port_small n (ground arith) ∙ ground arith
  | inr large ↦ parse_port_large n (ground arith) ∙ ground arith
]

-- A port of 16 bits, or none.
IsPort : Port → Type 0
IsPort (port n) = n < 2 ^ 16
IsPort (fatal msg) = Unit {0}

port_of-IsPort : (sl : ℤ) → IsPort (port_of sl)
unfolding IsPort
port_of-IsPort (pos sl) = elim (Bool-cases (ltb 65535 sl)) [
  | inl large ↦ rw large tt
  | inr small ↦ rw small (ground arith)
]
port_of-IsPort (negsuc sl) = tt

parse_port-IsPort : (buff : Str) → IsPort (parse_port buff)
unfolding parse_port IsPort
parse_port-IsPort buff = elim (Option-cases (strtol_end buff)) [
  | inl nothing ↦ rw (parse_port, nothing) tt
  | inr (end, stops) ↦ elim (Bool-cases (is_empty end)) [
    | inr more ↦ rw (parse_port, stops, more) tt
    | inl whole ↦ elim (Bool-cases (strtol_range buff)) [
      | inl out ↦ rw (parse_port, stops, whole, out) tt
      | inr fits ↦ rw (parse_port, stops, whole, fits) (port_of-IsPort (strtol buff))
    ]
  ]
]

IsParsed : Parsed → Type 0
IsParsed (parsed opts) = opts.port_in < 2 ^ 16
IsParsed exit_failure = Unit {0}
IsParsed (ended msg) = Unit {0}

then_parsed-IsParsed :
    (p : Parsed) (f : Options → Parsed)
    → IsParsed p
    → ((opts : Options) → opts.port_in < 2 ^ 16 → IsParsed (f opts))
    → IsParsed (then_parsed p f)
unfolding IsParsed
then_parsed-IsParsed (parsed opts) f h k = k opts h
then_parsed-IsParsed exit_failure f h k = tt
then_parsed-IsParsed (ended msg) f h k = tt

set_port-IsParsed : (p : Port) (opts : Options) → IsPort p → IsParsed (set_port p opts)
unfolding IsPort IsParsed
set_port-IsParsed (port n) opts h = h
set_port-IsParsed (fatal msg) opts h = tt

parse_options-IsParsed :
    (results : List Opt) (opts : Options)
    → opts.port_in < 2 ^ 16
    → IsParsed (parse_options results opts)
unfolding parse_options IsParsed
parse_options-IsParsed [] opts h = h
parse_options-IsParsed (option_p optarg ∷ results) opts h =
    then_parsed-IsParsed (set_port (parse_port optarg) opts) (parse_options results)
      (set_port-IsParsed (parse_port optarg) opts (parse_port-IsPort optarg))
      (λ after k. parse_options-IsParsed results after k)
parse_options-IsParsed (missing_operand ∷ results) opts h = tt
parse_options-IsParsed (unknown_option ∷ results) opts h = tt

module _ (getopt : List Str → List Opt × ℕ) where
  parse_arguments-IsParsed : (argv : List Str) → IsParsed (parse_arguments getopt argv options_init)
  unfolding parse_arguments
  parse_arguments-IsParsed argv =
      let argc = length argv in
      elim (Bool-cases (ltb 3 argc || argc % 2 == 0)) [
        | inl usage ↦ rw (parse_arguments, usage) (unfold IsParsed in tt)
        | inr fits ↦
            rw (parse_arguments, fits)
              (then_parsed-IsParsed (parse_options (getopt argv).0 options_init) _
                (parse_options-IsParsed (getopt argv).0 options_init (omega arith))
                (λ after k. elim (Bool-cases (ltb (getopt argv).1 argc)) [
                  | inl rest ↦ rw rest (unfold IsParsed in tt)
                  | inr all ↦ rw all (unfold IsParsed in k)
                ]))
      ]

  -- Whatever the arguments are and whatever `getopt` makes of them: where the server starts, its port
  -- has 16 bits.
  pub parse_arguments-bounds :
      (argv : List Str) (opts : Options)
      → parse_arguments getopt argv options_init ≡ parsed opts
      → opts.port_in < 2 ^ 16
  unfolding IsParsed
  parse_arguments-bounds argv opts e = subst IsParsed e (parse_arguments-IsParsed argv)

usage : (argc : ℕ) → argc ≢ 1 → argc ≢ 3 → (ltb 3 argc || argc % 2 == 0) ≡ true
usage argc one three = ground (arith, one, three)

-- What the documentation of `getopt` says of the two ways to start the server, with the option
-- string "p:".
pub record GetoptWorks (getopt : List Str → List Opt × ℕ) : Type 0 where
  pub no_option : (program : Str) → getopt (program ∷ []) ≡ ([], 1)
  pub one_option :
      (program optarg : Str)
      → getopt (program ∷ codes "-p" ∷ optarg ∷ []) ≡ (option_p optarg ∷ [], 3)

module _ (getopt : List Str → List Opt × ℕ) (W : GetoptWorks getopt) where
  -- Started without arguments the server takes port 5050; started with `-p` and a number of 16 bits
  -- in decimal it takes that port; and with any other number of arguments it does not start.
  pub parse_arguments-ports :
      (program : Str) (n : ℕ) (argv : List Str)
      → n < 2 ^ 16
      → length argv ≢ 1
      → length argv ≢ 3
      → (parse_arguments getopt (program ∷ []) options_init
          ≡ parsed (record { port_in = 5050; server_sock = 0 }))
        × (parse_arguments getopt (program ∷ codes "-p" ∷ decimal n ∷ []) options_init
            ≡ parsed (record { port_in = n; server_sock = 0 }))
        × (parse_arguments getopt argv options_init ≡ exit_failure)
  unfolding parse_arguments parse_options
  parse_arguments-ports program n argv small one three =
      let parsed_port : parse_port (decimal n) ≡ port n = parse_port-decimal n ∙ ground arith in
      (
        rw (parse_arguments, W.no_option program) refl,
        rw (parse_arguments, W.one_option program (decimal n), parsed_port) refl,
        rw (parse_arguments, usage (length argv) one three) refl,
      )
