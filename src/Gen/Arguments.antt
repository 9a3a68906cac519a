-- ===== src/Gen/Arguments.antt =====
-- `parse_args` (src/rdrand-gen.c, lines 256-425). getopt_long is a parameter, as the list of the
-- options that it finds; so are strtod, strtoul and the arithmetic of `double`.
pub mod Accepted
use rd_rand.Prelude.{
  ℕ, ◌+◌, ◌-◌, ◌^◌, Bool, true, false, not, ◌&&◌, ◌||◌, Option, none, some, List, [], ◌∷◌,
  if◌then◌else◌, ltb, leb, ◌==◌,
}
use rd_rand.Arrays.{u32}
use rd_rand.Gen.Config.{
  Cnf, Method, get_bytes, get_reseed64_delay, get_reseed64_skip, compute_chunk_size,
}

-- An option with its argument; `unknown` stands for '?' and the default case.
pub data Opt : Type 0 where
  opt_version opt_verbose opt_help opt_aes_ctr : Opt
  opt_aes_keys opt_amount opt_threads opt_output opt_method : List ℕ → Opt
  opt_unknown : Opt

-- The functions on numbers. A parsed number comes with what is left of the argument, whether nothing
-- was read, and whether `errno` is ERANGE.
pub record Parsed (D : Type 0) : Type 0 where
  pub value : D
  pub rest : List ℕ
  pub nothing_read : Bool
  pub erange : Bool

pub record Numbers (D : Type 0) : Type 0 where
  pub strtod : List ℕ → Parsed D
  pub strtoul : List ℕ → Parsed ℕ
  -- `x < 0` and `x >= UINT64_MAX`
  pub is_below_zero : D → Bool
  pub is_too_large : D → Bool
  -- `x * pow(2, n)` and `(size_t)floor(x)`
  pub times_pow : D → ℕ → D
  pub floor : D → ℕ

-- The exponent that a suffix stands for: T, G, M or K, in both cases of letters.
unfoldable pub suffix_power : ℕ → Option ℕ
suffix_power c =
    if c == 116 || c == 84
    then some 40
    else if c == 103 || c == 71
    then some 30
    else if c == 109 || c == 77
    then some 20
    else if c == 107 || c == 75
    then some 10
    else none

unfoldable pub same_text : List ℕ → List ℕ → Bool
same_text [] [] = true
same_text [] (d ∷ ds) = false
same_text (c ∷ cs) [] = false
same_text (c ∷ cs) (d ∷ ds) = (c == d) && same_text cs ds

-- METHOD_NAMES: "get_bytes", "reseed_delay", "reseed_skip".
abbrev pub method_name : Method → List ℕ
method_name get_bytes = 103 ∷ 101 ∷ 116 ∷ 95 ∷ 98 ∷ 121 ∷ 116 ∷ 101 ∷ 115 ∷ []
method_name get_reseed64_delay =
    114 ∷ 101 ∷ 115 ∷ 101 ∷ 101 ∷ 100 ∷ 95 ∷ 100 ∷ 101 ∷ 108 ∷ 97 ∷ 121 ∷ []
method_name get_reseed64_skip = 114 ∷ 101 ∷ 115 ∷ 101 ∷ 101 ∷ 100 ∷ 95 ∷ 115 ∷ 107 ∷ 105 ∷ 112 ∷ []

-- The loop over the names.
unfoldable pub find_method : List ℕ → Option Method
find_method optarg =
    if same_text optarg (method_name get_bytes)
    then some get_bytes
    else if same_text optarg (method_name get_reseed64_delay)
    then some get_reseed64_delay
    else if same_text optarg (method_name get_reseed64_skip)
    then some get_reseed64_skip
    else none

module _ {D : Type 0} (numbers : Numbers D) where
  -- The number of bytes; none is EXIT_FAILURE.
  unfoldable pub parse_amount : List ℕ → Option ℕ
  parse_amount optarg =
      let p = numbers.strtod optarg in
      if p.nothing_read
        || (p.erange || (numbers.is_below_zero p.value || numbers.is_too_large p.value))
      then none
      else elim p.rest [
        | [] ↦ some (numbers.floor p.value)
        | c ∷ cs ↦ elim (suffix_power c) [
          | none ↦ none
          | some n ↦ some (numbers.floor (numbers.times_pow p.value n))
        ]
      ]

  -- `threads` is an `unsigned int`; INT_MAX is 2 ^ 31 - 1.
  unfoldable pub parse_threads : List ℕ → Option ℕ
  parse_threads optarg =
      let p = numbers.strtoul optarg in
      let threads = u32 p.value in
      let is_rest : Bool = elim p.rest [ [] ↦ false | c ∷ cs ↦ true ] in
      if p.nothing_read
        || (is_rest
            || (p.erange || (ltb threads 1 || (leb (2 ^ 31 - 1) threads || ltb 16384 threads))))
      then none
      else some threads

  unfoldable pub parse_opt : Opt → Cnf → Option Cnf
  parse_opt opt_version c = some (record c { version_flag = true })
  parse_opt opt_verbose c = some (record c { verbose_flag = true })
  parse_opt opt_help c = some (record c { help_flag = true })
  parse_opt opt_aes_ctr c = some (record c { aes_flag = true })
  parse_opt (opt_aes_keys optarg) c = some (record c { aeskeys_filename = some optarg })
  parse_opt (opt_amount optarg) c = elim (parse_amount optarg) [
    | none ↦ none
    | some n ↦ some (record c { bytes = n })
  ]
  parse_opt (opt_threads optarg) c = elim (parse_threads optarg) [
    | none ↦ none
    | some n ↦ some (record c { threads = n })
  ]
  parse_opt (opt_output optarg) c = some (record c { output_filename = some optarg })
  parse_opt (opt_method optarg) c = elim (find_method optarg) [
    | none ↦ none
    | some m ↦ some (record c { method = m })
  ]
  parse_opt opt_unknown c = none

  unfoldable pub parse_opts : List Opt → Cnf → Option Cnf
  parse_opts [] c = some c
  parse_opts (o ∷ opts) c = elim (parse_opt o c) [ none ↦ none | some c' ↦ parse_opts opts c' ]

  -- After the loop: keys only with AES, and the chunks.
  unfoldable pub finish_args : Cnf → Option Cnf
  finish_args c =
      let has_keys : Bool = elim c.aeskeys_filename [ none ↦ false | some f ↦ true ] in
      if not c.aes_flag && has_keys then none else some (compute_chunk_size c)

  unfoldable pub parse_args : List Opt → Cnf → Option Cnf
  parse_args opts c = elim (parse_opts opts c) [ none ↦ none | some c' ↦ finish_args c' ]

-- DEFAULT_CONFIG_SETTING.
abbrev pub default_config : Cnf
default_config = record {
  output_filename = none;
  aeskeys_filename = none;
  method = get_bytes;
  help_flag = false;
  version_flag = false;
  verbose_flag = false;
  printed_warning_flag = false;
  aes_flag = false;
  threads = 2;
  bytes = 0;
  blocks = 0;
  chunk_size = 0;
  chunk_count = 0;
  ending_bytes = 0;
}
