-- ===== src/Check/Options/Passes.antt =====
-- The tests of the options pass, with functions that read the numbers in their arguments.
use rd_rand.Prelude.{
  ℕ, ◌-◌, ◌^◌, ◌≡◌, refl, ap, arith, Bool, true, false, Option, none, some, List, [], ◌∷◌, codes,
  ◌&&◌,
}
use rd_rand.Gen.Config.{Cnf, compute_chunk_size}
use rd_rand.Gen.Arguments.{
  Opt, opt_amount, opt_threads, Numbers, suffix_power, parse_amount, parse_threads, parse_opt,
  parse_opts, finish_args, parse_args, default_config,
}
use rd_rand.Check.Options.{
  compare_configs, accepts, refuses, parse_args_no_args, parse_args_help, parse_args_aes,
  parse_args_amount_missing_number, parse_args_amount_decimal_number,
  parse_args_amount_simple_number, parse_args_amount_suffix_k, parse_args_amount_suffix_k2,
  parse_args_amount_suffix_k3, parse_args_amount_suffix_bad, parse_args_amount_negative,
  parse_args_threads_negative, parse_args_threads_without_number, parse_args_threads_positive,
  parse_args_suite,
}

module _ {D : Type 0} (numbers : Numbers D) where
  -- `strtod` reads a number from the text, which is not negative and not too large, up to `rest`.
  pub record Reads (text rest : List ℕ) : Type 0 where
    pub some_read : (numbers.strtod text).nothing_read ≡ false
    pub in_range : (numbers.strtod text).erange ≡ false
    pub not_negative : numbers.is_below_zero (numbers.strtod text).value ≡ false
    pub not_large : numbers.is_too_large (numbers.strtod text).value ≡ false
    pub rest_left : (numbers.strtod text).rest ≡ rest

  -- What is asked of the functions on the texts of the tests: the numbers in them, their integral parts,
  -- and the multiples of 1024.
  pub record ReadsTexts : Type 0 where
    pub decimal : Reads (codes "3.14") []
    pub decimal_floor : numbers.floor (numbers.strtod (codes "3.14")).value ≡ 3
    pub simple : Reads (codes "214") []
    pub simple_floor : numbers.floor (numbers.strtod (codes "214")).value ≡ 214
    pub suffix_k : Reads (codes "1k") (codes "k")
    pub suffix_k_floor :
        numbers.floor (numbers.times_pow (numbers.strtod (codes "1k")).value 10) ≡ 1024
    pub suffix_k2 : Reads (codes "50k") (codes "k")
    pub suffix_k2_floor :
        numbers.floor (numbers.times_pow (numbers.strtod (codes "50k")).value 10) ≡ 51200
    pub suffix_k3 : Reads (codes "100k") (codes "k")
    pub suffix_k3_floor :
        numbers.floor (numbers.times_pow (numbers.strtod (codes "100k")).value 10) ≡ 102400
    pub suffix_bad : Reads (codes "1D") (codes "D")
    pub negative : numbers.is_below_zero (numbers.strtod (codes "-1024")).value ≡ true
    pub threads_negative : (numbers.strtoul (codes "-1")).value ≡ 2 ^ 64 - 1
    pub threads_value : (numbers.strtoul (codes "2")).value ≡ 2
    pub threads_read : (numbers.strtoul (codes "2")).nothing_read ≡ false
    pub threads_in_range : (numbers.strtoul (codes "2")).erange ≡ false
    pub threads_rest : (numbers.strtoul (codes "2")).rest ≡ []

  pub amount_whole :
      (text : List ℕ) {n : ℕ}
      → Reads text []
      → numbers.floor (numbers.strtod text).value ≡ n
      → parse_amount numbers text ≡ some n
  unfolding parse_amount
  amount_whole text r whole =
      rw (r.some_read, r.in_range, r.not_negative, r.not_large, r.rest_left) (ap some whole)

  amount_suffix_k :
      (text : List ℕ) {n : ℕ}
      → Reads text (codes "k")
      → numbers.floor (numbers.times_pow (numbers.strtod text).value 10) ≡ n
      → parse_amount numbers text ≡ some n
  unfolding parse_amount suffix_power
  amount_suffix_k text r whole =
      rw (r.some_read, r.in_range, r.not_negative, r.not_large, r.rest_left) (ap some whole)

  -- The options of the tests.
  amount_bad : ReadsTexts → parse_amount numbers (codes "1D") ≡ none
  unfolding parse_amount suffix_power
  amount_bad r =
      let d = r.suffix_bad in rw (d.some_read, d.in_range, d.not_negative, d.not_large, d.rest_left)

  amount_negative : ReadsTexts → parse_amount numbers (codes "-1024") ≡ none
  unfolding parse_amount
  amount_negative r = ground (arith, r.negative)

  threads_bad : ReadsTexts → parse_threads numbers (codes "-1") ≡ none
  unfolding parse_threads
  threads_bad r = ground (arith, r.threads_negative)

  pub threads_one :
      (text : List ℕ)
      → (numbers.strtoul text).nothing_read ≡ false
      → (numbers.strtoul text).erange ≡ false
      → (numbers.strtoul text).rest ≡ []
      → (numbers.strtoul text).value ≡ 1
      → parse_threads numbers text ≡ some 1
  unfolding parse_threads
  threads_one text read range rest value = rw (read, range, rest, value)

  threads_good : ReadsTexts → parse_threads numbers (codes "2") ≡ some 2
  unfolding parse_threads
  threads_good r = rw (r.threads_read, r.threads_in_range, r.threads_rest, r.threads_value)

  -- How `parse_opts` and `parse_args` go on after one option, and the test on the result.
  abbrev one_opt : Option Cnf → Option Cnf
  one_opt r = elim r [ none ↦ none | some c ↦ some c ]

  abbrev finished : Option Cnf → Option Cnf
  finished r = elim r [ none ↦ none | some c ↦ finish_args numbers c ]

  abbrev accepted : Cnf → Option Cnf → Bool
  accepted expected r = elim r [ none ↦ false | some config ↦ compare_configs config expected ]

  abbrev refused : Option Cnf → Bool
  refused r = elim r [ none ↦ true | some config ↦ false ]

  accepts-one :
      (o : Opt) (c expected : Cnf)
      → parse_opt numbers o default_config ≡ some c
      → accepts numbers (o ∷ []) expected ≡ accepted expected (finish_args numbers c)
  unfolding accepts parse_args parse_opts
  accepts-one o c expected e = ap (λ r. accepted expected (finished (one_opt r))) e

  refuses-one :
      (o : Opt) → parse_opt numbers o default_config ≡ none → refuses numbers (o ∷ []) ≡ true
  unfolding refuses parse_args parse_opts
  refuses-one o e = ap (λ r. refused (finished (one_opt r))) e

  pub amount-opt :
      (text : List ℕ) {n : ℕ}
      → parse_amount numbers text ≡ some n
      → parse_opt numbers (opt_amount text) default_config
        ≡ some (record default_config { bytes = n })
  unfolding parse_opt
  amount-opt text e = rw (e, parse_opt)

  no_numbers :
      ((parse_args_no_args numbers && parse_args_help numbers)
        && (parse_args_aes numbers
            && (parse_args_amount_missing_number numbers
                && parse_args_threads_without_number numbers)))
      ≡ true
  unfolding parse_args_no_args parse_args_help parse_args_aes parse_args_amount_missing_number
      parse_args_threads_without_number accepts refuses parse_args parse_opts parse_opt finish_args
      compute_chunk_size
  no_numbers = refl

  decimal_number-passes : ReadsTexts → parse_args_amount_decimal_number numbers ≡ true
  unfolding parse_args_amount_decimal_number finish_args compute_chunk_size compare_configs
  decimal_number-passes r =
      accepts-one (opt_amount (codes "3.14")) _ _
        (amount-opt (codes "3.14") (amount_whole (codes "3.14") r.decimal r.decimal_floor))

  simple_number-passes : ReadsTexts → parse_args_amount_simple_number numbers ≡ true
  unfolding parse_args_amount_simple_number finish_args compute_chunk_size compare_configs
  simple_number-passes r =
      accepts-one (opt_amount (codes "214")) _ _
        (amount-opt (codes "214") (amount_whole (codes "214") r.simple r.simple_floor))

  suffix_k-passes : ReadsTexts → parse_args_amount_suffix_k numbers ≡ true
  unfolding parse_args_amount_suffix_k finish_args compute_chunk_size compare_configs
  suffix_k-passes r =
      accepts-one (opt_amount (codes "1k")) _ _
        (amount-opt (codes "1k") (amount_suffix_k (codes "1k") r.suffix_k r.suffix_k_floor))

  suffix_k2-passes : ReadsTexts → parse_args_amount_suffix_k2 numbers ≡ true
  unfolding parse_args_amount_suffix_k2 finish_args compute_chunk_size compare_configs
  suffix_k2-passes r =
      accepts-one (opt_amount (codes "50k")) _ _
        (amount-opt (codes "50k") (amount_suffix_k (codes "50k") r.suffix_k2 r.suffix_k2_floor))

  suffix_k3-passes : ReadsTexts → parse_args_amount_suffix_k3 numbers ≡ true
  unfolding parse_args_amount_suffix_k3 finish_args compute_chunk_size compare_configs
  suffix_k3-passes r =
      accepts-one (opt_amount (codes "100k")) _ _
        (amount-opt (codes "100k") (amount_suffix_k (codes "100k") r.suffix_k3 r.suffix_k3_floor))

  suffix_bad-passes : ReadsTexts → parse_args_amount_suffix_bad numbers ≡ true
  unfolding parse_args_amount_suffix_bad parse_opt
  suffix_bad-passes r = refuses-one (opt_amount (codes "1D")) (rw (amount_bad r, parse_opt))

  negative-passes : ReadsTexts → parse_args_amount_negative numbers ≡ true
  unfolding parse_args_amount_negative parse_opt
  negative-passes r = refuses-one (opt_amount (codes "-1024")) (rw (amount_negative r, parse_opt))

  threads_negative-passes : ReadsTexts → parse_args_threads_negative numbers ≡ true
  unfolding parse_args_threads_negative parse_opt
  threads_negative-passes r = refuses-one (opt_threads (codes "-1")) (rw (threads_bad r, parse_opt))

  threads_positive-passes : ReadsTexts → parse_args_threads_positive numbers ≡ true
  unfolding parse_args_threads_positive parse_opt finish_args compute_chunk_size compare_configs
  threads_positive-passes r =
      accepts-one (opt_threads (codes "2")) (record default_config { threads = 2 }) _
        (rw (threads_good r, parse_opt))

  -- The tests of the options pass, for every strtod and strtoul that read the numbers in the texts of the
  -- tests: the defaults, the flags, the amounts with their chunks, and the refusal of what is not a
  -- number, of an unknown suffix, and of negative amounts and threads.
  pub options_suite-passes : ReadsTexts → parse_args_suite numbers ≡ true
  unfolding parse_args_suite
  options_suite-passes r =
      let n = no_numbers in
      rw
        (
          decimal_number-passes r,
          simple_number-passes r,
          suffix_k-passes r,
          suffix_k2-passes r,
          suffix_k3-passes r,
          suffix_bad-passes r,
          negative-passes r,
          threads_negative-passes r,
          threads_positive-passes r,
        )
        (ground arith)
