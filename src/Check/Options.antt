-- ===== src/Check/Options.antt =====
-- The tests of the options (check_tests/check_rdrand-gen.c, lines 47-412). getopt_long is a
-- parameter of `parse_args`; the tests are given the options that it finds in their arguments.
pub mod Passes
use rd_rand.Prelude.{
  ℕ, Bool, true, false, not, ◌&&◌, ◌||◌, Option, none, some, List, [], ◌∷◌, ◌==◌, codes,
  if◌then◌else◌,
}
use rd_rand.Gen.Config.{
  Cnf, Method, get_bytes, get_reseed64_delay, get_reseed64_skip, max_chunk_size,
}
use rd_rand.Gen.Arguments.{
  Opt, opt_help, opt_aes_ctr, opt_amount, opt_threads, opt_unknown, Numbers, parse_args,
  default_config,
}
use rd_rand.Check.{equal_bytes}

-- `strcmp` is not defined where only the second name is NULL; the tests do not come to that.
unfoldable pub str_compare : Option (List ℕ) → Option (List ℕ) → Bool
unfolding equal_bytes
str_compare none none = true
str_compare none (some b) = false
str_compare (some a) none = false
str_compare (some a) (some b) = equal_bytes a b

unfoldable pub same_method : Method → Method → Bool
same_method get_bytes get_bytes = true
same_method get_reseed64_delay get_reseed64_delay = true
same_method get_reseed64_skip get_reseed64_skip = true
same_method _ _ = false

unfoldable pub same_flag : Bool → Bool → Bool
same_flag a b = if a then b else not b

-- Every field but the stream and `aes_flag`.
unfoldable pub compare_configs : Cnf → Cnf → Bool
unfolding str_compare same_method same_flag
compare_configs a b =
    str_compare a.output_filename b.output_filename
    && (str_compare a.aeskeys_filename b.aeskeys_filename
        && (same_method a.method b.method
            && (same_flag a.help_flag b.help_flag
                && (same_flag a.version_flag b.version_flag
                    && (same_flag a.verbose_flag b.verbose_flag
                        && (same_flag a.printed_warning_flag b.printed_warning_flag
                            && (a.threads == b.threads
                                && (a.bytes == b.bytes
                                    && (a.blocks == b.blocks
                                        && (a.chunk_size == b.chunk_size
                                            && (a.chunk_count == b.chunk_count
                                                && a.ending_bytes == b.ending_bytes)))))))))))

module _ {D : Type 0} (numbers : Numbers D) where
  -- `parse_args` succeeds, with the configuration `cc`.
  unfoldable pub accepts : List Opt → Cnf → Bool
  unfolding compare_configs
  accepts opts cc = elim (parse_args numbers opts default_config) [
    | none ↦ false
    | some config ↦ compare_configs config cc
  ]

  unfoldable pub refuses : List Opt → Bool
  refuses opts = elim (parse_args numbers opts default_config) [ none ↦ true | some config ↦ false ]

  unfoldable pub parse_args_no_args : Bool
  parse_args_no_args = accepts [] (record default_config { chunk_size = max_chunk_size })

  unfoldable pub parse_args_help : Bool
  parse_args_help =
      accepts (opt_help ∷ [])
        (record default_config { chunk_size = max_chunk_size; help_flag = true })

  unfoldable pub parse_args_aes : Bool
  parse_args_aes =
      accepts (opt_aes_ctr ∷ [])
        (record default_config { chunk_size = max_chunk_size; aes_flag = true })

  -- getopt_long gives '?' for an option whose argument is missing.
  unfoldable pub parse_args_amount_missing_number : Bool
  parse_args_amount_missing_number = refuses (opt_unknown ∷ [])

  unfoldable pub parse_args_amount_decimal_number : Bool
  parse_args_amount_decimal_number =
      accepts (opt_amount (codes "3.14") ∷ [])
        (record default_config { bytes = 3; ending_bytes = 3 })

  unfoldable pub parse_args_amount_simple_number : Bool
  parse_args_amount_simple_number = accepts (opt_amount (codes "214") ∷ []) (record default_config {
    bytes = 214;
    blocks = 26;
    chunk_size = 13;
    chunk_count = 1;
    ending_bytes = 6;
  })

  unfoldable pub parse_args_amount_suffix_k : Bool
  parse_args_amount_suffix_k = accepts (opt_amount (codes "1k") ∷ []) (record default_config {
    bytes = 1024;
    blocks = 128;
    chunk_size = 64;
    chunk_count = 1;
    ending_bytes = 0;
  })

  unfoldable pub parse_args_amount_suffix_k2 : Bool
  parse_args_amount_suffix_k2 = accepts (opt_amount (codes "50k") ∷ []) (record default_config {
    bytes = 51200;
    blocks = 6400;
    chunk_size = 2048;
    chunk_count = 1;
    ending_bytes = 18432;
  })

  unfoldable pub parse_args_amount_suffix_k3 : Bool
  parse_args_amount_suffix_k3 = accepts (opt_amount (codes "100k") ∷ []) (record default_config {
    bytes = 102400;
    blocks = 12800;
    chunk_size = 2048;
    chunk_count = 3;
    ending_bytes = 4096;
  })

  unfoldable pub parse_args_amount_suffix_bad : Bool
  parse_args_amount_suffix_bad = refuses (opt_amount (codes "1D") ∷ [])

  unfoldable pub parse_args_amount_negative : Bool
  parse_args_amount_negative = refuses (opt_amount (codes "-1024") ∷ [])

  unfoldable pub parse_args_threads_negative : Bool
  parse_args_threads_negative = refuses (opt_threads (codes "-1") ∷ [])

  unfoldable pub parse_args_threads_without_number : Bool
  parse_args_threads_without_number = refuses (opt_unknown ∷ [])

  unfoldable pub parse_args_threads_positive : Bool
  parse_args_threads_positive =
      accepts (opt_threads (codes "2") ∷ [])
        (record default_config { chunk_size = max_chunk_size; threads = 2 })

  unfoldable pub parse_args_suite : Bool
  parse_args_suite =
      parse_args_no_args
      && (parse_args_help
          && (parse_args_aes
              && (parse_args_amount_missing_number
                  && (parse_args_amount_decimal_number
                      && (parse_args_amount_simple_number
                          && (parse_args_amount_suffix_k
                              && (parse_args_amount_suffix_k2
                                  && (parse_args_amount_suffix_k3
                                      && (parse_args_amount_suffix_bad
                                          && (parse_args_amount_negative
                                              && (parse_args_threads_negative
                                                  && (parse_args_threads_without_number
                                                      && parse_args_threads_positive))))))))))))
