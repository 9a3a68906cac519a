-- ===== src/Tests/Start.antt =====
-- The program started with options.
use rd_rand.Prelude.{
  ℕ, ◌+◌, ◌-◌, ◌*◌, ◌/◌, ◌^◌, ◌≤◌, ◌<◌, ◌≡◌, ◌⊎◌, refl, true, false, none, some, List, [], ◌∷◌,
  ◌++◌, length, leb,
}
use rd_rand.Gen.Config.{Cnf, chunk_size_of, size_t, compute_chunk_size}
use rd_rand.Gen.Arguments.{
  Opt, opt_aes_ctr, opt_amount, opt_verbose, Parsed, Numbers, parse_amount, parse_opt, parse_opts,
  finish_args, parse_args, default_config,
}
use rd_rand.Gen.Arguments.Accepted.{parse_args-accepted}
use rd_rand.Gen.Main.{World}
use rd_rand.Tests.Samples.{with_rdrand}

-- Natural numbers in the place of `double`; an argument is its digits.
abbrev digits_from : ℕ → List ℕ → ℕ
digits_from n [] = n
digits_from n (c ∷ cs) = digits_from (10 * n + (c - 48)) cs

abbrev parsed_digits : List ℕ → Parsed ℕ
parsed_digits cs = record {
  value = digits_from 0 cs;
  rest = [];
  nothing_read = false;
  erange = false;
}

abbrev naturals : Numbers ℕ
naturals = record {
  strtod = parsed_digits;
  strtoul = parsed_digits;
  is_below_zero = λ x. false;
  is_too_large = λ x. leb (2 ^ 64) x;
  times_pow = λ x n. x * 2 ^ n;
  floor = λ x. x;
}

-- -v -a -n 1000
abbrev options : List Opt
options = opt_verbose ∷ opt_aes_ctr ∷ opt_amount (49 ∷ 48 ∷ 48 ∷ 48 ∷ []) ∷ []

abbrev chosen : Cnf
chosen = record default_config {
  verbose_flag = true;
  aes_flag = true;
  bytes = 1000;
  blocks = 125;
  chunk_size = 62;
  chunk_count = 1;
  ending_bytes = 8;
}

parsed : parse_args naturals options default_config ≡ some chosen
unfolding parse_args parse_opts parse_opt parse_amount finish_args compute_chunk_size chunk_size_of
    size_t
parsed = refl

parse_args-accepted_example :
    (0 < chosen.threads)
    × (chosen.threads ≤ 16384)
    × ((chosen.aes_flag ≡ true) ⊎ (chosen.aeskeys_filename ≡ none))
    × ((c' : Cnf) × (chosen ≡ compute_chunk_size c'))
parse_args-accepted_example = parse_args-accepted naturals options chosen parsed

abbrev world : World
world = record {
  opens = λ name. true;
  key_file = none;
  malloc = λ k. true;
  malloc_keys = true;
  malloc_nonces = true;
  munlock = true;
  stubbed = false;
  cpuid = with_rdrand;
}

abbrev write_out : List ℕ → ℕ → List ℕ → ℕ × List ℕ
write_out file size bytes = (length bytes / size, file ++ bytes)
