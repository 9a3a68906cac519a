-- ===== src/Tests/Suites.antt =====
-- The tests of the encrypted output and of the program, on concrete ciphers and functions on numbers.
use rd_rand.Prelude.{
  ◌%◌, ◌↔◌, ◌≢◌, replicate, ℕ, suc, ◌+◌, ◌-◌, ◌*◌, ◌/◌, ◌^◌, ◌≡◌, refl, ap, arith, Bool, true,
  false, ◌&&◌, some, List, [], ◌∷◌, ◌++◌, length, leb, ◌==◌, if◌then◌else◌, ℤ, pos, negsuc,
  is_negative,
}
use rd_rand.Aes.State.{OpenSsl}
use rd_rand.Aes.Invariant.{IsLawful}
use rd_rand.Gen.Arguments.{Parsed, Numbers}
use rd_rand.Gen.KeyFile.{scan_bytes, scan_byte, hex_digit}
use rd_rand.Check.Demo.{demo_main}
use rd_rand.Check.Output.{aes_get_bytes, expected_result, aes_enc_buffer, aes_compare_ecrypt_data}
use rd_rand.Check.Output.Compare.{output_tests_demo}
use rd_rand.Check.Options.Passes.{ReadsTexts}
use rd_rand.Check.Runs.{check_rdrand_gen}
use rd_rand.Check.Runs.Passes.{ReadsRuns, check_rdrand_gen-passes}
use rd_rand.Arrays.{u32}
use rd_rand.Check.Keys.{aes_set_counter_changing, aes_keys_counter_in_generation}
use rd_rand.Check.Cipher.{check_aes}
use rd_rand.Check.Cipher.Passes.{check_aes_iff}
use rd_rand.Tests.Samples.{
  counting_ssl, counting-IsLawful, counting-distinct, seven_calls, seven-other, late, idle,
  with_rdrand, plain_ssl, plain_ssl-IsLawful, no_keys,
}

-- A cipher whose key stream makes the expected bytes, as far as these go.
abbrev stamp : List ℕ → List ℕ → List ℕ
stamp [] es = []
stamp (b ∷ bs) [] = b ∷ stamp bs []
stamp (b ∷ bs) (e ∷ es) = e ∷ stamp bs es

abbrev stamp_ssl : OpenSsl ℕ
stamp_ssl = record plain_ssl {
  ctx_init = λ en. 0;
  encrypt_update = λ en b. (stamp b expected_result, en, true);
}

length-stamp : (bs es : List ℕ) → length (stamp bs es) ≡ length bs
length-stamp [] es = refl
length-stamp (b ∷ bs) [] = ap suc (length-stamp bs [])
length-stamp (b ∷ bs) (e ∷ es) = ap suc (length-stamp bs es)

stamp-IsLawful : IsLawful stamp_ssl
stamp-IsLawful = record {
  enc_length = λ en b. length-stamp b expected_result;
  rand_length = plain_ssl-IsLawful.rand_length;
}

stamp_demo : demo_main stamp_ssl 5 [] ≡ some expected_result
unfolding demo_main expected_result scan_bytes scan_byte hex_digit
stamp_demo = refl

output_tests_demo_example :
    (aes_enc_buffer stamp_ssl no_keys ≡ true)
    × (aes_compare_ecrypt_data stamp_ssl late 20000 300 no_keys idle ≡ true)
output_tests_demo_example =
    output_tests_demo stamp_ssl late 20000 300 5 [] no_keys idle stamp-IsLawful (λ a b. refl)
      (λ a b. refl) stamp_demo

-- The same cipher, with the number of the call from RAND_bytes.
abbrev counting_stamp_ssl : OpenSsl ℕ
counting_stamp_ssl = record stamp_ssl { rand_bytes = counting_ssl.rand_bytes }

counting_stamp-IsLawful : IsLawful counting_stamp_ssl
counting_stamp-IsLawful = record {
  enc_length = stamp-IsLawful.enc_length;
  rand_length = counting-IsLawful.rand_length;
}

counting_stamp_demo : demo_main counting_stamp_ssl 5 [] ≡ some expected_result
unfolding demo_main expected_result scan_bytes scan_byte hex_digit
counting_stamp_demo = refl

check_aes_iff_example :
    (check_aes counting_stamp_ssl late 20000 300 true 7 seven_calls idle ≡ true) ↔ (
      (u32 (7 + 5) ≢ 0)
      × (aes_set_counter_changing counting_stamp_ssl seven_calls ≡ true)
      × (aes_keys_counter_in_generation counting_stamp_ssl late 20000 300 seven_calls idle ≡ true)
      × (aes_get_bytes counting_stamp_ssl late 20000 300 seven_calls idle ≡ true))
check_aes_iff_example =
    check_aes_iff counting_stamp_ssl counting_stamp-IsLawful (λ n. replicate 16 (n % 256))
      (λ n. refl) counting-distinct (λ a b. refl) (λ a b. refl) late 20000 300 true 7 5 []
      seven_calls idle seven-other counting_stamp_demo

-- Whole numbers with a sign in the place of `double`; digits behind a point are dropped.
abbrev is_digit : ℕ → Bool
is_digit c = leb 48 c && leb c 57

abbrev digits : ℕ → List ℕ → ℕ × List ℕ
digits n [] = (n, [])
digits n (c ∷ cs) = if is_digit c then digits (10 * n + (c - 48)) cs else (n, c ∷ cs)

abbrev skip_fraction : List ℕ → List ℕ
skip_fraction [] = []
skip_fraction (c ∷ cs) = if c == 46 then (digits 0 cs).1 else c ∷ cs

abbrev read_unsigned : List ℕ → Parsed ℤ
read_unsigned cs = record {
  value = pos (digits 0 cs).0;
  rest = skip_fraction (digits 0 cs).1;
  nothing_read = false;
  erange = false;
}

abbrev read_signed : List ℕ → Parsed ℤ
read_signed [] = record { value = pos 0; rest = []; nothing_read = true; erange = false }
read_signed (c ∷ cs) =
    if c == 45
    then record {
      value = negsuc ((digits 0 cs).0 - 1);
      rest = (digits 0 cs).1;
      nothing_read = false;
      erange = false;
    }
    else read_unsigned (c ∷ cs)

-- strtoul negates what follows a minus, on 64 bits.
abbrev as_unsigned : ℤ → ℕ
as_unsigned (pos n) = n
as_unsigned (negsuc n) = 2 ^ 64 - 1 - n

abbrev signed_numbers : Numbers ℤ
signed_numbers = record {
  strtod = read_signed;
  strtoul = λ cs. record {
    value = as_unsigned (read_signed cs).value;
    rest = (read_signed cs).rest;
    nothing_read = (read_signed cs).nothing_read;
    erange = false;
  };
  is_below_zero = is_negative;
  is_too_large = λ x. leb (2 ^ 64) (as_unsigned x);
  times_pow = λ x n. pos (as_unsigned x * 2 ^ n);
  floor = as_unsigned;
}

texts_read : ReadsTexts signed_numbers
texts_read = record {
  decimal = record {
    some_read = refl;
    in_range = refl;
    not_negative = refl;
    not_large = refl;
    rest_left = refl;
  };
  decimal_floor = refl;
  simple = record {
    some_read = refl;
    in_range = refl;
    not_negative = refl;
    not_large = refl;
    rest_left = refl;
  };
  simple_floor = refl;
  suffix_k = record {
    some_read = refl;
    in_range = refl;
    not_negative = refl;
    not_large = refl;
    rest_left = refl;
  };
  suffix_k_floor = refl;
  suffix_k2 = record {
    some_read = refl;
    in_range = refl;
    not_negative = refl;
    not_large = refl;
    rest_left = refl;
  };
  suffix_k2_floor = refl;
  suffix_k3 = record {
    some_read = refl;
    in_range = refl;
    not_negative = refl;
    not_large = refl;
    rest_left = refl;
  };
  suffix_k3_floor = refl;
  suffix_bad = record {
    some_read = refl;
    in_range = refl;
    not_negative = refl;
    not_large = refl;
    rest_left = refl;
  };
  negative = refl;
  threads_negative = refl;
  threads_value = refl;
  threads_read = refl;
  threads_in_range = refl;
  threads_rest = refl;
}

runs_read : ReadsRuns plain_ssl signed_numbers
runs_read = record {
  one_read = refl;
  one_in_range = refl;
  one_rest = refl;
  one_value = refl;
  sixteen = record {
    some_read = refl;
    in_range = refl;
    not_negative = refl;
    not_large = refl;
    rest_left = refl;
  };
  sixteen_floor = refl;
  five = record {
    some_read = refl;
    in_range = refl;
    not_negative = refl;
    not_large = refl;
    rest_left = refl;
  };
  five_floor = refl;
  many = record {
    some_read = refl;
    in_range = refl;
    not_negative = refl;
    not_large = refl;
    rest_left = refl;
  };
  many_floor = refl;
}

abbrev append_all : List ℕ → ℕ → List ℕ → ℕ × List ℕ
append_all file size bytes = (length bytes / size, file ++ bytes)

check_rdrand_gen-passes_example :
    check_rdrand_gen plain_ssl signed_numbers late append_all 2 100000 200000 300000 400000 no_keys
      idle with_rdrand
    ≡ true
check_rdrand_gen-passes_example =
    check_rdrand_gen-passes plain_ssl signed_numbers late append_all (λ out size bytes. refl) 2
      100000 200000 300000 400000 no_keys idle with_rdrand texts_read runs_read (omega arith)
