-- ===== src/Tests/Checks.antt =====
-- The tests of the library and of AES_CFG, on concrete processors and ciphers.
use rd_rand.Prelude.{
  ℕ, ◌+◌, ◌*◌, ◌/◌, ◌%◌, ◌≤◌, ◌≡◌, ◌↔◌, refl, arith, inr, true, some, [], ◌∷◌, replicate, pos,
  negsuc, min,
}
use rd_rand.Cpu.{asm_64, stub}
use rd_rand.Arrays.{
  rdrand_get_uint8_array_retry, rdrand_get_uint16_array_retry, rdrand_get_uint32_array_retry,
}
use rd_rand.Arrays.Words.{Fills}
use rd_rand.Arrays.Fill.{narrow_arrays-Fills}
use rd_rand.Arrays.Stub.{Ones}
use rd_rand.Bytes.{rdrand_get_bytes_retry}
use rd_rand.Bytes.Stub.{bytes_retry-Ones}
use rd_rand.Aes.State.{AesCfg, generated, live}
use rd_rand.Aes.Defined.{IsDefined}
use rd_rand.Aes.Change.Turns.{sum}
use rd_rand.Aes.Change.Renews.{Renewed, counter_renews}
use rd_rand.Check.{test_zeros, test_ones}
use rd_rand.Check.Ranges.{AllBytes, test_ranges}
use rd_rand.Check.Steps.Native.{Draws}
use rd_rand.Check.Library.{check_rdrand, check_rdrand_iff}
use rd_rand.Check.Keys.{aes_keys_counter, aes_keys_counter_zero, aes_random_key_gen}
use rd_rand.Check.Keys.Counter.Random.{random_key_tests}
use rd_rand.Tests.Samples.{
  counting_ssl, counting-IsLawful, counting-distinct, seven_calls, seven-other, steady, late, idle,
  with_rdrand, plain_ssl, plain_ssl-IsLawful, no_keys,
}

narrow_arrays-Fills_example :
    Fills 1 3 7 idle (rdrand_get_uint8_array_retry asm_64 late 3 7 (pos 2) idle)
    × Fills 2 3
        (min 1 (7 % 4) + 4 * (7 / 4))
        idle
        (rdrand_get_uint16_array_retry asm_64 late 3 7 (pos 2) idle)
    × Fills 4 3 7 idle (rdrand_get_uint32_array_retry asm_64 late 3 7 (pos 2) idle)
narrow_arrays-Fills_example = narrow_arrays-Fills asm_64 late 3 7 (pos 2) idle (omega arith)

bytes_retry-Ones_example :
    Ones 1 1003 30 idle (rdrand_get_bytes_retry stub late 1003 30 (negsuc 0) idle)
bytes_retry-Ones_example = bytes_retry-Ones late 1003 30 (negsuc 0) idle (omega arith)

test_ranges_example :
    ((test_zeros idle.mem 40 9 2 5 ≡ true) ↔ ((2 ≤ 5) × (5 ≤ 9) × AllBytes idle.mem 0 40 2 5))
    × ((test_ones idle.mem 40 9 2 5 ≡ true) ↔ ((2 ≤ 5) × (5 ≤ 9) × AllBytes idle.mem 255 40 2 5))
test_ranges_example = test_ranges idle.mem 40 9 2 5

check_rdrand_iff_example :
    (check_rdrand steady with_rdrand 700 asm_64 idle ≡ true)
    ↔ (Draws steady 0 16 × Draws steady 0 32 × Draws steady 0 64)
check_rdrand_iff_example = check_rdrand_iff steady with_rdrand 700 asm_64 idle (inr refl)

-- A random key is set, three bytes are left of it, and four requests follow.
abbrev three_left : AesCfg ℕ
three_left = record no_keys {
  amount = 1;
  next_counter = 3;
  allocated = true;
  keys = replicate 16 1 ∷ [];
  nonces = replicate 16 2 ∷ [];
  key_current = some 0;
  nonce_current = some 0;
  key_length = 16;
  keys_type = generated;
  context = live;
}

three_left-IsDefined : IsDefined three_left
three_left-IsDefined = record {
  ready = record {
    allocated = refl;
    keys_amount = refl;
    nonces_amount = refl;
    keys_sized = (refl, tt);
    nonces_sized = (refl, tt);
    index_below = omega arith;
    key_at = refl;
    nonce_at = refl;
    counter_within = omega arith;
  };
  sound = refl;
}

counter_renews_example :
    Renewed plain_ssl (λ k n. replicate n 7) (λ k n. refl) (1 ∷ 1 ∷ 2 ∷ 9 ∷ []) three_left
unfolding sum
counter_renews_example =
    counter_renews plain_ssl (λ k n. replicate n 7) (λ k n. refl) plain_ssl-IsLawful
      (1 ∷ 1 ∷ 2 ∷ 9 ∷ []) three_left three_left-IsDefined (omega arith)

random_key_tests_example :
    (aes_keys_counter counting_ssl seven_calls ≡ true)
    × (aes_keys_counter_zero counting_ssl seven_calls ≡ true)
    × (aes_random_key_gen counting_ssl seven_calls ≡ true)
random_key_tests_example =
    random_key_tests counting_ssl counting-IsLawful (λ n. replicate 16 (n % 256)) (λ n. refl)
      counting-distinct seven_calls seven-other
