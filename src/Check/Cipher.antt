-- ===== src/Check/Cipher.antt =====
-- The suites and `main` of the tests of AES (check_tests/check_aes.c, lines 346-563).
pub mod Passes
use rd_rand.Prelude.{ℕ, Bool, ◌&&◌}
use rd_rand.Cpu.{Cpu}
use rd_rand.Memory.{Machine}
use rd_rand.Aes.State.{AesCfg, OpenSsl}
use rd_rand.Check.Keys.{
  aes_malloc_bad, aes_malloc_correct, aes_set_keys_start, aes_set_keys_end, aes_set_keys_boundaries,
  aes_set_keys_changing, aes_set_counter_changing, aes_random_key_startup, aes_random_key_end,
  aes_random_key_gen, aes_keys_counter_zero, aes_keys_counter, aes_keys_counter_in_generation,
}
use rd_rand.Check.Output.{aes_get_bytes, aes_enc_buffer, aes_compare_ecrypt_data}

-- Each test runs in a process of its own, from the same state. `junk` is what the variable holds that
-- `aes_set_keys_changing` does not initialise.
module _ {Ctx : Type 0} (ssl : OpenSsl Ctx) (cpu : Cpu) (buf dst : ℕ) (munlock : Bool) (junk : ℕ)
    (c : AesCfg Ctx) (m : Machine) where
  unfoldable pub aes_creation_suite : Bool
  aes_creation_suite =
      aes_malloc_bad ssl c
      && (aes_malloc_correct ssl c
          && (aes_set_keys_start ssl c
              && (aes_set_keys_end ssl munlock c
                  && (aes_set_keys_boundaries ssl c
                      && (aes_set_keys_changing ssl junk c
                          && (aes_set_counter_changing ssl c
                              && (aes_random_key_startup ssl c
                                  && (aes_random_key_end ssl munlock c
                                      && (aes_random_key_gen ssl c
                                          && (aes_keys_counter_zero ssl c
                                              && (aes_keys_counter ssl c
                                                  && aes_keys_counter_in_generation ssl cpu buf dst
                                                      c m)))))))))))

  unfoldable pub aes_generation_suite : Bool
  aes_generation_suite =
      aes_get_bytes ssl cpu buf dst c m
      && (aes_enc_buffer ssl c && aes_compare_ecrypt_data ssl cpu buf dst c m)

  -- EXIT_SUCCESS is true.
  unfoldable pub check_aes : Bool
  check_aes = aes_creation_suite && aes_generation_suite
