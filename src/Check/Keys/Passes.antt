-- ===== src/Check/Keys/Passes.antt =====
-- When the tests of the AES keys pass.
use rd_rand.Prelude.{ℕ, ◌+◌, ◌≡◌, ◌≢◌, ◌↔◌, refl, arith, Bool, true, Option-cases, inl, inr}
use rd_rand.Arrays.{u32}
use rd_rand.Aes.State.{AesCfg, OpenSsl}
use rd_rand.Aes.Keys.{
  keys_allocate, key_generate, nonce_generate, rdrand_set_aes_keys, rdrand_set_aes_random_key,
  rdrand_clean_aes, copy_all, key_to_openssl,
}
use rd_rand.Aes.Power.{is_power_of_two}
use rd_rand.Aes.Change.{keys_change, rotate}
use rd_rand.Check.Keys.{
  aes_malloc_bad, aes_malloc_correct, aes_set_keys_start, aes_set_keys_boundaries,
  aes_set_keys_changing, aes_set_keys_end, aes_random_key_startup, aes_random_key_end,
}

module _ {Ctx : Type 0} (ssl : OpenSsl Ctx) (c : AesCfg Ctx) where
  malloc_bad-passes : aes_malloc_bad ssl c ≡ true
  unfolding aes_malloc_bad keys_allocate is_power_of_two
  malloc_bad-passes = refl

  malloc_correct-passes : aes_malloc_correct ssl c ≡ true
  unfolding aes_malloc_correct keys_allocate is_power_of_two
  malloc_correct-passes = refl

  set_keys_start-passes : aes_set_keys_start ssl c ≡ true
  unfolding aes_set_keys_start rdrand_set_aes_keys keys_allocate is_power_of_two copy_all
      key_to_openssl
  set_keys_start-passes = refl

  set_keys_boundaries-passes : aes_set_keys_boundaries ssl c ≡ true
  unfolding aes_set_keys_boundaries rdrand_set_aes_keys
  set_keys_boundaries-passes = refl

  set_keys_end-passes : (munlock : Bool) → aes_set_keys_end ssl munlock c ≡ true
  unfolding aes_set_keys_end rdrand_set_aes_keys keys_allocate is_power_of_two copy_all
      key_to_openssl rdrand_clean_aes
  set_keys_end-passes munlock = refl

  set_keys_changing-changes :
      (junk : ℕ) → (aes_set_keys_changing ssl junk c ≡ true) ↔ (u32 (junk + 5) ≢ 0)
  unfolding aes_set_keys_changing rdrand_set_aes_keys keys_allocate is_power_of_two copy_all
      key_to_openssl keys_change rotate
  set_keys_changing-changes junk =
      let five : u32 (u32 (u32 (u32 (u32 (junk + 1) + 1) + 1) + 1) + 1) ≡ u32 (junk + 5) =
        omega arith in
      rw five (λ h e. ground arith, λ h. ground arith)

  random_key_startup-passes : aes_random_key_startup ssl c ≡ true
  unfolding aes_random_key_startup rdrand_set_aes_random_key keys_allocate is_power_of_two
      key_generate nonce_generate key_to_openssl
  random_key_startup-passes = elim (Option-cases (ssl.rand_bytes c.rand_calls 16)) [
    | inl failed ↦ rw failed
    | inr (key, got) ↦ elim (Option-cases (ssl.rand_bytes (c.rand_calls + 1) 16)) [
      | inl failed ↦ rw got (rw failed)
      | inr (nonce, got_nonce) ↦ rw got (rw got_nonce)
    ]
  ]

  random_key_end-passes : (munlock : Bool) → aes_random_key_end ssl munlock c ≡ true
  unfolding aes_random_key_end rdrand_set_aes_random_key keys_allocate is_power_of_two key_generate
      nonce_generate key_to_openssl rdrand_clean_aes
  random_key_end-passes munlock = elim (Option-cases (ssl.rand_bytes c.rand_calls 16)) [
    | inl failed ↦ rw failed
    | inr (key, got) ↦ elim (Option-cases (ssl.rand_bytes (c.rand_calls + 1) 16)) [
      | inl failed ↦ rw got (rw failed)
      | inr (nonce, got_nonce) ↦ rw got (rw got_nonce)
    ]
  ]

  -- Of the tests of the keys those of the allocation, of the keys that are set, of their end and of the
  -- random key pass, whatever OpenSSL does and whatever AES_CFG holds before, also where RAND_bytes
  -- fails; that of the change of keys counts from a variable that it does not set, and passes exactly
  -- when that does not wrap to 0.
  pub creation_tests :
      (munlock : Bool) (junk : ℕ)
      → (aes_malloc_bad ssl c ≡ true)
        × (aes_malloc_correct ssl c ≡ true)
        × (aes_set_keys_start ssl c ≡ true)
        × (aes_set_keys_end ssl munlock c ≡ true)
        × (aes_set_keys_boundaries ssl c ≡ true)
        × (aes_random_key_startup ssl c ≡ true)
        × (aes_random_key_end ssl munlock c ≡ true)
        × ((aes_set_keys_changing ssl junk c ≡ true) ↔ (u32 (junk + 5) ≢ 0))
  creation_tests munlock junk = (
    malloc_bad-passes,
    malloc_correct-passes,
    set_keys_start-passes,
    set_keys_end-passes munlock,
    set_keys_boundaries-passes,
    random_key_startup-passes,
    random_key_end-passes munlock,
    set_keys_changing-changes junk,
  )
