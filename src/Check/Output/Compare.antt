-- ===== src/Check/Output/Compare.antt =====
-- The test that generates encrypted bytes (`aes_compare_ecrypt_data`) against the demonstration.
use rd_rand.Prelude.{
  ℕ, ◌≡◌, refl, sym, ap, ◌∙◌, arith, Bool, true, ◌&&◌, some, List, length, replicate, take_all, pos,
}
use rd_rand.Cpu.{Cpu, stub}
use rd_rand.Memory.{Machine, store_bytes}
use rd_rand.Arrays.Stub.{ones}
use rd_rand.Bytes.{rdrand_get_bytes_retry}
use rd_rand.Bytes.Stub.{bytes_retry-Ones}
use rd_rand.Bytes.Complete.{stub-Complete}
use rd_rand.Aes.State.{AesCfg, OpenSsl}
use rd_rand.Aes.Keys.{rdrand_set_aes_keys, keys_allocate, copy_all, key_to_openssl}
use rd_rand.Aes.Power.{is_power_of_two}
use rd_rand.Aes.Change.{counter}
use rd_rand.Aes.Invariant.{IsLawful}
use rd_rand.Aes.Encrypt.{
  load_bytes, generate_part, generate_tail, generate_loop, rdrand_get_bytes_aes_ctr,
}
use rd_rand.Aes.Encrypt.Loads.{load_bytes-stored}
use rd_rand.Aes.Encrypt.Generate.{aes_ctr-full}
use rd_rand.Check.{zeroed}
use rd_rand.Check.Demo.{demo_main}
use rd_rand.Check.Output.{expected_result, set_test_key, aes_enc_buffer, aes_compare_ecrypt_data}
use rd_rand.Check.Output.Passes.{
  key, nonce_counter, encrypted, started, set_test_key-en, demo-encrypts, expected_self,
  aes_enc_buffer_demo,
}

module _ {Ctx : Type 0} (ssl : OpenSsl Ctx) where
  counter-keeps_ctx :
      (c : AesCfg Ctx) → (counter ssl 32 (set_test_key ssl c)).0.en ≡ (set_test_key ssl c).en
  unfolding counter set_test_key rdrand_set_aes_keys keys_allocate is_power_of_two copy_all
      key_to_openssl
  counter-keeps_ctx c = refl

  module _ (cpu : Cpu) (buf dst : ℕ) where
    module _ (c : AesCfg Ctx) (m : Machine) (en : Ctx) (ctx : (counter ssl 32 c).0.en ≡ en)
        (ok : (encrypted ssl en).2 ≡ true) (sized : length (encrypted ssl en).0 ≡ 32) where
      abbrev part : Bool × AesCfg Ctx × Machine
      part = generate_part ssl stub cpu buf 32 dst (pos 3) c m

      generated_32 : rdrand_get_bytes_retry stub cpu buf 32 (pos 3) m ≡ (32, ones buf 32 m)
      generated_32 = bytes_retry-Ones cpu buf 32 (pos 3) m (omega arith)

      loaded_32 : load_bytes (ones buf 32 m).mem buf 32 ≡ replicate 32 255
      loaded_32 = load_bytes-stored m.mem buf (replicate 32 255)

      part-done : part.0 ≡ true
      unfolding generate_part
      part-done = rw (generated_32, loaded_32, ctx, ok)

      part-mem : part.2.mem ≡ store_bytes (ones buf 32 m).mem dst (encrypted ssl en).0
      unfolding generate_part
      part-mem =
          rw (generated_32, loaded_32, ctx, ok)
            (ap (store_bytes (ones buf 32 m).mem dst)
              (take_all 32 (encrypted ssl en).0 (omega arith)))

      -- The first 32 bytes that are generated are those of one call of EVP_EncryptUpdate.
      first_bytes :
          load_bytes (rdrand_get_bytes_aes_ctr ssl stub cpu buf dst 32 (pos 3) c m).2.mem dst 32
          ≡ (encrypted ssl en).0
      unfolding rdrand_get_bytes_aes_ctr generate_loop generate_tail
      first_bytes =
          rw (part-done, part-mem)
            (ap (load_bytes (store_bytes (ones buf 32 m).mem dst (encrypted ssl en).0) dst)
                (sym sized)
              ∙ load_bytes-stored (ones buf 32 m).mem dst (encrypted ssl en).0)

    aes_compare_demo :
        (en : Ctx) (output : List ℕ) (c : AesCfg Ctx) (m : Machine)
        → IsLawful ssl
        → ((a b : Ctx) → ssl.ctx_init a ≡ ssl.ctx_init b)
        → ((a : Ctx) (b : List ℕ) → (ssl.encrypt_update a b).2 ≡ true)
        → demo_main ssl en output ≡ some expected_result
        → aes_compare_ecrypt_data ssl cpu buf dst c m ≡ true
    unfolding aes_compare_ecrypt_data
    aes_compare_demo en output c m law fresh enciphers run =
        let start = (started ssl en key nonce_counter).0 in
        let ctx : (counter ssl 32 (set_test_key ssl c)).0.en ≡ start =
          counter-keeps_ctx c
          ∙ set_test_key-en ssl c
          ∙ ap (λ a. (ssl.cipher_init a key nonce_counter).0) (fresh _ _) in
        let demo = demo-encrypts ssl en output law run in
        let first =
          first_bytes (set_test_key ssl c) (zeroed 8192 dst m) start ctx demo.0
            (law.enc_length _ _) in
        let full = λ (n : ℕ) (k : AesCfg Ctx) (w : Machine).
          aes_ctr-full ssl stub cpu buf (pos 3) dst n k w (stub-Complete cpu) enciphers in
        let r1 =
          rdrand_get_bytes_aes_ctr ssl stub cpu buf dst 32 (pos 3) (set_test_key ssl c)
            (zeroed 8192 dst m) in
        let r2 = rdrand_get_bytes_aes_ctr ssl stub cpu buf dst 32 (pos 3) r1.1 r1.2 in
        rw
          (
            full 32 (set_test_key ssl c) (zeroed 8192 dst m),
            full 32 r1.1 r1.2,
            full 8000 r2.1 r2.2,
            first,
            demo.1,
          )
          (ap (λ b. b && true) expected_self)

    -- When the demonstration of OpenSSL prints the bytes that the tests expect, both tests of the
    -- encrypted bytes pass, whatever AES_CFG holds before and wherever the arrays lie: with the same key
    -- and nonce, `rdrand_enc_buffer` encrypts 32 bytes of ones to what the demonstration prints, and so
    -- are the first 32 bytes of `rdrand_get_bytes_aes_ctr` with the stub; all requests are met. (The
    -- cipher keeps lengths and does not fail, and EVP_CIPHER_CTX_init forgets what the context held.)
    pub output_tests_demo :
        (en : Ctx) (output : List ℕ) (c : AesCfg Ctx) (m : Machine)
        → IsLawful ssl
        → ((a b : Ctx) → ssl.ctx_init a ≡ ssl.ctx_init b)
        → ((a : Ctx) (b : List ℕ) → (ssl.encrypt_update a b).2 ≡ true)
        → demo_main ssl en output ≡ some expected_result
        → (aes_enc_buffer ssl c ≡ true) × (aes_compare_ecrypt_data ssl cpu buf dst c m ≡ true)
    output_tests_demo en output c m law fresh enciphers run = (
      aes_enc_buffer_demo ssl en output c law fresh run,
      aes_compare_demo en output c m law fresh enciphers run,
    )
