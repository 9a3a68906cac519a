-- ===== src/Check/Cipher/Passes.antt =====
-- Which of the tests of AES decide the result of `main`.
use rd_rand.Prelude.{ℕ, ◌+◌, ◌≤◌, ◌<◌, ◌≡◌, ◌≢◌, ◌↔◌, arith, Bool, true, false, ◌&&◌, some, List}
use rd_rand.Cpu.{Cpu}
use rd_rand.Memory.{Machine}
use rd_rand.Arrays.{u32}
use rd_rand.Aes.State.{AesCfg, OpenSsl}
use rd_rand.Aes.Keys.{zeros}
use rd_rand.Aes.Invariant.{IsLawful}
use rd_rand.Check.{same_memory}
use rd_rand.Check.Keys.{aes_set_counter_changing, aes_keys_counter_in_generation}
use rd_rand.Check.Keys.Passes.{creation_tests}
use rd_rand.Check.Keys.Counter.Random.{random_key_tests}
use rd_rand.Check.Demo.{demo_main}
use rd_rand.Check.Output.{expected_result, aes_get_bytes}
use rd_rand.Check.Output.Compare.{output_tests_demo}
use rd_rand.Check.Cipher.{aes_creation_suite, aes_generation_suite, check_aes}

all_of :
    (a b d e : Bool) {P : Type 0}
    → (a ≡ true) ↔ P
    → ((a && (b && d)) && (e && true) ≡ true) ↔ (P × (b ≡ true) × (d ≡ true) × (e ≡ true))
all_of a b d e p = (
  (λ h. (p.0 (ground (arith, h)), ground (arith, h), ground (arith, h), ground (arith, h))),
  (λ (q, r, s, t). let on = p.1 q in ground (arith, on, r, s, t)),
)

module _ {Ctx : Type 0} (ssl : OpenSsl Ctx) (law : IsLawful ssl) (key : ℕ → List ℕ)
    (draws : (n : ℕ) → ssl.rand_bytes n 16 ≡ some (key n))
    (distinct : (i j : ℕ) → i < j → j ≤ i + 3 → same_memory (key i) (key j) 16 ≡ false)
    (fresh : (a b : Ctx) → ssl.ctx_init a ≡ ssl.ctx_init b)
    (enciphers : (a : Ctx) (b : List ℕ) → (ssl.encrypt_update a b).2 ≡ true) where
  -- With an OpenSSL whose RAND_bytes succeeds, never gives the bytes of one of its last three calls
  -- again and does not begin with zeros, whose cipher keeps lengths and does not fail, and with which the
  -- demonstration prints the expected bytes, the tests of AES pass, all of them, exactly when the three
  -- pass whose outcome hangs on other random bytes, and the variable that one more does not initialise
  -- does not end at 0.
  pub check_aes_iff :
      (cpu : Cpu) (buf dst : ℕ) (munlock : Bool) (junk : ℕ) (en : Ctx) (output : List ℕ)
      (c : AesCfg Ctx) (m : Machine)
      → same_memory (key c.rand_calls) (zeros 16) 16 ≡ false
      → demo_main ssl en output ≡ some expected_result
      → (check_aes ssl cpu buf dst munlock junk c m ≡ true) ↔ (
          (u32 (junk + 5) ≢ 0)
          × (aes_set_counter_changing ssl c ≡ true)
          × (aes_keys_counter_in_generation ssl cpu buf dst c m ≡ true)
          × (aes_get_bytes ssl cpu buf dst c m ≡ true))
  unfolding check_aes aes_creation_suite aes_generation_suite
  check_aes_iff cpu buf dst munlock junk en output c m not_zero run =
      let (bad, correct, start, end, boundaries, startup, key_end, changing) =
        creation_tests ssl c munlock junk in
      let (counts, zero, gen) = random_key_tests ssl law key draws distinct c not_zero in
      let (enc, compare) =
        output_tests_demo ssl cpu buf dst en output c m law fresh enciphers run in
      rw (bad, correct, start, end, boundaries, startup, key_end, counts, zero, gen, enc, compare)
        (all_of _ _ _ _ changing)
