-- ===== src/Tests/Cipher.antt =====
-- AES_CFG with the sample cipher.
use rd_rand.Prelude.{
  true, false, ℕ, ◌≤◌, ◌<◌, ◌≡◌, ◌⊎◌, ◌↔◌, refl, inl, arith, true, false, List, [], ◌∷◌, ◌++◌,
  replicate, pos, some,
}
use rd_rand.Cpu.{asm_64}
use rd_rand.Aes.State.{live, AesCfg}
use rd_rand.Aes.Power.{is_power_of_two}
use rd_rand.Aes.Keys.{
  zeros, rdrand_set_aes_keys, rdrand_set_aes_random_key, rdrand_clean_aes, keys_allocate,
  key_generate, nonce_generate,
}
use rd_rand.Aes.Keys.Accept.{set_aes_keys_accepts}
use rd_rand.Aes.Keys.Ready.{set_aes_keys-IsReady, set_aes_random_key-IsReady}
use rd_rand.Aes.Keys.Wipe.{clean_wipes}
use rd_rand.Aes.Change.{counter}
use rd_rand.Aes.Invariant.{IsReady, counter-IsReady}
use rd_rand.Aes.Encrypt.{rdrand_enc_buffer, rdrand_get_bytes_aes_ctr}
use rd_rand.Aes.Encrypt.Whole.{enc_buffer_after_set_keys}
use rd_rand.Aes.Encrypt.Generate.{aes_ctr_within, aes_ctr-IsReady}
use rd_rand.Tests.Samples.{late, idle, plain_ssl, plain_ssl-IsLawful, no_keys}

-- Two keys of eight bytes, and their nonces of four.
abbrev two_keys : List (List ℕ)
two_keys = (1 ∷ 2 ∷ 3 ∷ 4 ∷ 5 ∷ 6 ∷ 7 ∷ 8 ∷ []) ∷ (9 ∷ 9 ∷ 9 ∷ 9 ∷ 9 ∷ 9 ∷ 9 ∷ 9 ∷ []) ∷ []

abbrev two_nonces : List (List ℕ)
two_nonces = (1 ∷ 2 ∷ 3 ∷ 4 ∷ []) ∷ (5 ∷ 6 ∷ 7 ∷ 8 ∷ []) ∷ []

set_aes_keys_accepts_example :
    ((rdrand_set_aes_keys plain_ssl true true 2 8 two_keys two_nonces no_keys).1 ≡ true)
    ↔ ((◌≡◌ {A = ℕ} 8 8 ⊎ ◌≡◌ {A = ℕ} 8 16) × (0 < 2) × (true ≡ true) × (true ≡ true))
set_aes_keys_accepts_example =
    set_aes_keys_accepts plain_ssl true true 2 8 two_keys two_nonces no_keys

accepted : (rdrand_set_aes_keys plain_ssl true true 2 8 two_keys two_nonces no_keys).1 ≡ true
accepted =
    (set_aes_keys_accepts plain_ssl true true 2 8 two_keys two_nonces no_keys).1
      (inl refl, omega arith, refl, refl)

set_aes_keys-IsReady_example :
    IsReady (rdrand_set_aes_keys plain_ssl true true 2 8 two_keys two_nonces no_keys).0
set_aes_keys-IsReady_example =
    set_aes_keys-IsReady plain_ssl plain_ssl-IsLawful true true no_keys 2 8 4 two_keys two_nonces
      (refl, (refl, tt)) (refl, (refl, tt)) (omega arith) accepted

generated_key : (rdrand_set_aes_random_key plain_ssl true true no_keys).1 ≡ true
unfolding rdrand_set_aes_random_key keys_allocate is_power_of_two key_generate nonce_generate
generated_key = refl

set_aes_random_key-IsReady_example :
    IsReady (rdrand_set_aes_random_key plain_ssl true true no_keys).0
set_aes_random_key-IsReady_example =
    set_aes_random_key-IsReady plain_ssl plain_ssl-IsLawful true true no_keys generated_key

-- One key of two bytes.
abbrev small_cfg : AesCfg ℕ
small_cfg = record no_keys {
  amount = 1;
  allocated = true;
  keys = (1 ∷ 2 ∷ []) ∷ [];
  nonces = (3 ∷ 4 ∷ []) ∷ [];
  key_current = some 0;
  nonce_current = some 0;
  key_length = 2;
  next_counter = 4096;
  context = live;
}

small_cfg-IsReady : IsReady small_cfg
small_cfg-IsReady = record {
  allocated = refl;
  keys_amount = refl;
  nonces_amount = refl;
  keys_sized = (refl, tt);
  nonces_sized = (refl, tt);
  index_below = omega arith;
  key_at = refl;
  nonce_at = refl;
  counter_within = omega arith;
}

counter-IsReady_example : IsReady (counter plain_ssl 5000 small_cfg).0
counter-IsReady_example =
    counter-IsReady plain_ssl plain_ssl-IsLawful 5000 small_cfg small_cfg-IsReady

clean_wipes_example :
    let c' = rdrand_clean_aes plain_ssl true small_cfg in
    let c'' = rdrand_clean_aes plain_ssl false c' in
    (c'.freed ≡ [] ++ replicate 1 (zeros 2) ++ replicate 1 (zeros 2))
    × (c'.allocated ≡ false)
    × (c'.keys ≡ [])
    × (c'.nonces ≡ [])
    × (c'.crashed ≡ false)
    × (c''.freed ≡ c'.freed)
    × (c''.crashed ≡ true)
clean_wipes_example = clean_wipes plain_ssl true small_cfg false small_cfg-IsReady refl

enc_buffer_after_set_keys_example :
    let c' = (rdrand_set_aes_keys plain_ssl true true 2 8 two_keys two_nonces no_keys).0 in
    ((rdrand_enc_buffer plain_ssl (replicate 3000 1) 3000 c').ok ≡ false)
    × ((rdrand_enc_buffer plain_ssl (replicate 3000 1) 3000 c').dest ≡ [])
enc_buffer_after_set_keys_example =
    enc_buffer_after_set_keys plain_ssl true true 2 8 two_keys two_nonces no_keys (replicate 3000 1)
      3000 accepted (omega arith)

aes_ctr_within_example :
    let r = rdrand_get_bytes_aes_ctr plain_ssl asm_64 late 5000 100 3000 (pos 3) small_cfg idle in
    (r.0 ≤ 3000) × (r.2.mem 99 ≡ idle.mem 99)
aes_ctr_within_example =
    aes_ctr_within plain_ssl asm_64 late 5000 (pos 3) 100 3000 small_cfg idle 99 (inl (omega arith))
      (inl (omega arith))

aes_ctr-IsReady_example :
    IsReady (rdrand_get_bytes_aes_ctr plain_ssl asm_64 late 5000 100 3000 (pos 3) small_cfg idle).1
aes_ctr-IsReady_example =
    aes_ctr-IsReady plain_ssl asm_64 late 5000 (pos 3) 100 3000 small_cfg idle plain_ssl-IsLawful
      small_cfg-IsReady
