-- ===== src/Check/Output/Passes.antt =====
-- The library encrypts as the demonstration does.
use rd_rand.Prelude.{
  ℕ, ◌≡◌, refl, sym, ap, ◌∙◌, arith, Bool, true, false, not, Option, none, some, if◌then◌else◌,
  List, [], ◌∷◌, ◌++◌, length, replicate, take, take_all, drop,
}
use rd_rand.Aes.State.{AesCfg, OpenSsl}
use rd_rand.Aes.Keys.{
  overwrite, zeros, rdrand_set_aes_keys, keys_allocate, copy_all, key_to_openssl,
}
use rd_rand.Aes.Power.{is_power_of_two}
use rd_rand.Aes.Invariant.{IsLawful}
use rd_rand.Aes.Encrypt.{rdrand_enc_buffer}
use rd_rand.Gen.KeyFile.{scan_bytes, scan_byte, hex_digit}
use rd_rand.Check.{same_memory}
use rd_rand.Check.Demo.{key_hex, nonce_hex, read_hex, demo_main}
use rd_rand.Check.Output.{expected_result, set_test_key, aes_enc_buffer}

-- The bytes of the two constants.
abbrev pub key : List ℕ
key = 201 ∷ 107 ∷ 138 ∷ 69 ∷ 175 ∷ 252 ∷ 92 ∷ 144 ∷ 80 ∷ 55 ∷ 141 ∷ 211 ∷ 33 ∷ 104 ∷ 195 ∷ 129 ∷ []

abbrev pub nonce_counter : List ℕ
nonce_counter = 65 ∷ 227 ∷ 30 ∷ 65 ∷ 227 ∷ 248 ∷ 194 ∷ 111 ∷ zeros 8

key_read : read_hex (zeros 16) key_hex 32 16 ≡ key
unfolding read_hex scan_bytes scan_byte hex_digit
key_read = refl

nonce_read : read_hex (zeros 16) nonce_hex 16 8 ≡ nonce_counter
unfolding read_hex scan_bytes scan_byte hex_digit
nonce_read = refl

pub expected_same :
    same_memory (overwrite (zeros 64) expected_result (length expected_result)) expected_result 32
    ≡ true
unfolding same_memory expected_result scan_bytes scan_byte hex_digit
expected_same = refl

pub expected_self : same_memory expected_result expected_result 32 ≡ true
unfolding same_memory expected_result scan_bytes scan_byte hex_digit
expected_self = refl

take-append : (xs ys : List ℕ) → take (length xs) (xs ++ ys) ≡ xs
take-append [] ys = refl
take-append (x ∷ xs) ys = ap (λ zs. x ∷ zs) (take-append xs ys)

printed_whole :
    (out output : List ℕ) → length out ≡ 32 → take 32 (overwrite output out (length out)) ≡ out
printed_whole out output sized =
    ap (λ n. take n (overwrite output out (length out))) (sym sized)
    ∙ ap (λ xs. take (length out) (xs ++ drop (length out) output))
        (take_all (length out) out (omega arith))
    ∙ take-append out (drop (length out) output)

printed_some :
    (ready ok : Bool) {printed r : List ℕ}
    → (if not ready then none else if not ok then none else some printed) ≡ some r
    → (ok ≡ true) × (printed ≡ r)
printed_some true true run = (refl, cc)
printed_some true false run = cc
printed_some false ok run = cc

module _ {Ctx : Type 0} (ssl : OpenSsl Ctx) where
  -- The context under which the library encrypts.
  pub set_test_key-en :
      (c : AesCfg Ctx)
      → (set_test_key ssl c).en ≡ (ssl.cipher_init (ssl.ctx_init ssl.ctx_new) key nonce_counter).0
  unfolding set_test_key rdrand_set_aes_keys keys_allocate is_power_of_two copy_all key_to_openssl
  set_test_key-en c = rw (key_read, nonce_read)

  -- The one call of EVP_EncryptUpdate, on 32 bytes of ones.
  abbrev pub encrypted : Ctx → List ℕ × Ctx × Bool
  encrypted en = ssl.encrypt_update en (replicate 32 255)

  enc_buffer_short :
      (c : AesCfg Ctx)
      → (encrypted c.en).2 ≡ true
      → ((rdrand_enc_buffer ssl (replicate 64 255) 32 c).ok ≡ true)
        × ((rdrand_enc_buffer ssl (replicate 64 255) 32 c).dest ≡ (encrypted c.en).0)
  unfolding rdrand_enc_buffer
  enc_buffer_short c ok = (rw ok, rw ok)

  abbrev pub started : Ctx → List ℕ → List ℕ → Ctx × Bool
  started en k n = ssl.cipher_init (ssl.ctx_init en) k n

  -- `main` of the demonstration, from the key and the nonce on.
  abbrev demo_with : Ctx → List ℕ → List ℕ → List ℕ → Option (List ℕ)
  demo_with en output k n =
      let e = encrypted (started en k n).0 in
      if not (started en k n).1
      then none
      else if not e.2
      then none
      else some (take 32 (overwrite output e.0 (length e.0)))

  demo_main-with :
      (en : Ctx) (output : List ℕ) → demo_main ssl en output ≡ demo_with en output key nonce_counter
  unfolding demo_main
  demo_main-with en output = λ i. demo_with en output (key_read i) (nonce_read i)

  pub demo-encrypts :
      (en : Ctx) (output : List ℕ) {r : List ℕ}
      → IsLawful ssl
      → demo_main ssl en output ≡ some r
      → let e = encrypted (started en key nonce_counter).0 in (e.2 ≡ true) × (e.0 ≡ r)
  demo-encrypts en output law run =
      let e = encrypted (started en key nonce_counter).0 in
      let done =
        printed_some (started en key nonce_counter).1 e.2 (sym (demo_main-with en output) ∙ run) in
      (done.0, sym (printed_whole e.0 output (law.enc_length _ _)) ∙ done.1)

  -- When the demonstration prints the bytes that the test expects, the test passes: the library encrypts
  -- 32 bytes of ones as the demonstration does, with its key and nonce.
  pub aes_enc_buffer_demo :
      (en : Ctx) (output : List ℕ) (c : AesCfg Ctx)
      → IsLawful ssl
      → ((a b : Ctx) → ssl.ctx_init a ≡ ssl.ctx_init b)
      → demo_main ssl en output ≡ some expected_result
      → aes_enc_buffer ssl c ≡ true
  unfolding aes_enc_buffer
  aes_enc_buffer_demo en output c law fresh run =
      let ctx : (set_test_key ssl c).en ≡ (started en key nonce_counter).0 =
        set_test_key-en c ∙ ap (λ a. (ssl.cipher_init a key nonce_counter).0) (fresh _ _) in
      let demo = demo-encrypts en output law run in
      let e = enc_buffer_short (set_test_key ssl c) (ap (λ a. (encrypted a).2) ctx ∙ demo.0) in
      rw (e.0, e.1 ∙ ap (λ a. (encrypted a).0) ctx ∙ demo.1) expected_same
