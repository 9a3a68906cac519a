-- ===== src/Check/Runs.antt =====
-- The tests of the key file and of the output, and `main` (check_tests/check_rdrand-gen.c, lines
-- 416-631), in a build with STUB_RDRAND.
pub mod Passes
use rd_rand.Prelude.{
  ℕ, ◌++◌, ◌/◌, Bool, true, false, ◌&&◌, none, some, Option, List, [], ◌∷◌, ◌==◌, ◌==ℤ◌, codes,
  get_or, if◌then◌else◌,
}
use rd_rand.Cpu.{Cpu, stub}
use rd_rand.Cpu.Support.{Cpuid, rdrand_unsupported, rdrand_test_support}
use rd_rand.Memory.{Machine}
use rd_rand.Aes.State.{AesCfg, OpenSsl, default_key_len, rdrand_max_key_length}
use rd_rand.Aes.Keys.{zeros}
use rd_rand.Gen.Arguments.{opt_amount, opt_threads, Numbers, parse_args, default_config}
use rd_rand.Gen.KeyFile.{
  FileErrors, e_ok, e_eof, e_error, e_key_nonce_bad_length, e_key_invalid_character, newline,
  load_key_line,
}
use rd_rand.Gen.LoadKeys.{Outcome, exits, overruns, returns, key_len_of, load_keys}
use rd_rand.Gen.Chunks.{generate}
use rd_rand.Check.{same_memory}
use rd_rand.Check.Demo.{key_hex, nonce_hex, read_hex}
use rd_rand.Check.Options.{parse_args_suite}

-- check_tests/keys.txt.
abbrev pub keys_file : List ℕ
keys_file = codes "c96b8a45affc5c9050378dd32168c38141e31e41e3f8c26f" ++ newline ∷ []

-- FIXED_KEY and FIXED_NONCE; what the arrays hold behind them is not read.
unfoldable pub fixed_key : List ℕ
unfolding read_hex
fixed_key = read_hex (zeros rdrand_max_key_length) key_hex 32 default_key_len

unfoldable pub fixed_nonce : List ℕ
unfolding read_hex
fixed_nonce = read_hex (zeros rdrand_max_key_length) nonce_hex 16 (default_key_len / 2)

unfoldable pub is_ok : FileErrors → Bool
is_ok e_ok = true
is_ok e_eof = false
is_ok e_error = false
is_ok e_key_nonce_bad_length = false
is_ok e_key_invalid_character = false

unfoldable pub is_eof : FileErrors → Bool
is_eof e_ok = false
is_eof e_eof = true
is_eof e_error = false
is_eof e_key_nonce_bad_length = false
is_eof e_key_invalid_character = false

unfoldable pub returns_ok : Outcome → Bool
unfolding is_ok
returns_ok exits = false
returns_ok overruns = false
returns_ok (returns e) = is_ok e

abbrev pub nonce_len_of : Option ℕ → ℕ
nonce_len_of len = elim len [ none ↦ 0 | some n ↦ n ]

unfoldable pub keys_read_line : (file : List ℕ) → Bool
unfolding fixed_key fixed_nonce is_ok is_eof same_memory
keys_read_line file =
    let l = load_key_line file in
    is_ok l.result
    && (same_memory l.key fixed_key (key_len_of l)
        && (same_memory l.nonce fixed_nonce (nonce_len_of l.nonce_len)
            && is_eof (load_key_line l.file).result))

module _ {Ctx : Type 0} (ssl : OpenSsl Ctx) where
  unfoldable pub keys_open_file : (file : List ℕ) → AesCfg Ctx → Bool
  unfolding fixed_key fixed_nonce returns_ok same_memory
  keys_open_file file c =
      let (r, k) =
        load_keys ssl true true (λ n. true) (some file) (record c { key_current = none }) in
      returns_ok r
      && (k.amount == 1
          && (same_memory (get_or k.keys 0 []) fixed_key k.key_length
              && same_memory (get_or k.nonces 0 []) fixed_nonce (k.key_length / 2)))

  module _ {D : Type 0} (numbers : Numbers D) (cpu : Cpu)
      (fwrite : List ℕ → ℕ → List ℕ → ℕ × List ℕ) (fuel buf gen_buf1 gen_buf2 enc_buf : ℕ)
      (aes : AesCfg Ctx) (m : Machine) where
    -- `rdrand-gen -t 1 -n amount`: `generate` returns the amount. What it writes goes to /dev/null.
    unfoldable pub run_amount : (amount : List ℕ) → (bytes : ℕ) → Bool
    run_amount amount bytes =
        elim (parse_args numbers (opt_threads (codes "1") ∷ opt_amount amount ∷ [])
          default_config) [
            | none ↦ false
            | some config ↦
                (generate stub cpu ssl buf fwrite fuel gen_buf1 gen_buf2 enc_buf config aes m []).0
                == bytes
          ]

    unfoldable pub run_amount_generation_16 : Bool
    run_amount_generation_16 = run_amount (codes "16") 16

    unfoldable pub run_amount_generation_5 : Bool
    run_amount_generation_5 = run_amount (codes "5") 5

    unfoldable pub run_amount_generation_20k : Bool
    run_amount_generation_20k = run_amount (codes "20000") 20000

    unfoldable pub run_suite : Bool
    run_suite = run_amount_generation_16 && (run_amount_generation_5 && run_amount_generation_20k)

    -- EXIT_SUCCESS is true.
    unfoldable pub check_rdrand_gen : (cpuid : ℕ → Cpuid) → Bool
    check_rdrand_gen cpuid =
        let passed =
          parse_args_suite numbers
          && ((keys_read_line keys_file && keys_open_file keys_file aes) && run_suite) in
        if rdrand_test_support true cpuid ==ℤ rdrand_unsupported then false else passed
