-- ===== src/Tests/Samples.antt =====
-- Processors, machines and a cipher for the runs.
use rd_rand.Prelude.{
  ℕ, ◌+◌, ◌*◌, ◌%◌, ◌≤◌, ◌<◌, false, ◌≡◌, refl, ap, ◌∙◌, sym, arith, true, Option, some, List, [],
  ◌++◌, length, replicate, length-replicate, ◌==◌, none,
}
use rd_rand.Cpu.{Cpu}
use rd_rand.Cpu.Support.{Cpuid}
use rd_rand.Memory.{Machine}
use rd_rand.Arrays.Full.{NeverFails}
use rd_rand.Aes.State.{AesCfg, OpenSsl, given, no_context, live}
use rd_rand.Aes.Power.{is_power_of_two}
use rd_rand.Aes.Invariant.{IsLawful}
use rd_rand.Aes.Defined.{IsDefined}
use rd_rand.Aes.Keys.{
  zeros, is_empty, key_to_openssl, keys_allocate, nonce_generate, key_generate,
  rdrand_set_aes_random_key,
}
use rd_rand.Aes.Keys.Ready.{set_aes_random_key-IsReady}
use rd_rand.Check.{same_memory}

-- RDRAND never fails.
abbrev pub steady : Cpu
steady t w = record { carry = true; value = t * 1311768467463790320 + w }

pub steady-NeverFails : NeverFails steady
steady-NeverFails t w = refl

-- RDRAND always fails.
abbrev pub broken : Cpu
broken t w = record { carry = false; value = 0 }

-- RDRAND succeeds at its third execution only.
abbrev pub late : Cpu
late t w = record { carry = t == 2; value = 77 }

abbrev pub idle : Machine
idle = record { ticks = 0; mem = λ a. 255; slept = 0 }

abbrev pub with_rdrand : ℕ → Cpuid
with_rdrand eax = record { eax = 0; ebx = 0; ecx = 0x40000001; edx = 0 }

-- A cipher with a number as its context: it counts the bytes and gives them back.
abbrev pub plain_ssl : OpenSsl ℕ
plain_ssl = record {
  ctx_new = 0;
  ctx_init = λ en. en;
  cipher_init = λ en key nonce. (length key, true);
  encrypt_update = λ en b. (b, en + length b, true);
  cleanup = λ en. (0, true);
  rand_bytes = λ k n. some (replicate n 7);
}

pub length-some :
    (n : ℕ) (b : List ℕ) → ◌≡◌ {A = Option (List ℕ)} (some (replicate n 7)) (some b) → length b ≡ n
length-some n b e = ap (λ o. elim o [ none ↦ n | some x ↦ length x ]) (sym e) ∙ length-replicate n 7

pub plain_ssl-IsLawful : IsLawful plain_ssl
plain_ssl-IsLawful = record {
  enc_length = λ en b. refl;
  rand_length = λ k n b e. length-some n b e;
}

-- AES_CFG as the program starts.
abbrev pub no_keys : AesCfg ℕ
no_keys = record {
  amount = 0;
  index = 0;
  next_counter = 0;
  allocated = false;
  keys = [];
  nonces = [];
  key_current = none;
  nonce_current = none;
  key_length = 0;
  en = 0;
  keys_type = given;
  rand_calls = 0;
  freed = [];
  context = no_context;
  crashed = false;
}

-- fwrite to a stream that takes everything.
abbrev pub append_bytes : List ℕ → List ℕ → List ℕ
append_bytes file bytes = file ++ bytes

-- RAND_bytes gives the number of the call.
abbrev pub counting_ssl : OpenSsl ℕ
counting_ssl = record plain_ssl { rand_bytes = λ n k. some (replicate k (n % 256)) }

counting-length : (k n : ℕ) (b : List ℕ) → counting_ssl.rand_bytes k n ≡ some b → length b ≡ n
counting-length k n b e =
    ap (λ o. elim o [ none ↦ n | some x ↦ length x ]) (sym e) ∙ length-replicate n (k % 256)

pub counting-IsLawful : IsLawful counting_ssl
counting-IsLawful = record { enc_length = λ en b. refl; rand_length = counting-length }

pub counting-distinct :
    (i j : ℕ)
    → i < j
    → j ≤ i + 3
    → same_memory (replicate 16 (i % 256)) (replicate 16 (j % 256)) 16 ≡ false
unfolding same_memory
counting-distinct i j lt near = let other : (i % 256 == j % 256) ≡ false = ground arith in rw other

-- Seven calls of RAND_bytes came before.
abbrev pub seven_calls : AesCfg ℕ
seven_calls = record no_keys { rand_calls = 7 }

pub seven-other : same_memory (replicate 16 (7 % 256)) (zeros 16) 16 ≡ false
unfolding same_memory
seven-other = refl

-- The program's random key.
abbrev pub random_key : AesCfg ℕ
random_key = (rdrand_set_aes_random_key plain_ssl true true no_keys).0

random_key_set : (rdrand_set_aes_random_key plain_ssl true true no_keys).1 ≡ true
unfolding rdrand_set_aes_random_key keys_allocate is_power_of_two key_generate nonce_generate
random_key_set = refl

pub random_key-IsDefined : IsDefined random_key
unfolding rdrand_set_aes_random_key keys_allocate is_power_of_two key_generate nonce_generate
    is_empty key_to_openssl
random_key-IsDefined = record {
  ready = set_aes_random_key-IsReady plain_ssl plain_ssl-IsLawful true true no_keys random_key_set;
  sound = refl;
}

pub random_key_live : random_key.context ≡ live
unfolding rdrand_set_aes_random_key keys_allocate is_power_of_two key_generate nonce_generate
    key_to_openssl
random_key_live = refl
