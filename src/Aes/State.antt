-- ===== src/Aes/State.antt =====
-- The state AES_CFG (src/librdrand-aes.private.h, lines 34-56) and the constants of
-- src/librdrand-aes.h. OpenSSL is a parameter.
use rd_rand.Prelude.{ℕ, Bool, Option, List}

abbrev pub default_key_len : ℕ
default_key_len = 16

abbrev pub rdrand_max_key_length : ℕ
rdrand_max_key_length = 32

abbrev pub rdrand_min_key_length : ℕ
rdrand_min_key_length = 4

abbrev pub max_counter : ℕ
max_counter = 4096

abbrev pub max_buffer_size : ℕ
max_buffer_size = 2048

-- The calls of OpenSSL, on a cipher context; a Boolean says whether the call returned 1.
pub record OpenSsl (Ctx : Type 0) : Type 0 where
  -- EVP_CIPHER_CTX_new
  pub ctx_new : Ctx
  -- EVP_CIPHER_CTX_init
  pub ctx_init : Ctx → Ctx
  -- EVP_CipherInit_ex, for EVP_aes_128_ctr, with a key and a nonce
  pub cipher_init : Ctx → List ℕ → List ℕ → Ctx × Bool
  -- EVP_EncryptUpdate
  pub encrypt_update : Ctx → List ℕ → List ℕ × Ctx × Bool
  -- EVP_CIPHER_CTX_cleanup
  pub cleanup : Ctx → Ctx × Bool
  -- RAND_bytes: the outcome of the n-th call, with a length
  pub rand_bytes : ℕ → ℕ → Option (List ℕ)

pub data KeysType : Type 0 where
  generated given : KeysType

-- What `en` points to: NULL, a context, or one that was given back to OpenSSL.
pub data Context : Type 0 where
  no_context live freed_context : Context

-- AES_CFG with the fields of its `keys`. `allocated` is `keys.keys != NULL`; the arrays of keys and
-- nonces are lists of byte strings, and a pointer to the current key or nonce is its index, or NULL.
-- Beside the program's fields, `rand_calls` counts the calls of RAND_bytes, and `freed` collects the
-- byte strings given back to `free`, as they were then; `context` says what `en` points to, and `crashed`
-- is set where the code divides by 0, writes through NULL or an uninitialised pointer, or frees a context
-- once more. What is done after that is not described by the model.
pub record AesCfg (Ctx : Type 0) : Type 0 where
  pub amount : ℕ
  pub index : ℕ
  pub next_counter : ℕ
  pub allocated : Bool
  pub keys : List (List ℕ)
  pub nonces : List (List ℕ)
  pub key_current : Option ℕ
  pub nonce_current : Option ℕ
  pub key_length : ℕ
  pub en : Ctx
  pub keys_type : KeysType
  pub rand_calls : ℕ
  pub freed : List (List ℕ)
  pub context : Context
  pub crashed : Bool
