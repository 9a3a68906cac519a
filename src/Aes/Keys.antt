-- ===== src/Aes/Keys.antt =====
-- Setting and destroying keys: `key_to_openssl`, `keys_allocate`, `keys_free`, the locks,
-- `rdrand_set_aes_keys`, `rdrand_set_aes_random_key`, `rdrand_clean_aes`, `key_generate`
-- (src/librdrand-aes.c, lines 44-333 and 576-596). The allocation of the two arrays and the calls that
-- lock memory are parameters; that of the single strings, which the code does not test, is taken to
-- succeed.
pub mod Accept
pub mod Ready
pub mod Wipe
use rd_rand.Prelude.{
  ℕ, zero, suc, ◌+◌, ◌-◌, ◌*◌, ◌/◌, ◌%◌, ◌^◌, Bool, true, false, not, ◌&&◌, ◌||◌, Option, none,
  some, List, [], ◌∷◌, ◌++◌, if◌then◌else◌, ltb, leb, ◌==◌, get_or, set, replicate, take, drop,
  length, bit_and,
}
use rd_rand.Aes.State.{
  AesCfg, OpenSsl, KeysType, Context, no_context, live, freed_context, generated, given,
  default_key_len, rdrand_max_key_length, rdrand_min_key_length, max_counter,
}
use rd_rand.Aes.Power.{is_power_of_two}

-- `memcpy(dest, src, n)` where `dest` holds `n` bytes or more.
abbrev pub overwrite : List ℕ → List ℕ → ℕ → List ℕ
overwrite dest src n = take n src ++ drop n dest

abbrev pub zeros : ℕ → List ℕ
zeros n = replicate n 0

-- What `*p` reads through a pointer into an array of byte strings.
abbrev pub deref : List (List ℕ) → Option ℕ → List ℕ
deref bufs none = []
deref bufs (some i) = get_or bufs i []

-- `getrlimit` gives the limit, or fails; `mlock` succeeds or fails. No caller uses the result.
unfoldable pub keys_mem_lock : (rlim_cur : Option ℕ) → (mlock : Bool) → (len : ℕ) → ℕ
keys_mem_lock none mlock len = 0
keys_mem_lock (some rlim_cur) mlock len =
    if leb len (rlim_cur % 2 ^ 32 / 4) then (if mlock then 1 else 0) else 1

-- `memset(ptr, 0, len)` of a string of `len` bytes, and whether `munlock` succeeded.
unfoldable pub keys_mem_unlock : (munlock : Bool) → List ℕ → ℕ → List ℕ × ℕ
keys_mem_unlock munlock bytes len = (zeros len ++ drop len bytes, if munlock then 1 else 0)

-- The strings of an array, set to zero, unlocked and freed.
unfoldable pub wipe : (munlock : Bool) → ℕ → List (List ℕ) → List (List ℕ)
wipe munlock key_length [] = []
wipe munlock key_length (b ∷ bufs) =
    (keys_mem_unlock munlock (zeros key_length ++ drop key_length b) key_length).0
    ∷ wipe munlock key_length bufs

-- `memcpy(dest[i], src[i], n)` for each of the allocated strings.
unfoldable pub copy_all : ℕ → List (List ℕ) → List (List ℕ) → List (List ℕ)
copy_all n [] src = []
copy_all n (b ∷ bufs) [] = b ∷ bufs
copy_all n (b ∷ bufs) (s ∷ src) = overwrite b s n ∷ copy_all n bufs src

-- No string: the array is not allocated, or its pointers are not set.
unfoldable pub is_empty : List (List ℕ) → Bool
is_empty [] = true
is_empty (b ∷ bufs) = false

-- What EVP_CIPHER_CTX_free leaves, and whether it frees a context once more.
unfoldable pub free_context : Context → Context × Bool
free_context no_context = (no_context, false)
free_context live = (freed_context, false)
free_context freed_context = (freed_context, true)

module _ {Ctx : Type 0} (ssl : OpenSsl Ctx) where
  -- The result says whether EVP_CipherInit_ex returned 1.
  unfoldable pub key_to_openssl : AesCfg Ctx → AesCfg Ctx × Bool
  key_to_openssl c =
      let (en, ok) =
        ssl.cipher_init c.en (deref c.keys c.key_current) (deref c.nonces c.nonce_current) in
      (record c { en = en }, ok)

  -- The Booleans say whether the two arrays were allocated; each string is set to zero.
  unfoldable pub keys_allocate :
      (malloc_keys malloc_nonces : Bool) → (amount key_length : ℕ) → AesCfg Ctx → AesCfg Ctx × Bool
  keys_allocate malloc_keys malloc_nonces amount key_length c =
      let sized = record c {
        amount = amount;
        key_length = key_length;
        en = ssl.ctx_init c.en;
        allocated = malloc_keys;
      } in
      if not (is_power_of_two key_length) || amount == 0
      then (c, false)
      else if not malloc_keys || not malloc_nonces
      then (record sized { keys = []; nonces = [] }, false)
      else (
        record sized {
          keys = replicate amount (zeros key_length);
          nonces = replicate amount (zeros key_length);
          key_current = some 0;
          nonce_current = some 0;
        },
        true,
      )

  unfoldable pub keys_free : (munlock : Bool) → AesCfg Ctx → AesCfg Ctx
  unfolding wipe keys_mem_unlock
  keys_free munlock c = if not c.allocated then c else record c {
    key_current = none;
    nonce_current = none;
    index = 0;
    allocated = false;
    keys = [];
    nonces = [];
    freed =
        c.freed
        ++ wipe munlock c.key_length (take c.amount c.keys)
        ++ wipe munlock c.key_length (take c.amount c.nonces);
    en = (ssl.cleanup c.en).0;
    crashed = c.crashed || not (length c.keys == c.amount) || not (length c.nonces == c.amount);
  }

  -- The result of a call of RAND_bytes, and the state with the call counted.
  abbrev pub rand_bytes : ℕ → AesCfg Ctx → Option (List ℕ) × AesCfg Ctx
  rand_bytes n c = (ssl.rand_bytes c.rand_calls n, record c { rand_calls = c.rand_calls + 1 })

  -- The second half of `key_generate`, after the key.
  unfoldable pub nonce_generate : AesCfg Ctx → AesCfg Ctx × Bool
  unfolding is_empty
  nonce_generate c =
      let (got, c') = rand_bytes c.key_length c in
      elim got [
        | none ↦ (c', false)
        | some buf ↦
            let nonce = overwrite (get_or c.nonces 0 []) buf c.key_length in
            (
              (key_to_openssl (record c' {
                nonces = set c.nonces 0 nonce;
                crashed = c.crashed || is_empty c.nonces;
              })).0,
              true,
            )
      ]

  unfoldable pub key_generate : AesCfg Ctx → AesCfg Ctx × Bool
  unfolding nonce_generate is_empty
  key_generate c =
      let (got, c') = rand_bytes c.key_length c in
      elim got [
        | none ↦ (c', false)
        | some buf ↦
            let key = overwrite (get_or c.keys 0 []) buf c.key_length in
            nonce_generate
              (record c' { keys = set c.keys 0 key; crashed = c.crashed || is_empty c.keys })
      ]

  unfoldable pub rdrand_set_aes_keys :
      (malloc_keys malloc_nonces : Bool) (amount key_length : ℕ) (keys nonces : List (List ℕ))
      → AesCfg Ctx
      → AesCfg Ctx × Bool
  rdrand_set_aes_keys malloc_keys malloc_nonces amount key_length keys nonces c =
      let fresh = record c {
        en = ssl.ctx_new;
        context = live;
        index = 0;
        next_counter = max_counter;
        keys_type = given;
        key_current = none;
      } in
      let (c', ok) = keys_allocate malloc_keys malloc_nonces amount key_length fresh in
      let filled = record c' {
        keys = copy_all key_length c'.keys keys;
        nonces = copy_all (key_length / 2) c'.nonces nonces;
      } in
      if leb key_length rdrand_min_key_length || leb rdrand_max_key_length key_length
      then (c, false)
      else if ok
      then ((key_to_openssl filled).0, true)
      else (c', false)

  unfoldable pub rdrand_set_aes_random_key :
      (malloc_keys malloc_nonces : Bool) → AesCfg Ctx → AesCfg Ctx × Bool
  rdrand_set_aes_random_key malloc_keys malloc_nonces c =
      let fresh = record c {
        en = ssl.ctx_new;
        context = live;
        keys_type = generated;
        index = 0;
        next_counter = 0;
        key_current = none;
      } in
      let (c', ok) = keys_allocate malloc_keys malloc_nonces 1 default_key_len fresh in
      if ok then key_generate c' else (c', false)

  -- KEYS_GENERATED is 0. `en` keeps pointing to the context that is freed.
  unfoldable pub rdrand_clean_aes : (munlock : Bool) → AesCfg Ctx → AesCfg Ctx
  unfolding keys_free free_context
  rdrand_clean_aes munlock c =
      let k = keys_free munlock c in
      let (context, again) = free_context k.context in
      record k {
        keys_type = generated;
        amount = 0;
        key_length = 0;
        next_counter = 0;
        context = context;
        crashed = k.crashed || again;
      }
