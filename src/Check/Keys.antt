-- ===== src/Check/Keys.antt =====
-- The tests of the AES keys (check_tests/check_aes.c, lines 43-342). AES_CFG, which is global, is as
-- the process of a test finds it. Allocation succeeds.
pub mod Passes
pub mod Counter
use rd_rand.Prelude.{
  ℕ, zero, suc, ◌+◌, ◌*◌, ◌/◌, Bool, true, false, not, ◌&&◌, Option, none, some, List, [], ◌∷◌,
  if◌then◌else◌, ltb, leb, ◌==◌, get_or, codes, pos,
}
use rd_rand.Arrays.{u32}
use rd_rand.Memory.{Machine}
use rd_rand.Cpu.{Cpu, stub}
use rd_rand.Aes.State.{AesCfg, OpenSsl, KeysType, generated, given, default_key_len, max_counter}
use rd_rand.Aes.Keys.{
  keys_allocate, keys_free, key_generate, rdrand_set_aes_keys, rdrand_set_aes_random_key,
  rdrand_clean_aes, zeros,
}
use rd_rand.Aes.Change.{counter, keys_change, keys_randomize}
use rd_rand.Aes.Encrypt.{rdrand_get_bytes_aes_ctr}
use rd_rand.Check.{same_memory}

unfoldable pub is_generated : KeysType → Bool
is_generated generated = true
is_generated given = false

-- `key_current == keys[i]`: pointers are indices.
unfoldable pub points_to : Option ℕ → ℕ → Bool
points_to none i = false
points_to (some j) i = j == i

unfoldable pub is_null : List (List ℕ) → Bool
is_null [] = true
is_null (b ∷ bufs) = false

-- The arrays of SETUP_KEYS.
abbrev pub test_keys : List (List ℕ)
test_keys = codes "aaaabbbbccccdddd" ∷ codes "bbbbccccddddeeee" ∷ codes "ccccddddeeeeffff" ∷ []

abbrev pub test_nonces : List (List ℕ)
test_nonces = codes "aaaabbbb" ∷ codes "bbbbcccc" ∷ codes "ccccdddd" ∷ []

module _ {Ctx : Type 0} (ssl : OpenSsl Ctx) where
  abbrev pub Cfg : Type 0
  Cfg = AesCfg Ctx

  unfoldable pub aes_malloc_bad : Cfg → Bool
  aes_malloc_bad c =
      let (c1, none_asked) = keys_allocate ssl true true 0 128 c in
      let (_, odd_length) = keys_allocate ssl true true 3 127 c1 in not none_asked && not odd_length

  unfoldable pub aes_malloc_correct : Cfg → Bool
  unfolding same_memory
  aes_malloc_correct c =
      let (c1, ok) = keys_allocate ssl true true 3 default_key_len c in
      ok
      && (same_memory (get_or c1.keys 0 []) (zeros default_key_len) default_key_len
          && same_memory (get_or c1.nonces 0 []) (zeros default_key_len) (default_key_len / 2))

  -- SETUP_KEYS, and whether its assertion holds.
  unfoldable pub setup_keys : Cfg → Cfg × Bool
  setup_keys = rdrand_set_aes_keys ssl true true 3 16 test_keys test_nonces

  -- The assertions compare `amount` bytes of each key and nonce: 3 of them.
  unfoldable pub aes_set_keys_start : Cfg → Bool
  unfolding setup_keys same_memory points_to is_generated
  aes_set_keys_start c =
      let (k, ok) = setup_keys c in
      let same : List (List ℕ) → List (List ℕ) → ℕ → Bool =
        λ bufs given_bufs i. same_memory (get_or bufs i []) (get_or given_bufs i []) 3 in
      ok
      && (not (is_generated k.keys_type)
          && (k.amount == 3
              && (k.key_length == 16
                  && (ltb k.index 3
                      && (points_to k.key_current k.index
                          && (points_to k.nonce_current k.index
                              && (same k.keys test_keys 0
                                  && (same k.keys test_keys 1
                                      && (same k.keys test_keys 2
                                          && (same k.nonces test_nonces 0
                                              && (same k.nonces test_nonces 1
                                                  && same k.nonces test_nonces 2)))))))))))

  -- A key of two bytes is refused.
  unfoldable pub aes_set_keys_boundaries : Cfg → Bool
  aes_set_keys_boundaries c =
      not (rdrand_set_aes_keys ssl true true 1 2 (codes "aa" ∷ []) (codes "b" ∷ []) c).1

  -- The rounds that are left: whether the assertions of all hold, and `changes`.
  unfoldable pub changing_rounds : (left old_index changes : ℕ) → Cfg → Bool × ℕ
  unfolding points_to
  changing_rounds zero old_index changes c = (true, changes)
  changing_rounds (suc left) old_index changes c =
      let k = (keys_change ssl c).0 in
      let (later, total) =
        changing_rounds left k.index (if k.index == old_index then changes else u32 (changes + 1))
          k in
      (
        ltb k.index k.amount
            && (points_to k.nonce_current k.index && (points_to k.key_current k.index && later)),
        total,
      )

  -- `changes` is not initialised: `junk` is what it holds.
  unfoldable pub aes_set_keys_changing : (junk : ℕ) → Cfg → Bool
  unfolding setup_keys changing_rounds
  aes_set_keys_changing junk c =
      let (k, ok) = setup_keys c in
      let (passed, changes) = changing_rounds 5 k.index junk k in ok && (passed && ltb 0 changes)

  unfoldable pub randomize_rounds : (left old_next_counter changes : ℕ) → Cfg → Bool × ℕ
  randomize_rounds zero old_next_counter changes c = (true, changes)
  randomize_rounds (suc left) old_next_counter changes c =
      let k = (keys_randomize ssl c).0 in
      let (later, total) =
        randomize_rounds left k.next_counter
          (if k.next_counter == old_next_counter then changes else changes + 1) k in
      (leb k.next_counter max_counter && later, total)

  unfoldable pub aes_set_counter_changing : Cfg → Bool
  unfolding setup_keys randomize_rounds
  aes_set_counter_changing c =
      let (k, ok) = setup_keys c in
      let (passed, changes) = randomize_rounds 5 k.next_counter 0 k in
      ok && (passed && ltb 0 changes)

  -- The assertions after `rdrand_clean_aes`.
  unfoldable pub is_clean : Cfg → Bool
  unfolding is_null is_generated
  is_clean k =
      is_generated k.keys_type
      && (k.amount == 0
          && (k.key_length == 0 && (k.index == 0 && (not k.allocated && is_null k.nonces))))

  unfoldable pub aes_set_keys_end : (munlock : Bool) → Cfg → Bool
  unfolding setup_keys is_clean
  aes_set_keys_end munlock c =
      let (k, ok) = setup_keys c in ok && is_clean (rdrand_clean_aes ssl munlock k)

  -- The result of `rdrand_set_aes_random_key` is not looked at.
  unfoldable pub aes_random_key_startup : Cfg → Bool
  unfolding is_null is_generated
  aes_random_key_startup c =
      let k = (rdrand_set_aes_random_key ssl true true c).0 in
      k.key_length == default_key_len
      && (is_generated k.keys_type
          && (k.amount == 1 && (k.index == 0 && (k.allocated && not (is_null k.nonces)))))

  unfoldable pub aes_random_key_end : (munlock : Bool) → Cfg → Bool
  unfolding is_clean
  aes_random_key_end munlock c =
      is_clean (rdrand_clean_aes ssl munlock (rdrand_set_aes_random_key ssl true true c).0)

  abbrev pub first_key : Cfg → List ℕ
  first_key k = get_or k.keys 0 []

  -- The rounds that are left of the loop over `key_generate`.
  unfoldable pub key_rounds : (left changes : ℕ) → (old_key : List ℕ) → Cfg → Bool × ℕ
  unfolding same_memory
  key_rounds zero changes old_key c = (true, changes)
  key_rounds (suc left) changes old_key c =
      let (k, ok) = key_generate ssl c in
      let (later, total) =
        key_rounds left
          (if same_memory (first_key k) old_key k.key_length then changes else changes + 1)
          (first_key k) k in
      (ok && later, total)

  unfoldable pub aes_random_key_gen : Cfg → Bool
  unfolding key_rounds same_memory
  aes_random_key_gen c =
      let (k, ok) = rdrand_set_aes_random_key ssl true true c in
      let (passed, changes) = key_rounds 5 0 (first_key k) k in
      ok
      && (not (same_memory (first_key k) (zeros default_key_len) k.key_length)
          && (passed && ltb 0 changes))

  -- The counter is set to 0, and the key has to change.
  unfoldable pub aes_keys_counter_zero : Cfg → Bool
  unfolding same_memory
  aes_keys_counter_zero c =
      let k = record ((rdrand_set_aes_random_key ssl true true c).0) { next_counter = 0 } in
      let k' = (counter ssl 1 k).0 in not (same_memory (first_key k) (first_key k') default_key_len)

  -- The rounds that are left of the loop over `counter`; the result is `changes`.
  unfoldable pub counter_rounds : (left changes : ℕ) → (key : List ℕ) → Cfg → ℕ
  unfolding same_memory
  counter_rounds zero changes key c = changes
  counter_rounds (suc left) changes key c =
      let k = (counter ssl 1 c).0 in
      counter_rounds left
        (if same_memory key (first_key k) default_key_len then changes else changes + 1)
        (first_key k) k

  -- Two rounds of MAX_COUNTER bytes.
  unfoldable pub aes_keys_counter : Cfg → Bool
  unfolding counter_rounds
  aes_keys_counter c =
      let k = (rdrand_set_aes_random_key ssl true true c).0 in
      leb 2 (counter_rounds (max_counter * 2 + 1) 0 (first_key k) k)

  -- The same, with MAX_COUNTER bytes generated in each round. `dst` is the address of the buffer,
  -- `buf` that of the local buffer of `rdrand_get_bytes_aes_ctr`.
  unfoldable pub generation_rounds :
      Cpu → (buf dst left changes : ℕ) → (key : List ℕ) → Cfg → Machine → Bool × ℕ
  unfolding same_memory
  generation_rounds cpu buf dst zero changes key c m = (true, changes)
  generation_rounds cpu buf dst (suc left) changes key c m =
      let (got, k, m') = rdrand_get_bytes_aes_ctr ssl stub cpu buf dst max_counter (pos 3) c m in
      let (later, total) =
        generation_rounds cpu buf dst left
          (if same_memory key (first_key k) default_key_len then changes else changes + 1)
          (first_key k) k m' in
      (not (got == 0) && later, total)

  unfoldable pub aes_keys_counter_in_generation : Cpu → (buf dst : ℕ) → Cfg → Machine → Bool
  unfolding generation_rounds
  aes_keys_counter_in_generation cpu buf dst c m =
      let k = (rdrand_set_aes_random_key ssl true true c).0 in
      let (passed, changes) = generation_rounds cpu buf dst 5 0 (first_key k) k m in
      passed && leb 5 changes
