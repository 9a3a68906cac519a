-- ===== src/Aes/Encrypt/Whole.antt =====
-- `rdrand_enc_buffer` and the change of keys: a request of 2048 bytes or more depends on it, a
-- shorter one never makes it.
use rd_rand.Prelude.{
  ℕ, suc, ◌-◌, ◌/◌, ◌%◌, ◌≤◌, ◌<◌, ◌≡◌, refl, arith, List, [], ◌∷◌, true, false, Bool, ◌||◌, ◌==◌,
  leb, if_elim, none,
}
use rd_rand.Aes.State.{
  live, AesCfg, OpenSsl, given, max_counter, rdrand_min_key_length, rdrand_max_key_length,
}
use rd_rand.Aes.Keys.{key_to_openssl, keys_allocate, rdrand_set_aes_keys}
use rd_rand.Aes.Keys.Ready.{keys_allocate-Allocated}
use rd_rand.Aes.Change.{counter}
use rd_rand.Aes.Encrypt.{Encrypted, enc_part, enc_loop, rdrand_enc_buffer}

module _ {Ctx : Type 0} (ssl : OpenSsl Ctx) where
  pub enc_buffer_fails :
      (src : List ℕ) (len : ℕ) (c : AesCfg Ctx)
      → 2048 ≤ len
      → 2048 ≤ c.next_counter
      → ((rdrand_enc_buffer ssl src len c).ok ≡ false)
        × ((rdrand_enc_buffer ssl src len c).dest ≡ [])
  unfolding rdrand_enc_buffer
  enc_buffer_fails src len c long fresh =
      let e : len / 2048 ≡ suc (len / 2048 - 1) = omega arith in
      rw e (rw (enc_loop, unchanged) (refl, refl))
    where
      unchanged : (counter ssl 2048 c).1 ≡ false
      unchanged = unfold counter in ground arith

  set_aes_keys-counter :
      (malloc_keys malloc_nonces : Bool) (amount key_length : ℕ) (keys nonces : List (List ℕ))
      (c : AesCfg Ctx)
      → (rdrand_set_aes_keys ssl malloc_keys malloc_nonces amount key_length keys nonces c).1 ≡ true
      → (rdrand_set_aes_keys ssl malloc_keys malloc_nonces amount key_length keys nonces
          c).0.next_counter
        ≡ max_counter
  unfolding rdrand_set_aes_keys key_to_openssl
  set_aes_keys-counter malloc_keys malloc_nonces amount key_length keys nonces c =
      if_elim {A = AesCfg Ctx × Bool} (λ p. p.1 ≡ true → p.0.next_counter ≡ max_counter)
        (leb key_length rdrand_min_key_length || leb rdrand_max_key_length key_length) (λ _ e. cc)
        (λ _.
          if_elim {A = AesCfg Ctx × Bool} (λ p. p.1 ≡ true → p.0.next_counter ≡ max_counter)
            (keys_allocate ssl malloc_keys malloc_nonces amount key_length fresh).1
            (λ ok e.
              let a =
                keys_allocate-Allocated ssl malloc_keys malloc_nonces amount key_length fresh ok in
              a.counter_kept)
            (λ _ e. cc))
    where
      fresh : AesCfg Ctx
      fresh = record c {
        en = ssl.ctx_new;
        context = live;
        index = 0;
        next_counter = max_counter;
        keys_type = given;
        key_current = none;
      }

  -- After `rdrand_set_aes_keys` has succeeded, `rdrand_enc_buffer` fails on every request of 2048
  -- bytes or more, and stores nothing: the counter that it asks reports 0 when it need not change the
  -- key.
  pub enc_buffer_after_set_keys :
      (malloc_keys malloc_nonces : Bool) (amount key_length : ℕ) (keys nonces : List (List ℕ))
      (c : AesCfg Ctx) (src : List ℕ) (len : ℕ)
      → (rdrand_set_aes_keys ssl malloc_keys malloc_nonces amount key_length keys nonces c).1 ≡ true
      → 2048 ≤ len
      → let c' =
          (rdrand_set_aes_keys ssl malloc_keys malloc_nonces amount key_length keys nonces c).0 in
        ((rdrand_enc_buffer ssl src len c').ok ≡ false)
        × ((rdrand_enc_buffer ssl src len c').dest ≡ [])
  enc_buffer_after_set_keys malloc_keys malloc_nonces amount key_length keys nonces c src len ok
        long =
      enc_buffer_fails src len _ long (
        omega (
          arith,
          set_aes_keys-counter malloc_keys malloc_nonces amount key_length keys nonces c ok,
        ))

  -- A sequence of calls of `rdrand_enc_buffer`, each with its source and length.
  unfoldable pub enc_all : List (List ℕ × ℕ) → AesCfg Ctx → AesCfg Ctx
  enc_all [] c = c
  enc_all ((src, len) ∷ calls) c = enc_all calls (rdrand_enc_buffer ssl src len c).cfg

  abbrev Short : List (List ℕ × ℕ) → Type 0
  Short [] = Unit {0}
  Short ((src, len) ∷ calls) = (len < 2048) × Short calls

  enc_buffer-short :
      (src : List ℕ) (len : ℕ) (c : AesCfg Ctx)
      → len < 2048
      → (en : Ctx) × ((rdrand_enc_buffer ssl src len c).cfg ≡ record c { en = en })
  unfolding rdrand_enc_buffer enc_part
  enc_buffer-short src len c short =
      let e : len / 2048 ≡ 0 = omega arith in
      rw e (
        if_elim {A = Encrypted Ctx} (λ r. (en : Ctx) × (r.cfg ≡ record c { en = en }))
          (len % 2048 == 0) (λ _. (c.en, refl)) (λ _. (_, refl)))

  -- Calls of `rdrand_enc_buffer` with less than 2048 bytes each, however many they are, leave the
  -- state as it was but for the cipher context: they neither count nor change the key.
  pub enc_all-Short :
      (calls : List (List ℕ × ℕ)) (c : AesCfg Ctx)
      → Short calls
      → (en : Ctx) × (enc_all calls c ≡ record c { en = en })
  unfolding enc_all
  enc_all-Short [] c short = (c.en, refl)
  enc_all-Short ((src, len) ∷ calls) c short =
      let (en, e) = enc_buffer-short src len c short.0 in
      rw e (enc_all-Short calls (record c { en = en }) short.1)
