-- ===== src/Aes/Keys/Ready.antt =====
-- After keys are set, the state is ready for encryption.
use rd_rand.Prelude.{
  ℕ, ◌/◌, ◌≤◌, ◌<◌, ◌≡◌, refl, sym, ap, ◌∙◌, arith, List, length, replicate, length-replicate, true,
  Bool, not, ◌||◌, ◌==◌, leb, if_elim, some, none,
}
use rd_rand.Aes.State.{
  live, AesCfg, OpenSsl, generated, given, default_key_len, max_counter, rdrand_min_key_length,
  rdrand_max_key_length,
}
use rd_rand.Aes.Power.{is_power_of_two}
use rd_rand.Aes.Keys.{
  zeros, copy_all, keys_allocate, rdrand_set_aes_keys, rdrand_set_aes_random_key,
}
use rd_rand.Aes.Buffers.{Sized, Sized-replicate, Sized-copy_all, length-copy_all}
use rd_rand.Aes.Invariant.{IsLawful, IsReady, key_to_openssl-IsReady, key_generate-IsReady}

-- What a successful `keys_allocate` leaves.
pub record Allocated {Ctx : Type 0} (amount key_length : ℕ) (before c : AesCfg Ctx) : Type 0 where
  pub some_key : 0 < amount
  pub amount_set : c.amount ≡ amount
  pub length_set : c.key_length ≡ key_length
  pub allocated : c.allocated ≡ true
  pub keys_zero : c.keys ≡ replicate amount (zeros key_length)
  pub nonces_zero : c.nonces ≡ replicate amount (zeros key_length)
  pub key_first : c.key_current ≡ some 0
  pub nonce_first : c.nonce_current ≡ some 0
  pub index_kept : c.index ≡ before.index
  pub counter_kept : c.next_counter ≡ before.next_counter

module _ {Ctx : Type 0} (ssl : OpenSsl Ctx) where
  pub keys_allocate-Allocated :
      (malloc_keys malloc_nonces : Bool) (amount key_length : ℕ) (c : AesCfg Ctx)
      → (keys_allocate ssl malloc_keys malloc_nonces amount key_length c).1 ≡ true
      → Allocated amount key_length c
          (keys_allocate ssl malloc_keys malloc_nonces amount key_length c).0
  unfolding keys_allocate
  keys_allocate-Allocated malloc_keys malloc_nonces amount key_length c =
      if_elim {A = AesCfg Ctx × Bool} (λ p. p.1 ≡ true → Allocated amount key_length c p.0)
        (not (is_power_of_two key_length) || amount == 0) (λ _ e. cc)
        (λ sane.
          if_elim {A = AesCfg Ctx × Bool} (λ p. p.1 ≡ true → Allocated amount key_length c p.0)
            (not malloc_keys || not malloc_nonces) (λ _ e. cc)
            (λ got e. record {
              some_key = ground (arith, sane);
              amount_set = refl;
              length_set = refl;
              allocated = ground (arith, got);
              keys_zero = refl;
              nonces_zero = refl;
              key_first = refl;
              nonce_first = refl;
              index_kept = refl;
              counter_kept = refl;
            }))

  -- The zeroed arrays are ready, if the index was reset.
  Allocated-IsReady :
      {amount key_length : ℕ} {before c : AesCfg Ctx}
      → Allocated amount key_length before c
      → before.index ≡ 0
      → before.next_counter ≤ max_counter
      → IsReady c
  Allocated-IsReady {amount} {key_length} {c} a at_zero within = record {
    allocated = a.allocated;
    keys_amount =
        ap length a.keys_zero ∙ length-replicate amount (zeros key_length) ∙ sym a.amount_set;
    nonces_amount =
        ap length a.nonces_zero ∙ length-replicate amount (zeros key_length) ∙ sym a.amount_set;
    keys_sized = rw (a.keys_zero, a.length_set) (Sized-replicate key_length amount);
    nonces_sized = rw (a.nonces_zero, a.length_set) (Sized-replicate key_length amount);
    index_below = omega (arith, a.some_key, a.amount_set, a.index_kept);
    key_at = a.key_first ∙ ap some (sym at_zero ∙ sym a.index_kept);
    nonce_at = a.nonce_first ∙ ap some (sym at_zero ∙ sym a.index_kept);
    counter_within = omega (arith, a.counter_kept);
  }

  filled-IsReady :
      (c : AesCfg Ctx) (k m : ℕ) (keys nonces : List (List ℕ))
      → c.key_length ≡ k
      → Sized k keys
      → Sized m nonces
      → k / 2 ≤ m
      → IsReady c
      → IsReady
          (record c { keys = copy_all k c.keys keys; nonces = copy_all (k / 2) c.nonces nonces })
  filled-IsReady c k m keys nonces sized keys_ok nonces_ok half r = record {
    allocated = r.allocated;
    keys_amount = length-copy_all k c.keys keys ∙ r.keys_amount;
    nonces_amount = length-copy_all (k / 2) c.nonces nonces ∙ r.nonces_amount;
    keys_sized =
        Sized-copy_all c.key_length k k (omega arith) (omega arith) c.keys keys r.keys_sized
          keys_ok;
    nonces_sized =
        Sized-copy_all c.key_length m (k / 2) (omega arith) half c.nonces nonces r.nonces_sized
          nonces_ok;
    index_below = r.index_below;
    key_at = r.key_at;
    nonce_at = r.nonce_at;
    counter_within = r.counter_within;
  }

  module _ (law : IsLawful ssl) (malloc_keys malloc_nonces : Bool) (c : AesCfg Ctx) where
    -- When `rdrand_set_aes_keys` succeeds, with keys of `key_length` bytes and nonces of at least half
    -- as many, the state is ready: keys and nonces are allocated, as many as asked for and of the
    -- right length, the current ones are the first, and the counter is within its limit.
    pub set_aes_keys-IsReady :
        (amount key_length m : ℕ) (keys nonces : List (List ℕ))
        → Sized key_length keys
        → Sized m nonces
        → key_length / 2 ≤ m
        → (rdrand_set_aes_keys ssl malloc_keys malloc_nonces amount key_length keys nonces c).1
          ≡ true
        → IsReady
            (rdrand_set_aes_keys ssl malloc_keys malloc_nonces amount key_length keys nonces c).0
    unfolding rdrand_set_aes_keys
    set_aes_keys-IsReady amount key_length m keys nonces keys_ok nonces_ok half =
        if_elim {A = AesCfg Ctx × Bool} (λ p. p.1 ≡ true → IsReady p.0)
          (leb key_length rdrand_min_key_length || leb rdrand_max_key_length key_length) (λ _ e. cc)
          (λ _.
            if_elim {A = AesCfg Ctx × Bool} (λ p. p.1 ≡ true → IsReady p.0)
              (keys_allocate ssl malloc_keys malloc_nonces amount key_length fresh).1
              (λ ok e.
                let a =
                  keys_allocate-Allocated malloc_keys malloc_nonces amount key_length fresh ok in
                key_to_openssl-IsReady ssl law _ (
                  filled-IsReady _ key_length m keys nonces a.length_set keys_ok nonces_ok half
                    (Allocated-IsReady a refl (omega arith))))
              (λ _ e. cc))
      where
        fresh : AesCfg Ctx
        fresh = record c {
          en = ssl.ctx_new;
          context = live;
          index = 0;
          next_counter = max_counter;
          keys_type = given;
          key_current = none;
        }

    -- When `rdrand_set_aes_random_key` succeeds, the state is ready.
    pub set_aes_random_key-IsReady :
        (rdrand_set_aes_random_key ssl malloc_keys malloc_nonces c).1 ≡ true
        → IsReady (rdrand_set_aes_random_key ssl malloc_keys malloc_nonces c).0
    unfolding rdrand_set_aes_random_key
    set_aes_random_key-IsReady =
        if_elim {A = AesCfg Ctx × Bool} (λ p. p.1 ≡ true → IsReady p.0)
          (keys_allocate ssl malloc_keys malloc_nonces 1 default_key_len fresh).1
          (λ ok e. key_generate-IsReady ssl law _ (
            Allocated-IsReady (keys_allocate-Allocated malloc_keys malloc_nonces 1 16 fresh ok) refl
              (omega arith)))
          (λ _ e. cc)
      where
        fresh : AesCfg Ctx
        fresh = record c {
          en = ssl.ctx_new;
          context = live;
          keys_type = generated;
          index = 0;
          next_counter = 0;
          key_current = none;
        }
