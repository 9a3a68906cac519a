-- ===== src/Check/Keys/Counter.antt =====
-- The key that AES_CFG holds through calls of `counter`, when RAND_bytes succeeds.
pub mod Rounds
pub mod Random
use rd_rand.Prelude.{
  ℕ, zero, suc, ◌+◌, ◌-◌, ◌*◌, ◌≤◌, ◌<◌, ◌≡◌, refl, sym, ap, ◌∙◌, subst, arith, Bool, true, false,
  Bool-cases, Option, Option-cases, none, some, inl, inr, List, [], ◌∷◌, ◌++◌, length, take, drop,
  take_all, drop_all, append-nil, get_or, set, ◌==◌, ◌||◌, ltb, leb, if◌then◌else◌,
}
use rd_rand.Aes.State.{AesCfg, OpenSsl, KeysType, generated, default_key_len, max_counter}
use rd_rand.Aes.Keys.{
  keys_allocate, key_generate, nonce_generate, rdrand_set_aes_random_key, key_to_openssl, overwrite,
  zeros,
}
use rd_rand.Aes.Power.{is_power_of_two}
use rd_rand.Aes.Change.{of_bytes, counter, renew, keys_randomize}
use rd_rand.Aes.Change.Turns.{used}
use rd_rand.Aes.Invariant.{IsLawful, scaled-le}
use rd_rand.Check.{equal_bytes, same_memory}
use rd_rand.Check.Keys.{first_key, counter_rounds, aes_keys_counter}

pub equal_bytes_refl : (bs : List ℕ) → equal_bytes bs bs ≡ true
unfolding equal_bytes
equal_bytes_refl [] = refl
equal_bytes_refl (b ∷ bs) =
    let same : (b == b) ≡ true = ground arith in rw (same, equal_bytes_refl bs)

overwrite_whole :
    (old new : List ℕ) (n : ℕ) → length old ≡ n → length new ≡ n → overwrite old new n ≡ new
overwrite_whole old new n o w =
    rw (take_all n new (omega arith), drop_all n old (omega arith)) (append-nil new)

module _ {Ctx : Type 0} (ssl : OpenSsl Ctx) (law : IsLawful ssl) (key : ℕ → List ℕ)
    (draws : (n : ℕ) → ssl.rand_bytes n 16 ≡ some (key n))
    (distinct : (i j : ℕ) → i < j → j ≤ i + 3 → same_memory (key i) (key j) 16 ≡ false) where
  -- The key is that of the call `j` of RAND_bytes, and there were `age` calls since, at most.
  pub record Holds (age j : ℕ) (c : AesCfg Ctx) : Type 0 where
    pub random : c.keys_type ≡ generated
    pub sized : c.key_length ≡ 16
    pub key_held : c.keys ≡ key j ∷ []
    pub drawn : j < c.rand_calls
    pub recent : c.rand_calls ≤ j + age
    pub within : c.next_counter ≤ max_counter

  key_sized : (n : ℕ) → length (key n) ≡ 16
  key_sized n = law.rand_length n 16 (key n) (draws n)

  -- What neither the nonce nor the counter changes.
  kept :
      (age j : ℕ) (c : AesCfg Ctx) (nonces : List (List ℕ)) (en : Ctx) (n calls : ℕ) (flag : Bool)
      → n ≤ max_counter
      → calls ≡ c.rand_calls + 1
      → Holds age j c
      → Holds (suc age) j (record c {
        nonces = nonces;
        en = en;
        next_counter = n;
        rand_calls = calls;
        crashed = flag;
      })
  kept age j c nonces en n calls flag small more h = record {
    random = h.random;
    sized = h.sized;
    key_held = h.key_held;
    drawn = omega (arith, h.drawn);
    recent = omega (arith, h.recent);
    within = small;
  }

  counted :
      (age j : ℕ) (c : AesCfg Ctx) (n : ℕ)
      → n ≤ max_counter
      → Holds age j c
      → Holds age j (record c { next_counter = n })
  counted age j c n small h = record {
    random = h.random;
    sized = h.sized;
    key_held = h.key_held;
    drawn = h.drawn;
    recent = h.recent;
    within = small;
  }

  nonce_generate-Holds :
      (age j : ℕ) (c : AesCfg Ctx) → Holds age j c → Holds (suc age) j (nonce_generate ssl c).0
  unfolding nonce_generate key_to_openssl
  nonce_generate-Holds age j c h = elim (Option-cases (ssl.rand_bytes c.rand_calls c.key_length)) [
    | inl e ↦
        rw (nonce_generate, e)
          (kept age j c c.nonces c.en c.next_counter (c.rand_calls + 1) _ h.within refl h)
    | inr (b, e) ↦
        rw (nonce_generate, e)
          (kept age j c _ _ c.next_counter (c.rand_calls + 1) _ h.within refl h)
  ]

  keys_randomize-Holds :
      (age j : ℕ) (c : AesCfg Ctx) → Holds age j c → Holds (suc age) j (keys_randomize ssl c).0
  unfolding keys_randomize
  keys_randomize-Holds age j c h = elim (Option-cases (ssl.rand_bytes c.rand_calls 4)) [
    | inl e ↦
        rw (keys_randomize, e)
          (kept age j c c.nonces c.en c.next_counter (c.rand_calls + 1) _ h.within refl h)
    | inr (b, e) ↦
        rw (keys_randomize, e)
          (kept age j c c.nonces c.en _ (c.rand_calls + 1) _ (scaled-le (of_bytes b)) (omega arith)
            h)
  ]

  -- A new key in place of the first.
  new_key-Holds :
      (old : List ℕ) (c : AesCfg Ctx) (flag : Bool)
      → length old ≡ 16
      → c.keys ≡ old ∷ []
      → c.keys_type ≡ generated
      → c.key_length ≡ 16
      → c.next_counter ≤ max_counter
      → Holds 1 c.rand_calls (record c {
        rand_calls = c.rand_calls + 1;
        crashed = flag;
        keys = set c.keys 0 (overwrite (get_or c.keys 0 []) (key c.rand_calls) c.key_length);
      })
  new_key-Holds old c flag old_sized held random sized small = record {
    random = random;
    sized = sized;
    key_held =
        ap (λ ks. set ks 0 (overwrite (get_or ks 0 []) (key c.rand_calls) c.key_length)) held
        ∙ ap (λ k. k ∷ [])
            (overwrite_whole old (key c.rand_calls) c.key_length (old_sized ∙ sym sized)
              (key_sized c.rand_calls ∙ sym sized));
    drawn = omega arith;
    recent = omega arith;
    within = small;
  }

  pub key_generate-Holds :
      (old : List ℕ) (c : AesCfg Ctx)
      → length old ≡ 16
      → c.keys ≡ old ∷ []
      → c.keys_type ≡ generated
      → c.key_length ≡ 16
      → c.next_counter ≤ max_counter
      → Holds 2 c.rand_calls (key_generate ssl c).0
  unfolding key_generate
  key_generate-Holds old c old_sized held random sized small =
      let e : ssl.rand_bytes c.rand_calls c.key_length ≡ some (key c.rand_calls) =
        ap (ssl.rand_bytes c.rand_calls) sized ∙ draws c.rand_calls in
      rw (key_generate, e)
        (nonce_generate-Holds 1 c.rand_calls _
          (new_key-Holds old c _ old_sized held random sized small))

  -- A call that changes the key.
  pub counter-new_key :
      (j : ℕ) (c : AesCfg Ctx)
      → Holds 3 j c
      → c.next_counter ≡ 0
      → Holds 3 c.rand_calls (counter ssl 1 c).0
  unfolding counter renew
  counter-new_key j c h zero_left =
      let now : (c.next_counter == 0 || ltb c.next_counter 1) ≡ true = ground arith in
      rw now (
        subst (λ k. Holds 3 c.rand_calls (renew ssl k c).0) (sym h.random)
          (keys_randomize-Holds 2 c.rand_calls (key_generate ssl c).0
            (key_generate-Holds (key j) c (key_sized j) h.key_held h.random h.sized h.within)))

  -- A call that does not.
  pub counter-same_key :
      (j n : ℕ) (c : AesCfg Ctx)
      → Holds 3 j c
      → c.next_counter ≡ suc n
      → Holds 3 j (counter ssl 1 c).0 × ((counter ssl 1 c).0.next_counter ≡ n)
  unfolding counter
  counter-same_key j n c h left =
      let later : (c.next_counter == 0 || ltb c.next_counter 1) ≡ false = ground arith in
      rw later (counted 3 j c (c.next_counter - 1) (omega (arith, h.within)) h, omega arith)
