-- ===== src/Aes/Change/Renews.antt =====
-- Keys are changed in time: what `counter` does over a sequence of requests.
use rd_rand.Prelude.{
  ℕ, ◌*◌, ◌/◌, ◌%◌, ◌^◌, some, get_or, set, ◌+◌, ◌-◌, ◌≤◌, ◌<◌, ◌≡◌, refl, sym, subst, ap, ◌∙◌,
  arith, true, List, [], ◌∷◌, ◌++◌, ◌||◌,
}
use rd_rand.Aes.State.{AesCfg, OpenSsl, KeysType, given, generated}
use rd_rand.Aes.Keys.{deref, overwrite, key_to_openssl, is_empty, nonce_generate, key_generate}
use rd_rand.Aes.Invariant.{IsLawful}
use rd_rand.Aes.Defined.{IsDefined, counter-IsDefined}
use rd_rand.Aes.Change.{
  of_bytes, scaled, rotate, keys_change_rotation, keys_change, keys_randomize, renew, counter,
}
use rd_rand.Aes.Change.Turns.{sum, used, requests, counter-Turns}

used-IsDefined : {Ctx : Type 0} (n : ℕ) (c : AesCfg Ctx) → IsDefined c → IsDefined (used n c)
used-IsDefined n c d = record {
  ready = record {
    allocated = d.ready.allocated;
    keys_amount = d.ready.keys_amount;
    nonces_amount = d.ready.nonces_amount;
    keys_sized = d.ready.keys_sized;
    nonces_sized = d.ready.nonces_sized;
    index_below = d.ready.index_below;
    key_at = d.ready.key_at;
    nonce_at = d.ready.nonce_at;
    counter_within = omega (arith, d.ready.counter_within);
  };
  sound = d.sound;
}

module _ {Ctx : Type 0} (ssl : OpenSsl Ctx) where
  -- A key that is set: the next one in the array and its nonce, each replaced by its own encryption under
  -- the old state of the cipher, are bound to OpenSSL, and the counter is full.
  pub record Rotated (c c' : AesCfg Ctx) : Type 0 where
    pub index_next : c'.index ≡ (c.index + 1) % c.amount
    pub key_next : c'.key_current ≡ some ((c.index + 1) % c.amount)
    pub nonce_next : c'.nonce_current ≡ some ((c.index + 1) % c.amount)
    pub key_encrypted :
        let i = (c.index + 1) % c.amount in
        let old = get_or c.keys i [] in
        c'.keys ≡ set c.keys i (overwrite old (ssl.encrypt_update c.en old).0 c.key_length)
    pub nonce_encrypted :
        let i = (c.index + 1) % c.amount in
        let en = (ssl.encrypt_update c.en (get_or c.keys i [])).1 in
        let old = get_or c.nonces i [] in
        c'.nonces ≡ set c.nonces i (overwrite old (ssl.encrypt_update en old).0 c.key_length)
    pub bound :
        let i = (c.index + 1) % c.amount in
        let (_, en, _) = ssl.encrypt_update c.en (get_or c.keys i []) in
        let (_, en', _) = ssl.encrypt_update en (get_or c.nonces i []) in
        c'.en ≡ (ssl.cipher_init en' (get_or c'.keys i []) (get_or c'.nonces i [])).0
    pub full : c'.next_counter ≡ 4096

  module _ (bytes : ℕ → ℕ → List ℕ)
      (draws : (k n : ℕ) → ssl.rand_bytes k n ≡ some (bytes k n)) where
    -- A random key: the next three calls of RAND_bytes give the key, the nonce and the counter, and the
    -- current key and nonce are bound to OpenSSL.
    pub record Redrawn (c c' : AesCfg Ctx) : Type 0 where
      pub key_drawn :
          c'.keys
          ≡ set c.keys 0
              (overwrite (get_or c.keys 0 []) (bytes c.rand_calls c.key_length) c.key_length)
      pub nonce_drawn :
          c'.nonces
          ≡ set c.nonces 0 (
              overwrite (get_or c.nonces 0 []) (bytes (c.rand_calls + 1) c.key_length) c.key_length)
      pub counter_drawn :
          c'.next_counter ≡ of_bytes (bytes (c.rand_calls + 1 + 1) 4) % 2 ^ 32 * 4096 / (2 ^ 32 - 1)
      pub calls : c'.rand_calls ≡ c.rand_calls + 3
      pub bound :
          c'.en
          ≡ (ssl.cipher_init c.en (deref c'.keys c.key_current) (deref c'.nonces c.nonce_current)).0

    abbrev pub NewKey : KeysType → AesCfg Ctx → AesCfg Ctx → Type 0
    NewKey given c c' = Rotated c c'
    NewKey generated c c' = Redrawn c c'

    -- AES_CFG after a key and a nonce were drawn.
    abbrev keyed : AesCfg Ctx → AesCfg Ctx
    keyed c =
        let keys =
          set c.keys 0
            (overwrite (get_or c.keys 0 []) (bytes c.rand_calls c.key_length) c.key_length) in
        let nonces =
          set c.nonces 0 (
            overwrite (get_or c.nonces 0 []) (bytes (c.rand_calls + 1) c.key_length)
              c.key_length) in
        record c {
          keys = keys;
          nonces = nonces;
          rand_calls = c.rand_calls + 1 + 1;
          crashed = (c.crashed || is_empty c.keys) || is_empty c.nonces;
          en = (ssl.cipher_init c.en (deref keys c.key_current) (deref nonces c.nonce_current)).0;
        }

    key_generate-keyed : (c : AesCfg Ctx) → key_generate ssl c ≡ (keyed c, true)
    unfolding key_generate nonce_generate key_to_openssl is_empty
    key_generate-keyed c =
        rw (draws c.rand_calls c.key_length) (rw (draws (c.rand_calls + 1) c.key_length) refl)

    keys_randomize-drawn :
        (c : AesCfg Ctx)
        → keys_randomize ssl c ≡ (
          record c {
            next_counter = scaled (of_bytes (bytes c.rand_calls 4) % 2 ^ 32);
            rand_calls = c.rand_calls + 1;
          },
          true,
        )
    unfolding keys_randomize
    keys_randomize-drawn c = rw (draws c.rand_calls 4) refl

    renew-NewKey :
        (k : KeysType) (c : AesCfg Ctx) → NewKey k c (renew ssl k c).0 × ((renew ssl k c).1 ≡ true)
    unfolding renew keys_change keys_change_rotation rotate key_to_openssl key_generate
        nonce_generate keys_randomize scaled
    renew-NewKey given c = (
      record {
        index_next = refl;
        key_next = refl;
        nonce_next = refl;
        key_encrypted = refl;
        nonce_encrypted = refl;
        bound = refl;
        full = refl;
      },
      refl,
    )
    renew-NewKey generated c =
        let c' = keyed c in
        subst (λ p. Redrawn c (keys_randomize ssl p.0).0 × (p.1 ≡ true))
          (sym (key_generate-keyed c))
          (subst (λ p. Redrawn c p.0 × (true ≡ true)) (sym (keys_randomize-drawn c'))
            (
              record {
                key_drawn = refl;
                nonce_drawn = refl;
                counter_drawn = refl;
                calls = omega arith;
                bound = refl;
              },
              refl,
            ))

    -- The request at which the key is changed, with those before and after it.
    pub record Renewed (nums : List ℕ) (c : AesCfg Ctx) : Type 0 where
      pub before : List ℕ
      pub num : ℕ
      pub after : List ℕ
      pub divides : nums ≡ before ++ num ∷ after
      pub within : sum before ≤ c.next_counter
      pub counted : requests ssl before c ≡ used (sum before) c
      pub new_key :
          NewKey c.keys_type (used (sum before) c) (counter ssl num (used (sum before) c)).0
      pub reports : (counter ssl num (used (sum before) c)).1 ≡ true
      pub defined : IsDefined (counter ssl num (used (sum before) c)).0

    -- When keys are set, RAND_bytes succeeds, and requests ask for more bytes together than the counter
    -- has left, one of them changes the key; those before it only count down, each by its number of
    -- bytes. A key that was set is followed by the next one and its nonce, each encrypted in place, and
    -- the counter is full again; a random key is replaced, with its nonce and the counter, by what the
    -- next three calls of RAND_bytes give. OpenSSL is given the new key and nonce, `counter` returns 1,
    -- and nothing undefined is done.
    pub counter_renews :
        IsLawful ssl
        → (nums : List ℕ) (c : AesCfg Ctx) → IsDefined c
        → c.next_counter < sum nums
        → Renewed nums c
    counter_renews law nums c d more =
        let t = counter-Turns ssl nums c more in
        let c' = used (sum t.before) c in
        let new = renew-NewKey c.keys_type c' in
        record {
          before = t.before;
          num = t.num;
          after = t.after;
          divides = t.divides;
          within = t.within;
          counted = t.counted;
          new_key = subst (λ r. NewKey c.keys_type c' r.0) (sym t.renews) new.0;
          reports = ap (λ r. r.1) t.renews ∙ new.1;
          defined = counter-IsDefined ssl law t.num c' (used-IsDefined (sum t.before) c d);
        }
