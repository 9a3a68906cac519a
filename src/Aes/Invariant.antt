-- ===== src/Aes/Invariant.antt =====
-- The state between calls, once keys are set, and that every operation which changes keys keeps it.
use rd_rand.Prelude.{
  ℕ, ◌^◌, ◌+◌, ◌-◌, ◌%◌, ◌≤◌, ◌<◌, ◌≡◌, refl, ◌∙◌, arith, Option, Option-cases, none, some, List,
  [], inl, inr, length, get_or, set, length-set, true, Bool, if_elim, ◌||◌, ◌==◌, ltb,
}
use rd_rand.Aes.State.{AesCfg, OpenSsl, KeysType, generated, given, max_counter}
use rd_rand.Aes.Keys.{deref, overwrite, key_to_openssl, key_generate, nonce_generate}
use rd_rand.Aes.Change.{
  of_bytes, scaled, write_at, rotate, keys_change, keys_randomize, renew, counter,
}
use rd_rand.Aes.Buffers.{Sized, length-get_or, Sized-write_at}

-- What the program relies on in OpenSSL: the counter mode keeps lengths, and RAND_bytes gives as many
-- bytes as it is asked for.
pub record IsLawful {Ctx : Type 0} (ssl : OpenSsl Ctx) : Type 0 where
  pub enc_length : (en : Ctx) (b : List ℕ) → length (ssl.encrypt_update en b).0 ≡ length b
  pub rand_length : (k n : ℕ) (b : List ℕ) → ssl.rand_bytes k n ≡ some b → length b ≡ n

pub scaled-le : (x : ℕ) → scaled (x % 2 ^ 32) ≤ max_counter
unfolding scaled
scaled-le x = omega arith

-- Keys are allocated, as many as `amount` says and all of the length `key_length`; the current key
-- and nonce are those at `index`; the counter is within MAX_COUNTER.
pub record IsReady {Ctx : Type 0} (c : AesCfg Ctx) : Type 0 where
  pub allocated : c.allocated ≡ true
  pub keys_amount : length c.keys ≡ c.amount
  pub nonces_amount : length c.nonces ≡ c.amount
  pub keys_sized : Sized c.key_length c.keys
  pub nonces_sized : Sized c.key_length c.nonces
  pub index_below : c.index < c.amount
  pub key_at : c.key_current ≡ some c.index
  pub nonce_at : c.nonce_current ≡ some c.index
  pub counter_within : c.next_counter ≤ max_counter

module _ {Ctx : Type 0} (ssl : OpenSsl Ctx) (law : IsLawful ssl) where
  pub key_to_openssl-IsReady : (c : AesCfg Ctx) → IsReady c → IsReady (key_to_openssl ssl c).0
  unfolding key_to_openssl
  key_to_openssl-IsReady c r = record {
    allocated = r.allocated;
    keys_amount = r.keys_amount;
    nonces_amount = r.nonces_amount;
    keys_sized = r.keys_sized;
    nonces_sized = r.nonces_sized;
    index_below = r.index_below;
    key_at = r.key_at;
    nonce_at = r.nonce_at;
    counter_within = r.counter_within;
  }

  length-write_at :
      (bufs : List (List ℕ)) (p : Option ℕ) (b : List ℕ) (n : ℕ)
      → length (write_at bufs p b n) ≡ length bufs
  length-write_at bufs none b n = refl
  length-write_at bufs (some i) b n = length-set bufs i (overwrite (get_or bufs i []) b n)

  enc-Sized :
      (c : AesCfg Ctx) (en : Ctx) (bufs : List (List ℕ)) (i : ℕ)
      → Sized c.key_length bufs
      → i < length bufs
      → c.key_length ≤ length (ssl.encrypt_update en (deref bufs (some i))).0
  enc-Sized c en bufs i s h =
      omega (arith, law.enc_length en (get_or bufs i []), length-get_or c.key_length bufs i s h)

  rotate-IsReady : (c : AesCfg Ctx) → IsReady c → IsReady (rotate ssl c)
  unfolding rotate
  rotate-IsReady c r =
      rw (rotate, r.key_at, r.nonce_at)
        (record {
          allocated = r.allocated;
          keys_amount = length-write_at c.keys (some c.index) _ c.key_length ∙ r.keys_amount;
          nonces_amount = length-write_at c.nonces (some c.index) _ c.key_length ∙ r.nonces_amount;
          keys_sized =
              Sized-write_at c.key_length c.keys c.index _ r.keys_sized (omega arith)
                (enc-Sized c c.en c.keys c.index r.keys_sized (omega arith));
          nonces_sized =
              Sized-write_at c.key_length c.nonces c.index _ r.nonces_sized (omega arith)
                (enc-Sized c _ c.nonces c.index r.nonces_sized (omega arith));
          index_below = r.index_below;
          key_at = refl;
          nonce_at = refl;
          counter_within = r.counter_within;
        })

  next_index-IsReady :
      (c : AesCfg Ctx) (i : ℕ) (flag : Bool)
      → i < c.amount
      → IsReady c
      → IsReady
          (record c { index = i; key_current = some i; nonce_current = some i; crashed = flag })
  next_index-IsReady c i flag below r = record {
    allocated = r.allocated;
    keys_amount = r.keys_amount;
    nonces_amount = r.nonces_amount;
    keys_sized = r.keys_sized;
    nonces_sized = r.nonces_sized;
    index_below = below;
    key_at = refl;
    nonce_at = refl;
    counter_within = r.counter_within;
  }

  counted-IsReady :
      (c : AesCfg Ctx) (n : ℕ)
      → n ≤ max_counter
      → IsReady c
      → IsReady (record c { next_counter = n })
  counted-IsReady c n within r = record {
    allocated = r.allocated;
    keys_amount = r.keys_amount;
    nonces_amount = r.nonces_amount;
    keys_sized = r.keys_sized;
    nonces_sized = r.nonces_sized;
    index_below = r.index_below;
    key_at = r.key_at;
    nonce_at = r.nonce_at;
    counter_within = within;
  }

  called-IsReady : (c : AesCfg Ctx) (k : ℕ) → IsReady c → IsReady (record c { rand_calls = k })
  called-IsReady c k r = record {
    allocated = r.allocated;
    keys_amount = r.keys_amount;
    nonces_amount = r.nonces_amount;
    keys_sized = r.keys_sized;
    nonces_sized = r.nonces_sized;
    index_below = r.index_below;
    key_at = r.key_at;
    nonce_at = r.nonce_at;
    counter_within = r.counter_within;
  }

  pub enciphered-IsReady : (c : AesCfg Ctx) (en : Ctx) → IsReady c → IsReady (record c { en = en })
  enciphered-IsReady c en r = record {
    allocated = r.allocated;
    keys_amount = r.keys_amount;
    nonces_amount = r.nonces_amount;
    keys_sized = r.keys_sized;
    nonces_sized = r.nonces_sized;
    index_below = r.index_below;
    key_at = r.key_at;
    nonce_at = r.nonce_at;
    counter_within = r.counter_within;
  }

  keys_change-IsReady : (c : AesCfg Ctx) → IsReady c → IsReady (keys_change ssl c).0
  unfolding keys_change
  keys_change-IsReady c r =
      let i = (c.index + 1) % c.amount in
      key_to_openssl-IsReady _
        (rotate-IsReady _ (next_index-IsReady c i _ (grind (arith, r.index_below)) r))

  keys_randomize-IsReady : (c : AesCfg Ctx) → IsReady c → IsReady (keys_randomize ssl c).0
  unfolding keys_randomize
  keys_randomize-IsReady c r = elim (Option-cases (ssl.rand_bytes c.rand_calls 4)) [
    | inl none_left ↦ rw (keys_randomize, none_left) (called-IsReady c (c.rand_calls + 1) r)
    | inr (b, got) ↦
        rw (keys_randomize, got)
          (counted-IsReady _ _ (scaled-le (of_bytes b)) (called-IsReady c (c.rand_calls + 1) r))
  ]

  -- New strings at position 0 of both arrays.
  first_key-IsReady :
      (c : AesCfg Ctx) (b : List ℕ) (flag : Bool)
      → length b ≡ c.key_length
      → IsReady c
      → IsReady (record c {
        crashed = flag;
        keys = set c.keys 0 (overwrite (get_or c.keys 0 []) b c.key_length);
      })
  first_key-IsReady c b flag sized r = record {
    allocated = r.allocated;
    keys_amount = length-set c.keys 0 _ ∙ r.keys_amount;
    nonces_amount = r.nonces_amount;
    keys_sized = Sized-write_at c.key_length c.keys 0 b r.keys_sized (omega arith) (omega arith);
    nonces_sized = r.nonces_sized;
    index_below = r.index_below;
    key_at = r.key_at;
    nonce_at = r.nonce_at;
    counter_within = r.counter_within;
  }

  first_nonce-IsReady :
      (c : AesCfg Ctx) (b : List ℕ) (flag : Bool)
      → length b ≡ c.key_length
      → IsReady c
      → IsReady (record c {
        crashed = flag;
        nonces = set c.nonces 0 (overwrite (get_or c.nonces 0 []) b c.key_length);
      })
  first_nonce-IsReady c b flag sized r = record {
    allocated = r.allocated;
    keys_amount = r.keys_amount;
    nonces_amount = length-set c.nonces 0 _ ∙ r.nonces_amount;
    keys_sized = r.keys_sized;
    nonces_sized =
        Sized-write_at c.key_length c.nonces 0 b r.nonces_sized (omega arith) (omega arith);
    index_below = r.index_below;
    key_at = r.key_at;
    nonce_at = r.nonce_at;
    counter_within = r.counter_within;
  }

  nonce_generate-IsReady : (c : AesCfg Ctx) → IsReady c → IsReady (nonce_generate ssl c).0
  unfolding nonce_generate
  nonce_generate-IsReady c r = elim (Option-cases (ssl.rand_bytes c.rand_calls c.key_length)) [
    | inl e ↦ rw (nonce_generate, e) (called-IsReady c (c.rand_calls + 1) r)
    | inr (b, e) ↦
        rw (nonce_generate, e)
          (key_to_openssl-IsReady _ (
            first_nonce-IsReady _ b _ (law.rand_length _ _ b e)
              (called-IsReady c (c.rand_calls + 1) r)))
  ]

  pub key_generate-IsReady : (c : AesCfg Ctx) → IsReady c → IsReady (key_generate ssl c).0
  key_generate-IsReady c r = elim (Option-cases (ssl.rand_bytes c.rand_calls c.key_length)) [
    | inl e ↦ unfold key_generate in rw (key_generate, e) (called-IsReady c (c.rand_calls + 1) r)
    | inr (b, e) ↦
        unfold key_generate in
        rw (key_generate, e)
          (nonce_generate-IsReady _ (
            first_key-IsReady _ b _ (law.rand_length _ _ b e)
              (called-IsReady c (c.rand_calls + 1) r)))
  ]

  renew-IsReady : (k : KeysType) (c : AesCfg Ctx) → IsReady c → IsReady (renew ssl k c).0
  renew-IsReady generated c r = unfold renew in keys_randomize-IsReady _ (key_generate-IsReady c r)
  renew-IsReady given c r =
      unfold renew in counted-IsReady _ max_counter (omega arith) (keys_change-IsReady c r)

  -- `counter` keeps the state ready, whether it changes the key, fails to, or only counts.
  pub counter-IsReady : (num : ℕ) (c : AesCfg Ctx) → IsReady c → IsReady (counter ssl num c).0
  unfolding counter
  counter-IsReady num c r =
      if_elim {A = AesCfg Ctx × Bool} (λ p. IsReady p.0)
        (c.next_counter == 0 || ltb c.next_counter num) (λ _. renew-IsReady c.keys_type c r)
        (λ _. counted-IsReady c (c.next_counter - num) (omega (arith, r.counter_within)) r)
