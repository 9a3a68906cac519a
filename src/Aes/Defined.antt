-- ===== src/Aes/Defined.antt =====
-- The operations that change keys do not divide by 0 or write through NULL once keys are set.
use rd_rand.Prelude.{
  ℕ, ◌+◌, ◌%◌, ◌<◌, ◌≡◌, refl, ◌∙◌, arith, Bool, false, ◌||◌, List, [], ◌∷◌, length, Option-cases,
  inl, inr, if_elim, ltb, ◌==◌,
}
use rd_rand.Aes.State.{AesCfg, OpenSsl, KeysType, generated, given}
use rd_rand.Aes.Keys.{is_empty, key_to_openssl, nonce_generate, key_generate}
use rd_rand.Aes.Change.{
  misses, rotate, keys_change_rotation, keys_change, keys_randomize, renew, counter,
}
use rd_rand.Aes.Invariant.{IsLawful, IsReady, counter-IsReady}

-- Keys are set, and nothing undefined has been done.
pub record IsDefined {Ctx : Type 0} (c : AesCfg Ctx) : Type 0 where
  pub ready : IsReady c
  pub sound : c.crashed ≡ false

some_string : (bufs : List (List ℕ)) → 0 < length bufs → is_empty bufs ≡ false
unfolding is_empty
some_string [] more = absurd (omega arith)
some_string (b ∷ bufs) more = refl

or_false : (a b : Bool) → b ≡ false → (a || b) ≡ a
or_false a b e = ground (arith, e)

module _ {Ctx : Type 0} (ssl : OpenSsl Ctx) where
  nonce_generate-crashed :
      (c : AesCfg Ctx) → 0 < length c.nonces → (nonce_generate ssl c).0.crashed ≡ c.crashed
  unfolding nonce_generate key_to_openssl
  nonce_generate-crashed c more = elim (Option-cases (ssl.rand_bytes c.rand_calls c.key_length)) [
    | inl e ↦ rw (nonce_generate, e) refl
    | inr (b, e) ↦
        rw (nonce_generate, e) (or_false c.crashed (is_empty c.nonces) (some_string c.nonces more))
  ]

  key_generate-crashed : (c : AesCfg Ctx) → IsReady c → (key_generate ssl c).0.crashed ≡ c.crashed
  key_generate-crashed c r =
      let keys =
        or_false c.crashed (is_empty c.keys)
          (some_string c.keys (omega (arith, r.keys_amount, r.index_below))) in
      elim (Option-cases (ssl.rand_bytes c.rand_calls c.key_length)) [
        | inl e ↦ unfold key_generate in rw (key_generate, e) refl
        | inr (b, e) ↦
            unfold key_generate in
            rw (key_generate, e)
              (nonce_generate-crashed _ (omega (arith, r.nonces_amount, r.index_below)) ∙ keys)
      ]

  keys_randomize-crashed : (c : AesCfg Ctx) → (keys_randomize ssl c).0.crashed ≡ c.crashed
  unfolding keys_randomize
  keys_randomize-crashed c = elim (Option-cases (ssl.rand_bytes c.rand_calls 4)) [
    | inl e ↦ rw (keys_randomize, e) refl
    | inr (b, e) ↦ rw (keys_randomize, e) refl
  ]

  hits : (c : AesCfg Ctx) → IsReady c → misses c ((c.index + 1) % c.amount) ≡ false
  unfolding misses
  hits c r =
      let below : (c.index + 1) % c.amount < c.amount = grind (arith, r.index_below) in
      ground (arith, below, r.keys_amount, r.nonces_amount)

  keys_change-crashed : (c : AesCfg Ctx) → IsReady c → (keys_change ssl c).0.crashed ≡ c.crashed
  unfolding keys_change keys_change_rotation rotate key_to_openssl
  keys_change-crashed c r = or_false c.crashed (misses c ((c.index + 1) % c.amount)) (hits c r)

  renew-crashed :
      (k : KeysType) (c : AesCfg Ctx) → IsReady c → (renew ssl k c).0.crashed ≡ c.crashed
  renew-crashed generated c r =
      unfold renew in keys_randomize-crashed (key_generate ssl c).0 ∙ key_generate-crashed c r
  renew-crashed given c r = unfold renew in keys_change-crashed c r

  counter-crashed :
      (num : ℕ) (c : AesCfg Ctx) → IsReady c → (counter ssl num c).0.crashed ≡ c.crashed
  unfolding counter
  counter-crashed num c r =
      if_elim {A = AesCfg Ctx × Bool} (λ p. p.0.crashed ≡ c.crashed)
        (c.next_counter == 0 || ltb c.next_counter num) (λ _. renew-crashed c.keys_type c r)
        (λ _. refl)

  nonce_generate-context : (c : AesCfg Ctx) → (nonce_generate ssl c).0.context ≡ c.context
  unfolding nonce_generate key_to_openssl
  nonce_generate-context c = elim (Option-cases (ssl.rand_bytes c.rand_calls c.key_length)) [
    | inl e ↦ rw (nonce_generate, e) refl
    | inr (b, e) ↦ rw (nonce_generate, e) refl
  ]

  key_generate-context : (c : AesCfg Ctx) → (key_generate ssl c).0.context ≡ c.context
  unfolding key_generate
  key_generate-context c = elim (Option-cases (ssl.rand_bytes c.rand_calls c.key_length)) [
    | inl e ↦ rw (key_generate, e) refl
    | inr (b, e) ↦ rw (key_generate, e) (nonce_generate-context _)
  ]

  keys_randomize-context : (c : AesCfg Ctx) → (keys_randomize ssl c).0.context ≡ c.context
  unfolding keys_randomize
  keys_randomize-context c = elim (Option-cases (ssl.rand_bytes c.rand_calls 4)) [
    | inl e ↦ rw (keys_randomize, e) refl
    | inr (b, e) ↦ rw (keys_randomize, e) refl
  ]

  renew-context : (k : KeysType) (c : AesCfg Ctx) → (renew ssl k c).0.context ≡ c.context
  unfolding renew keys_change keys_change_rotation rotate key_to_openssl
  renew-context generated c = keys_randomize-context (key_generate ssl c).0 ∙ key_generate-context c
  renew-context given c = refl

  -- A change of key leaves the context allocated, or not.
  pub counter-context : (num : ℕ) (c : AesCfg Ctx) → (counter ssl num c).0.context ≡ c.context
  unfolding counter
  counter-context num c =
      if_elim {A = AesCfg Ctx × Bool} (λ p. p.0.context ≡ c.context)
        (c.next_counter == 0 || ltb c.next_counter num) (λ _. renew-context c.keys_type c)
        (λ _. refl)

  pub counter-IsDefined :
      IsLawful ssl → (num : ℕ) (c : AesCfg Ctx) → IsDefined c → IsDefined (counter ssl num c).0
  counter-IsDefined law num c d = record {
    ready = counter-IsReady ssl law num c d.ready;
    sound = counter-crashed num c d.ready ∙ d.sound;
  }
