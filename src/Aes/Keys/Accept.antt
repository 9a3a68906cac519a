-- ===== src/Aes/Keys/Accept.antt =====
-- Which keys `rdrand_set_aes_keys` accepts, and the state that it then leaves.
use rd_rand.Prelude.{
  ℕ, zero, suc, ◌^◌, ◌<◌, ◌≡◌, ◌⊎◌, ◌↔◌, inl, inr, sym, ◌∙◌, arith, List, true, Bool, not, ◌&&◌,
  ◌||◌, ◌==◌, leb,
}
use native.Mathlib.Nat.{pow-suc, one-le-pow}
use rd_rand.Aes.State.{AesCfg, OpenSsl}
use rd_rand.Aes.Power.{is_power_of_two}
use rd_rand.Aes.Power.Law.{is_power_of_two_iff}
use rd_rand.Aes.Keys.{keys_allocate, rdrand_set_aes_keys}

pow_between : (k x : ℕ) → x ≡ 2 ^ k → 4 < x → x < 32 → (x ≡ 8) ⊎ (x ≡ 16)
pow_between zero x e lo hi = absurd (omega arith)
pow_between (suc zero) x e lo hi = absurd (omega arith)
pow_between (suc (suc zero)) x e lo hi = absurd (omega arith)
pow_between (suc (suc (suc zero))) x e lo hi = inl e
pow_between (suc (suc (suc (suc zero)))) x e lo hi = inr e
pow_between (suc (suc (suc (suc (suc k))))) x e lo hi = absurd (
    omega (
      arith,
      one-le-pow k 2 (omega arith),
      pow-suc 2 k,
      pow-suc 2 (suc k),
      pow-suc 2 (suc (suc k)),
      pow-suc 2 (suc (suc (suc k))),
      pow-suc 2 (suc (suc (suc (suc k)))),
    ))

both_true : (a b : Bool) → (a && b) ≡ true → (a ≡ true) × (b ≡ true)
both_true a b e = ground arith

module _ {Ctx : Type 0} (ssl : OpenSsl Ctx) (malloc_keys malloc_nonces : Bool)
    (amount key_length : ℕ) (keys nonces : List (List ℕ)) (c : AesCfg Ctx) where
  accepted :
      (rdrand_set_aes_keys ssl malloc_keys malloc_nonces amount key_length keys nonces c).1 ≡ (
        not (leb key_length 4 || leb 32 key_length)
        && (is_power_of_two key_length && (not (amount == 0) && (malloc_keys && malloc_nonces))))
  unfolding rdrand_set_aes_keys keys_allocate
  accepted = ground arith

  -- `rdrand_set_aes_keys` succeeds exactly if the keys have 8 or 16 bytes, there is one at least, and
  -- both arrays can be allocated.
  pub set_aes_keys_accepts :
      ((rdrand_set_aes_keys ssl malloc_keys malloc_nonces amount key_length keys nonces c).1 ≡ true)
      ↔ (((key_length ≡ 8) ⊎ (key_length ≡ 16))
          × (0 < amount)
          × (malloc_keys ≡ true)
          × (malloc_nonces ≡ true))
  set_aes_keys_accepts = (only, enough)
    where
      only :
          (rdrand_set_aes_keys ssl malloc_keys malloc_nonces amount key_length keys nonces c).1
            ≡ true
          → ((key_length ≡ 8) ⊎ (key_length ≡ 16))
            × (0 < amount)
            × (malloc_keys ≡ true)
            × (malloc_nonces ≡ true)
      only e =
          let (length_ok, others) =
            both_true (not (leb key_length 4 || leb 32 key_length)) _ (sym accepted ∙ e) in
          let (power, rest) =
            both_true (is_power_of_two key_length)
              (not (amount == 0) && (malloc_keys && malloc_nonces)) others in
          let (k, p) = (is_power_of_two_iff key_length).0 power in
          (
            pow_between k key_length p (ground (arith, length_ok)) (ground (arith, length_ok)),
            ground (arith, rest),
            ground (arith, rest),
            ground (arith, rest),
          )

      enough :
          ((key_length ≡ 8) ⊎ (key_length ≡ 16))
            × (0 < amount)
            × (malloc_keys ≡ true)
            × (malloc_nonces ≡ true)
          → (rdrand_set_aes_keys ssl malloc_keys malloc_nonces amount key_length keys nonces c).1
            ≡ true
      enough (inl e8, some_key, k_ok, n_ok) =
          accepted ∙ rw (e8, k_ok, n_ok) (unfold is_power_of_two in ground arith)
      enough (inr e16, some_key, k_ok, n_ok) =
          accepted ∙ rw (e16, k_ok, n_ok) (unfold is_power_of_two in ground arith)
