-- ===== src/Aes/Keys/Wipe.antt =====
-- Destroying the keys: `keys_free` and `rdrand_clean_aes`.
use rd_rand.Prelude.{
  ℕ, ◌≤◌, ◌≡◌, refl, ap, ◌∙◌, arith, List, [], ◌∷◌, ◌++◌, append-nil, length, replicate,
  length-replicate, drop, take, drop_all, take_all, false, true, Bool, ◌==◌,
}
use rd_rand.Aes.State.{AesCfg, OpenSsl, live, freed_context}
use rd_rand.Aes.Keys.{zeros, keys_mem_unlock, wipe, keys_free, free_context, rdrand_clean_aes}
use rd_rand.Aes.Buffers.{Sized}
use rd_rand.Aes.Invariant.{IsReady}

wiped : (n : ℕ) (b : List ℕ) → length b ≤ n → zeros n ++ drop n b ≡ zeros n
wiped n b h = rw (drop_all n b h) (append-nil (zeros n))

wipe-zeros :
    (munlock : Bool) (n : ℕ) (bufs : List (List ℕ))
    → Sized n bufs
    → wipe munlock n bufs ≡ replicate (length bufs) (zeros n)
unfolding wipe keys_mem_unlock
wipe-zeros munlock n [] s = refl
wipe-zeros munlock n (b ∷ bufs) s =
    rw (wiped n b (omega arith), wiped n (zeros n) (omega (arith, length-replicate {A = ℕ} n 0)))
      (ap (λ r. zeros n ∷ r) (wipe-zeros munlock n bufs s.1))

wipe_part :
    (munlock : Bool) (n k : ℕ) (bufs : List (List ℕ))
    → length bufs ≡ k
    → Sized n bufs
    → wipe munlock n (take k bufs) ≡ replicate k (zeros n)
wipe_part munlock n k bufs e s =
    rw (take_all k bufs (omega arith)) (wipe-zeros munlock n bufs s)
    ∙ ap (λ l. replicate l (zeros n)) e

module _ {Ctx : Type 0} (ssl : OpenSsl Ctx) (munlock : Bool) (c : AesCfg Ctx) where
  clean-freed :
      IsReady c
      → (rdrand_clean_aes ssl munlock c).freed
        ≡ c.freed
          ++ replicate c.amount (zeros c.key_length)
          ++ replicate c.amount (zeros c.key_length)
  unfolding rdrand_clean_aes keys_free
  clean-freed r = rw (
    r.allocated,
    wipe_part munlock c.key_length c.amount c.keys r.keys_amount r.keys_sized,
    wipe_part munlock c.key_length c.amount c.nonces r.nonces_amount r.nonces_sized,
  )

  again-freed :
      (munlock_again : Bool)
      → IsReady c
      → let c' = rdrand_clean_aes ssl munlock c in
        (rdrand_clean_aes ssl munlock_again c').freed ≡ c'.freed
  unfolding rdrand_clean_aes keys_free
  again-freed munlock_again r = rw r.allocated

  pub clean-crashed :
      IsReady c → c.context ≡ live → (rdrand_clean_aes ssl munlock c).crashed ≡ c.crashed
  unfolding rdrand_clean_aes keys_free free_context
  clean-crashed r current =
      let ks : (length c.keys == c.amount) ≡ true = ground (arith, r.keys_amount) in
      let ns : (length c.nonces == c.amount) ≡ true = ground (arith, r.nonces_amount) in
      rw (r.allocated, current, ks, ns) (ground arith)

  clean-context :
      IsReady c → c.context ≡ live → (rdrand_clean_aes ssl munlock c).context ≡ freed_context
  unfolding rdrand_clean_aes keys_free free_context
  clean-context r current = rw (r.allocated, current)

  again-crashed :
      (munlock_again : Bool) (k : AesCfg Ctx)
      → k.allocated ≡ false
      → k.context ≡ freed_context
      → (rdrand_clean_aes ssl munlock_again k).crashed ≡ true
  unfolding rdrand_clean_aes keys_free free_context
  again-crashed munlock_again k none_left freed = rw (none_left, freed) (ground arith)

  -- With keys set and a live context, `rdrand_clean_aes` gives back every key and every nonce, each
  -- overwritten with zeros before, drops the arrays, and does nothing undefined. Called once more, it
  -- gives back no key and no nonce again, but frees the context for a second time.
  pub clean_wipes :
      (munlock_again : Bool)
      → IsReady c
      → c.context ≡ live
      → let c' = rdrand_clean_aes ssl munlock c in
        let c'' = rdrand_clean_aes ssl munlock_again c' in
        (c'.freed
          ≡ c.freed
            ++ replicate c.amount (zeros c.key_length)
            ++ replicate c.amount (zeros c.key_length))
        × (c'.allocated ≡ false)
        × (c'.keys ≡ [])
        × (c'.nonces ≡ [])
        × (c'.crashed ≡ c.crashed)
        × (c''.freed ≡ c'.freed)
        × (c''.crashed ≡ true)
  clean_wipes munlock_again r current =
      let gone : (rdrand_clean_aes ssl munlock c).allocated ≡ false =
        unfold rdrand_clean_aes keys_free in rw r.allocated refl in
      (
        clean-freed r,
        gone,
        (unfold rdrand_clean_aes keys_free in rw r.allocated refl),
        (unfold rdrand_clean_aes keys_free in rw r.allocated refl),
        clean-crashed r current,
        again-freed munlock_again r,
        again-crashed munlock_again (rdrand_clean_aes ssl munlock c) gone (clean-context r current),
      )
