-- ===== src/Check/Keys/Counter/Random.antt =====
-- The tests of random keys: that each generation gives another key, and that `counter` changes it.
use rd_rand.Prelude.{
  ℕ, zero, suc, ◌+◌, ◌≤◌, ◌<◌, ◌≡◌, refl, ap, ◌∙◌, arith, Bool, true, false, not, ◌&&◌, some, List,
  [], ◌∷◌, take, get_or, ltb, if◌then◌else◌, ◌==◌,
}
use rd_rand.Aes.State.{AesCfg, OpenSsl}
use rd_rand.Aes.Keys.{keys_allocate, key_generate, nonce_generate, rdrand_set_aes_random_key, zeros}
use rd_rand.Aes.Power.{is_power_of_two}
use rd_rand.Aes.Change.{counter}
use rd_rand.Aes.Invariant.{IsLawful}
use rd_rand.Check.{equal_bytes, same_memory}
use rd_rand.Check.Keys.{
  first_key, key_rounds, aes_random_key_gen, aes_keys_counter_zero, aes_keys_counter,
}
use rd_rand.Check.Keys.Counter.{Holds, key_generate-Holds, counter-new_key}
use rd_rand.Check.Keys.Counter.Rounds.{random_key-Holds, new_key, keys_counter-passes}

equal_bytes_comm : (xs ys : List ℕ) → equal_bytes xs ys ≡ equal_bytes ys xs
unfolding equal_bytes
equal_bytes_comm [] [] = refl
equal_bytes_comm [] (b ∷ ys) = refl
equal_bytes_comm (a ∷ xs) [] = refl
equal_bytes_comm (a ∷ xs) (b ∷ ys) =
    let swap : (a == b) ≡ (b == a) = ground arith in rw (swap, equal_bytes_comm xs ys)

same_memory_comm : (a b : List ℕ) (n : ℕ) → same_memory a b n ≡ same_memory b a n
unfolding same_memory
same_memory_comm a b n = equal_bytes_comm (take n a) (take n b)

module _ {Ctx : Type 0} (ssl : OpenSsl Ctx) (law : IsLawful ssl) (key : ℕ → List ℕ)
    (draws : (n : ℕ) → ssl.rand_bytes n 16 ≡ some (key n))
    (distinct : (i j : ℕ) → i < j → j ≤ i + 3 → same_memory (key i) (key j) 16 ≡ false) where
  abbrev HoldsKey : ℕ → AesCfg Ctx → Type 0
  HoldsKey j c = Holds ssl law key draws distinct 3 j c

  generate_ok : (c : AesCfg Ctx) → c.key_length ≡ 16 → (key_generate ssl c).1 ≡ true
  unfolding key_generate nonce_generate
  generate_ok c sized =
      let drawn : (n : ℕ) → ssl.rand_bytes n c.key_length ≡ some (key n) =
        λ n. ap (ssl.rand_bytes n) sized ∙ draws n in
      rw (key_generate, drawn c.rand_calls) (rw (nonce_generate, drawn (c.rand_calls + 1)) refl)

  generate-Holds :
      (j : ℕ) (c : AesCfg Ctx) → HoldsKey j c → HoldsKey c.rand_calls (key_generate ssl c).0
  generate-Holds j c h =
      let g =
        key_generate-Holds ssl law key draws distinct (key j) c
          (law.rand_length j 16 (key j) (draws j)) h.key_held h.random h.sized h.within in
      record {
        random = g.random;
        sized = g.sized;
        key_held = g.key_held;
        drawn = g.drawn;
        recent = omega (arith, g.recent);
        within = g.within;
      }

  -- Every round changes the key.
  key_rounds_all :
      (left changes j : ℕ) (c : AesCfg Ctx)
      → HoldsKey j c
      → key_rounds ssl left changes (key j) c ≡ (true, changes + left)
  unfolding key_rounds
  key_rounds_all zero changes j c h = ap (λ n. (true, n)) (omega arith)
  key_rounds_all (suc left) changes j c h =
      let k = (key_generate ssl c).0 in
      let h' = generate-Holds j c h in
      let other : same_memory (first_key ssl k) (key j) 16 ≡ false =
        same_memory_comm (first_key ssl k) (key j) 16
        ∙ new_key ssl law key draws distinct j c.rand_calls k h.drawn h.recent h' in
      let rest = key_rounds_all left (changes + 1) c.rand_calls k h' in
      let joined : Bool → Bool × ℕ → Bool × ℕ = λ ok r. (ok && r.0, r.1) in
      let later : Bool → Bool × ℕ =
        λ same. key_rounds ssl left (if same then changes else changes + 1) (first_key ssl k) k in
      let next : later (same_memory (first_key ssl k) (key j) k.key_length)
          ≡ (true, changes + suc left) =
        ap (λ n. later (same_memory (first_key ssl k) (key j) n)) h'.sized
        ∙ ap later other
        ∙ ap (λ ks. key_rounds ssl left (changes + 1) (get_or ks 0 []) k) h'.key_held
        ∙ rest
        ∙ ap (λ n. (true, n)) (omega arith) in
      ap (λ ok. joined ok (later (same_memory (first_key ssl k) (key j) k.key_length)))
        (generate_ok c h.sized)
      ∙ ap (joined true) next

  random_key-ok : (c : AesCfg Ctx) → (rdrand_set_aes_random_key ssl true true c).1 ≡ true
  unfolding rdrand_set_aes_random_key keys_allocate is_power_of_two
  random_key-ok c = generate_ok _ refl

  key_gen-passes :
      (c : AesCfg Ctx)
      → same_memory (key c.rand_calls) (zeros 16) 16 ≡ false
      → aes_random_key_gen ssl c ≡ true
  unfolding aes_random_key_gen
  key_gen-passes c not_zero =
      let k = (rdrand_set_aes_random_key ssl true true c).0 in
      let h = random_key-Holds ssl law key draws distinct c in
      let fresh : same_memory (first_key ssl k) (zeros 16) k.key_length ≡ false =
        ap (λ n. same_memory (first_key ssl k) (zeros 16) n) h.sized
        ∙ ap (λ ks. same_memory (get_or ks 0 []) (zeros 16) 16) h.key_held
        ∙ not_zero in
      let rounds : key_rounds ssl 5 0 (first_key ssl k) k ≡ (true, 0 + 5) =
        ap (λ ks. key_rounds ssl 5 0 (get_or ks 0 []) k) h.key_held
        ∙ key_rounds_all 5 0 c.rand_calls k h in
      let test : Bool → Bool → Bool × ℕ → Bool =
        λ ok zero r. ok && (not zero && (r.0 && ltb 0 r.1)) in
      ap
        (λ ok.
          test ok (same_memory (first_key ssl k) (zeros 16) k.key_length)
            (key_rounds ssl 5 0 (first_key ssl k) k))
        (random_key-ok c)
      ∙ ap (λ z. test true z (key_rounds ssl 5 0 (first_key ssl k) k)) fresh
      ∙ ap (test true false) rounds

  counter_zero-passes : (c : AesCfg Ctx) → aes_keys_counter_zero ssl c ≡ true
  unfolding aes_keys_counter_zero
  counter_zero-passes c =
      let k = (rdrand_set_aes_random_key ssl true true c).0 in
      let h = random_key-Holds ssl law key draws distinct c in
      let k0 = record k { next_counter = 0 } in
      let h0 : HoldsKey c.rand_calls k0 = record {
        random = h.random;
        sized = h.sized;
        key_held = h.key_held;
        drawn = h.drawn;
        recent = h.recent;
        within = omega arith;
      } in
      let k' = (counter ssl 1 k0).0 in
      let h' = counter-new_key ssl law key draws distinct c.rand_calls k0 h0 refl in
      ap (λ ks. not (same_memory (get_or ks 0 []) (first_key ssl k') 16)) h.key_held
      ∙ ap not
          (new_key ssl law key draws distinct c.rand_calls k0.rand_calls k' h0.drawn h0.recent h')

  -- The tests of random keys pass when RAND_bytes succeeds, never gives the bytes of one of its last
  -- three calls again, and does not begin with zeros: in 8193 requests of one byte the key changes
  -- twice at least, a counter of 0 changes it at once, and each of five calls of `key_generate` does.
  pub random_key_tests :
      (c : AesCfg Ctx)
      → same_memory (key c.rand_calls) (zeros 16) 16 ≡ false
      → (aes_keys_counter ssl c ≡ true)
        × (aes_keys_counter_zero ssl c ≡ true)
        × (aes_random_key_gen ssl c ≡ true)
  random_key_tests c not_zero = (
    keys_counter-passes ssl law key draws distinct c,
    counter_zero-passes c,
    key_gen-passes c not_zero,
  )
