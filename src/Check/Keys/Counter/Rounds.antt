-- ===== src/Check/Keys/Counter/Rounds.antt =====
-- The test that `counter` changes the key in time.
use rd_rand.Prelude.{
  ℕ, zero, suc, ◌+◌, ◌-◌, ◌≤◌, ◌<◌, ◌≡◌, refl, sym, ap, ◌∙◌, arith, Bool, true, false, some, List,
  [], take, get_or, leb, if◌then◌else◌,
}
use rd_rand.Aes.State.{AesCfg, OpenSsl}
use rd_rand.Aes.Keys.{
  keys_allocate, key_generate, nonce_generate, rdrand_set_aes_random_key, key_to_openssl, zeros,
}
use rd_rand.Aes.Power.{is_power_of_two}
use rd_rand.Aes.Change.{counter}
use rd_rand.Aes.Invariant.{IsLawful}
use rd_rand.Check.{same_memory}
use rd_rand.Check.Keys.{first_key, counter_rounds, aes_keys_counter}
use rd_rand.Check.Keys.Counter.{
  Holds, equal_bytes_refl, key_generate-Holds, counter-new_key, counter-same_key,
}

le→leb : (a b : ℕ) → a ≤ b → leb a b ≡ true
le→leb a b h = ground arith

module _ {Ctx : Type 0} (ssl : OpenSsl Ctx) (law : IsLawful ssl) (key : ℕ → List ℕ)
    (draws : (n : ℕ) → ssl.rand_bytes n 16 ≡ some (key n))
    (distinct : (i j : ℕ) → i < j → j ≤ i + 3 → same_memory (key i) (key j) 16 ≡ false) where
  module _ (left changes : ℕ) (k : List ℕ) (c : AesCfg Ctx) where
    abbrev next : AesCfg Ctx
    next = (counter ssl 1 c).0

    round :
        counter_rounds ssl (suc left) changes k c
        ≡ counter_rounds ssl left
            (if same_memory k (first_key ssl next) 16 then changes else changes + 1)
            (first_key ssl next)
            next
    unfolding counter_rounds
    round = refl

    -- A round whose key is that of the call `i`.
    round_with :
        (i : ℕ) (b : Bool)
        → Holds ssl law key draws distinct 3 i next
        → same_memory k (first_key ssl next) 16 ≡ b
        → counter_rounds ssl (suc left) changes k c
          ≡ counter_rounds ssl left (if b then changes else changes + 1) (key i) next
    round_with i b h e =
        round
        ∙ ap
            (λ t.
              counter_rounds ssl left (if t then changes else changes + 1) (first_key ssl next)
                next)
            e
        ∙ ap
            (λ ks.
              counter_rounds ssl left (if b then changes else changes + 1) (get_or ks 0 []) next)
            h.key_held

  counter_rounds-le :
      (left changes : ℕ) (k : List ℕ) (c : AesCfg Ctx)
      → changes ≤ counter_rounds ssl left changes k c
  counter_rounds-le zero changes k c = unfold counter_rounds in omega arith
  counter_rounds-le (suc left) changes k c =
      let e = round left changes k c in
      let later =
        counter_rounds-le left
          (if same_memory k (first_key ssl (counter ssl 1 c).0) 16 then changes else changes + 1)
          (first_key ssl (counter ssl 1 c).0) (counter ssl 1 c).0 in
      rw e (ground (arith, later))

  pub same_key :
      (j : ℕ) (c : AesCfg Ctx)
      → Holds ssl law key draws distinct 3 j c
      → same_memory (key j) (first_key ssl c) 16 ≡ true
  unfolding same_memory
  same_key j c h = rw h.key_held (equal_bytes_refl (take 16 (key j)))

  pub new_key :
      (i j : ℕ) (c : AesCfg Ctx)
      → i < j
      → j ≤ i + 3
      → Holds ssl law key draws distinct 3 j c
      → same_memory (key i) (first_key ssl c) 16 ≡ false
  new_key i j c lt near h = rw h.key_held (distinct i j lt near)

  -- The state after the next change of the key, in the course of the rounds.
  record Changed (rounds left changes j : ℕ) (c : AesCfg Ctx) : Type 0 where
    call : ℕ
    cfg : AesCfg Ctx
    holds : Holds ssl law key draws distinct 3 call cfg
    goes_on :
        counter_rounds ssl rounds changes (key j) c
        ≡ counter_rounds ssl left (changes + 1) (key call) cfg

  -- It comes after as many rounds as the counter has left, and one more.
  next_change :
      (n j left changes : ℕ) (c : AesCfg Ctx)
      → Holds ssl law key draws distinct 3 j c
      → c.next_counter ≡ n
      → Changed (suc n + left) left changes j c
  next_change zero j left changes c h n_left =
      let h' = counter-new_key ssl law key draws distinct j c h n_left in
      record {
        call = c.rand_calls;
        cfg = (counter ssl 1 c).0;
        holds = h';
        goes_on =
            ap (λ k. counter_rounds ssl k changes (key j) c) (omega arith)
            ∙ round_with left changes (key j) c c.rand_calls false h'
                (new_key j c.rand_calls (counter ssl 1 c).0 h.drawn h.recent h');
      }
  next_change (suc n) j left changes c h n_left =
      let (h', n_less) = counter-same_key ssl law key draws distinct j n c h n_left in
      let r = next_change n j left changes (counter ssl 1 c).0 h' n_less in
      record {
        call = r.call;
        cfg = r.cfg;
        holds = r.holds;
        goes_on =
            ap (λ k. counter_rounds ssl k changes (key j) c) (omega arith)
            ∙ round_with (suc n + left) changes (key j) c j true h'
                (same_key j (counter ssl 1 c).0 h')
            ∙ r.goes_on;
      }

  pub random_key-Holds :
      (c : AesCfg Ctx)
      → Holds ssl law key draws distinct 3 c.rand_calls
          (rdrand_set_aes_random_key ssl true true c).0
  unfolding rdrand_set_aes_random_key keys_allocate is_power_of_two
  random_key-Holds c =
      let h : Holds ssl law key draws distinct 2 c.rand_calls
          (rdrand_set_aes_random_key ssl true true c).0 =
        key_generate-Holds ssl law key draws distinct (zeros 16) _ refl refl refl refl
          (omega arith) in
      record {
        random = h.random;
        sized = h.sized;
        key_held = h.key_held;
        drawn = h.drawn;
        recent = omega (arith, h.recent);
        within = h.within;
      }

  random_key-counter :
      (c : AesCfg Ctx) → (rdrand_set_aes_random_key ssl true true c).0.next_counter ≡ 0
  unfolding rdrand_set_aes_random_key keys_allocate is_power_of_two key_generate nonce_generate
      key_to_openssl
  random_key-counter c =
      rw (key_generate, draws c.rand_calls) (rw (nonce_generate, draws (c.rand_calls + 1)) refl)

  -- In 8193 requests of one byte the key changes twice at least.
  pub keys_counter-passes : (c : AesCfg Ctx) → aes_keys_counter ssl c ≡ true
  unfolding aes_keys_counter
  keys_counter-passes c =
      let k = (rdrand_set_aes_random_key ssl true true c).0 in
      let h = random_key-Holds c in
      let first = next_change 0 c.rand_calls 8192 0 k h (random_key-counter c) in
      let n = first.cfg.next_counter in
      let left : suc n + (8191 - n) ≡ 8192 = omega (arith, first.holds.within) in
      let second = next_change n first.call (8191 - n) 1 first.cfg first.holds refl in
      let start : counter_rounds ssl 8193 0 (first_key ssl k) k
          ≡ counter_rounds ssl 8193 0 (key c.rand_calls) k =
        ap (λ ks. counter_rounds ssl 8193 0 (get_or ks 0 []) k) h.key_held in
      let total =
        start
        ∙ first.goes_on
        ∙ ap (λ r. counter_rounds ssl r 1 (key first.call) first.cfg) (sym left)
        ∙ second.goes_on in
      ap (leb 2) total ∙ le→leb 2 _ (counter_rounds-le (8191 - n) 2 (key second.call) second.cfg)
