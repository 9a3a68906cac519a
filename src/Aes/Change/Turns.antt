-- ===== src/Aes/Change/Turns.antt =====
-- The request of a sequence at which `counter` changes the key (src/librdrand-aes.c, lines 475-500).
use rd_rand.Prelude.{
  ℕ, ◌+◌, ◌-◌, ◌≤◌, ◌<◌, ◌≡◌, refl, sym, ap, ◌∙◌, arith, true, false, inl, inr, List, [], ◌∷◌, ◌++◌,
  Bool-cases, ◌==◌, ◌||◌, ltb,
}
use rd_rand.Aes.State.{AesCfg, OpenSsl}
use rd_rand.Aes.Change.{renew, counter}

unfoldable pub sum : List ℕ → ℕ
sum [] = 0
sum (x ∷ xs) = x + sum xs

-- AES_CFG after `n` bytes of the current key were used.
abbrev pub used : {Ctx : Type 0} → ℕ → AesCfg Ctx → AesCfg Ctx
used n c = record c { next_counter = c.next_counter - n }

module _ {Ctx : Type 0} (ssl : OpenSsl Ctx) where
  unfoldable pub requests : List ℕ → AesCfg Ctx → AesCfg Ctx
  requests [] c = c
  requests (num ∷ nums) c = requests nums (counter ssl num c).0

  -- The request at which `renew` is called, with those before and after it.
  pub record Turns (nums : List ℕ) (c : AesCfg Ctx) : Type 0 where
    pub before : List ℕ
    pub num : ℕ
    pub after : List ℕ
    pub divides : nums ≡ before ++ num ∷ after
    pub within : sum before ≤ c.next_counter
    pub counted : requests before c ≡ used (sum before) c
    pub renews : counter ssl num (used (sum before) c) ≡ renew ssl c.keys_type (used (sum before) c)

  used_zero : (c : AesCfg Ctx) → c ≡ used 0 c
  used_zero c = ap (λ n. record c { next_counter = n }) (omega arith)

  used-used : (n k : ℕ) (c : AesCfg Ctx) → used k (used n c) ≡ used (n + k) c
  used-used n k c = ap (λ left. record c { next_counter = left }) (omega arith)

  counter-renew :
      (num : ℕ) (c : AesCfg Ctx)
      → (c.next_counter == 0 || ltb c.next_counter num) ≡ true
      → counter ssl num c ≡ renew ssl c.keys_type c
  unfolding counter
  counter-renew num c now = rw now

  counter-used :
      (num : ℕ) (c : AesCfg Ctx)
      → (c.next_counter == 0 || ltb c.next_counter num) ≡ false
      → (counter ssl num c).0 ≡ used num c
  unfolding counter
  counter-used num c later = rw later

  at_once :
      (num : ℕ) (nums : List ℕ) (c : AesCfg Ctx)
      → (c.next_counter == 0 || ltb c.next_counter num) ≡ true
      → Turns (num ∷ nums) c
  unfolding sum requests
  at_once num nums c now = record {
    before = [];
    num = num;
    after = nums;
    divides = refl;
    within = omega arith;
    counted = used_zero c;
    renews =
        counter-renew num (used 0 c)
          (ap (λ n. n == 0 || ltb n num) (sym (ap (λ k. k.next_counter) (used_zero c))) ∙ now);
  }

  afterwards :
      (num : ℕ) (nums : List ℕ) (c : AesCfg Ctx)
      → (c.next_counter == 0 || ltb c.next_counter num) ≡ false
      → Turns nums (used num c)
      → Turns (num ∷ nums) c
  unfolding sum requests
  afterwards num nums c later r = record {
    before = num ∷ r.before;
    num = r.num;
    after = r.after;
    divides = ap (λ xs. num ∷ xs) r.divides;
    within = ground (arith, r.within);
    counted =
        ap (requests r.before) (counter-used num c later)
        ∙ r.counted
        ∙ used-used num (sum r.before) c;
    renews =
        ap (counter ssl r.num) (sym (used-used num (sum r.before) c))
        ∙ r.renews
        ∙ ap (renew ssl c.keys_type) (used-used num (sum r.before) c);
  }

  pub counter-Turns : (nums : List ℕ) (c : AesCfg Ctx) → c.next_counter < sum nums → Turns nums c
  unfolding sum
  counter-Turns [] c more = absurd (omega arith)
  counter-Turns (num ∷ nums) c more =
      elim (Bool-cases (c.next_counter == 0 || ltb c.next_counter num)) [
        | inl now ↦ at_once num nums c now
        | inr later ↦ afterwards num nums c later (counter-Turns nums (used num c) (ground arith))
      ]
