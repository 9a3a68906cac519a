-- ===== src/Aes/Encrypt/Defined.antt =====
-- What changes of key and of the context keep, `rdrand_enc_buffer` keeps; it does nothing undefined once
-- keys are set.
use rd_rand.Prelude.{ℕ, zero, suc, ◌/◌, ◌%◌, ◌≡◌, ◌∙◌, not, List, [], if_elim, ◌==◌, drop}
use rd_rand.Aes.State.{AesCfg, OpenSsl, Context}
use rd_rand.Aes.Change.{counter}
use rd_rand.Aes.Invariant.{IsLawful, enciphered-IsReady}
use rd_rand.Aes.Defined.{IsDefined, counter-IsDefined, counter-context}
use rd_rand.Aes.Encrypt.{Encrypted, enc_part, enc_loop, rdrand_enc_buffer}

module _ {Ctx : Type 0} (ssl : OpenSsl Ctx) where
  module _ (P : AesCfg Ctx → Type 0)
      (counted : (num : ℕ) (c : AesCfg Ctx) → P c → P (counter ssl num c).0)
      (enciphered : (c : AesCfg Ctx) (en : Ctx) → P c → P (record c { en = en })) where
    enc_loop-Keeps :
        (tail chunks : ℕ) (src dest : List ℕ) (c : AesCfg Ctx)
        → P c
        → P (enc_loop ssl tail chunks src dest c).cfg
    unfolding enc_loop enc_part
    enc_loop-Keeps tail zero src dest c p =
        if_elim {A = Encrypted Ctx} (λ e. P e.cfg) (tail == 0) (λ _. p) (λ _. enciphered c _ p)
    enc_loop-Keeps tail (suc chunks) src dest c p =
        let Good : Encrypted Ctx → Type 0 = λ e. P e.cfg in
        let k = counter ssl 2048 c in
        let e = enc_part ssl 2048 src dest k.0 in
        let changed = counted 2048 c p in
        let coded : P e.cfg = enciphered k.0 _ changed in
        let rest = enc_loop-Keeps tail chunks (drop 2048 src) e.dest e.cfg coded in
        if_elim {A = Encrypted Ctx} Good (not k.1) (λ _. changed)
          (λ _. if_elim {A = Encrypted Ctx} Good (not e.ok) (λ _. coded) (λ _. rest))

    enc_buffer-Keeps :
        (src : List ℕ) (len : ℕ) (c : AesCfg Ctx) → P c → P (rdrand_enc_buffer ssl src len c).cfg
    unfolding rdrand_enc_buffer
    enc_buffer-Keeps src len c p = enc_loop-Keeps (len % 2048) (len / 2048) src [] c p

  pub enc_buffer-context :
      (context : Context) (src : List ℕ) (len : ℕ) (c : AesCfg Ctx)
      → c.context ≡ context
      → (rdrand_enc_buffer ssl src len c).cfg.context ≡ context
  enc_buffer-context context =
      enc_buffer-Keeps (λ c. c.context ≡ context) (λ num c p. counter-context ssl num c ∙ p)
        (λ c en p. p)

  module _ (law : IsLawful ssl) where
    pub enciphered-IsDefined :
        (c : AesCfg Ctx) (en : Ctx) → IsDefined c → IsDefined (record c { en = en })
    enciphered-IsDefined c en d = record {
      ready = enciphered-IsReady ssl law c en d.ready;
      sound = d.sound;
    }

    pub enc_buffer-IsDefined :
        (src : List ℕ) (len : ℕ) (c : AesCfg Ctx)
        → IsDefined c
        → IsDefined (rdrand_enc_buffer ssl src len c).cfg
    enc_buffer-IsDefined =
        enc_buffer-Keeps IsDefined (counter-IsDefined ssl law) enciphered-IsDefined
