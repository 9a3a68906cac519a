-- ===== src/Gen/Chunks/Sound.antt =====
-- What the encryption keeps of AES_CFG, `generate` keeps: it touches AES_CFG in no other way.
use rd_rand.Prelude.{
  ℕ, zero, suc, ◌+◌, ◌*◌, ◌≡◌, false, sym, ◌∙◌, Bool, true, not, ◌&&◌, ◌||◌, List, if◌then◌else◌,
  if_elim, ltb, ◌==◌, arith,
}
use rd_rand.Cpu.{Cpu, Build}
use rd_rand.Memory.{Machine}
use rd_rand.Arrays.{u32}
use rd_rand.Aes.State.{AesCfg, OpenSsl}
use rd_rand.Aes.Invariant.{IsLawful, IsReady}
use rd_rand.Aes.Encrypt.Defined.{enc_buffer-IsDefined}
use rd_rand.Aes.Encrypt.{load_bytes, rdrand_enc_buffer}
use rd_rand.Gen.Config.{Cnf}
use rd_rand.Gen.Chunks.{
  retry_limit, Generator, Next, next_chunk, same_chunk, stop, generate_with_metod, fill_threads,
  slow_loop, encrypt_previous, run_threads, write_chunk, finish_chunk, retry_slowly, lower_threads,
  chunk_round, aes_thread, chunk_loop, generate_chunk, generate_ending, generate,
}

-- Encryption finds its keys set, and nothing undefined was done.
pub record CanEncrypt {Ctx : Type 0} (flag : Bool) (c : AesCfg Ctx) : Type 0 where
  pub keys_set : flag ≡ true → IsReady c
  pub sound : c.crashed ≡ false

module _ {Ctx : Type 0} (ssl : OpenSsl Ctx) (law : IsLawful ssl) where
  pub encrypts-CanEncrypt :
      (flag : Bool)
      → flag ≡ true
      → (src : List ℕ) (len : ℕ) (c : AesCfg Ctx) → CanEncrypt flag c
      → CanEncrypt flag (rdrand_enc_buffer ssl src len c).cfg
  encrypts-CanEncrypt flag on src len c can =
      let d =
        enc_buffer-IsDefined ssl law src len c
          (record { ready = can.keys_set on; sound = can.sound }) in
      record { keys_set = λ _. d.ready; sound = d.sound }

left_of : (a b : Bool) → (a && b) ≡ true → a ≡ true
left_of a b both = ground (arith, both)

module _ {Ctx : Type 0} (ssl : OpenSsl Ctx) (flag : Bool) (P : AesCfg Ctx → Type 0)
    (encrypts : flag ≡ true
      → (src : List ℕ) (len : ℕ) (c : AesCfg Ctx) → P c
      → P (rdrand_enc_buffer ssl src len c).cfg) where
  -- With `aes_flag` as it was at first.
  record Sane (g : Generator Ctx) : Type 0 where
    flag_same : g.cnf.aes_flag ≡ flag
    holds : P g.aes

  module _ (build : Build) (cpu : Cpu) (buf : ℕ) (fwrite : List ℕ → ℕ → List ℕ → ℕ × List ℕ) where
    encrypt_previous-Sane :
        (g : Generator Ctx)
        → Sane g
        → flag ≡ true
        → Sane (encrypt_previous build cpu ssl buf fwrite g)
    unfolding encrypt_previous
    encrypt_previous-Sane g s on = record {
      flag_same = s.flag_same;
      holds = encrypts on _ _ g.aes s.holds;
    }

    run_threads-Sane :
        (n : ℕ) (g : Generator Ctx) → Sane g → Sane (run_threads build cpu ssl buf fwrite n g).1
    unfolding run_threads
    run_threads-Sane n g s =
        let c = g.cnf in
        let r =
          fill_threads build cpu c.method c.chunk_size g.gen_current c.threads 0 0 g.machine in
        let made : ℕ × Generator Ctx =
          if ltb n c.chunk_count || (c.bytes == 0)
          then (r.0, record g { machine = r.1 })
          else (0, g) in
        let filled : Sane made.1 =
          if_elim {A = ℕ × Generator Ctx} (λ p. Sane p.1) (ltb n c.chunk_count || (c.bytes == 0))
            (λ _. record { flag_same = s.flag_same; holds = s.holds }) (λ _. s) in
        if_elim {A = ℕ × Generator Ctx} (λ p. Sane p.1) (c.aes_flag && not g.first_run)
          (λ both.
            encrypt_previous-Sane made.1 filled
              (sym s.flag_same ∙ left_of c.aes_flag (not g.first_run) both))
          (λ _. filled)

    write_chunk-Sane :
        (g : Generator Ctx) → Sane g → Sane (write_chunk build cpu ssl buf fwrite g).1
    unfolding write_chunk
    write_chunk-Sane g s =
        let w = fwrite g.output 8 (load_bytes g.machine.mem buf (g.buf_size * 8)) in
        if_elim {A = Next × Generator Ctx} (λ p. Sane p.1) (w.0 == g.buf_size)
          (λ _. record { flag_same = s.flag_same; holds = s.holds })
          (λ _. record { flag_same = s.flag_same; holds = s.holds })

    finish_chunk-Sane :
        (g : Generator Ctx) → Sane g → Sane (finish_chunk build cpu ssl buf fwrite g).1
    unfolding finish_chunk
    finish_chunk-Sane g s =
        let swapped = record g { gen_current = g.gen_previous; gen_previous = g.gen_current } in
        let moved : Sane swapped = record { flag_same = s.flag_same; holds = s.holds } in
        let Good : Next × Generator Ctx → Type 0 = λ p. Sane p.1 in
        if_elim {A = Next × Generator Ctx} Good g.cnf.aes_flag
          (λ _.
            if_elim {A = Next × Generator Ctx} Good g.first_run
              (λ _. record { flag_same = s.flag_same; holds = s.holds })
              (λ _. write_chunk-Sane swapped moved))
          (λ _. write_chunk-Sane g s)

    retry_slowly-Sane :
        (written : ℕ) (g : Generator Ctx)
        → Sane g
        → Sane (retry_slowly build cpu ssl buf fwrite written g).1
    unfolding retry_slowly
    retry_slowly-Sane written g s =
        let r = slow_loop build cpu g.cnf g.gen_current g.buf_size 100 written g.machine in
        let retried : Generator Ctx = record g {
          machine = r.1;
          cnf = record (g.cnf) { printed_warning_flag = true };
        } in
        let kept : Sane retried = record { flag_same = s.flag_same; holds = s.holds } in
        if_elim {A = Next × Generator Ctx} (λ p. Sane p.1) (r.0 == g.buf_size)
          (λ _. finish_chunk-Sane retried kept) (λ _. kept)

    lower_threads-Sane :
        (g : Generator Ctx) → Sane g → Sane (lower_threads build cpu ssl buf fwrite g)
    unfolding lower_threads
    lower_threads-Sane g s = record { flag_same = s.flag_same; holds = s.holds }

    chunk_round-Sane :
        (n : ℕ) (g : Generator Ctx) → Sane g → Sane (chunk_round build cpu ssl buf fwrite n g).1
    unfolding chunk_round
    chunk_round-Sane n g s =
        let p = run_threads build cpu ssl buf fwrite n g in
        let run = run_threads-Sane n g s in
        let Good : Next × Generator Ctx → Type 0 = λ q. Sane q.1 in
        if_elim {A = Next × Generator Ctx} Good
          (not (p.0 == p.1.buf_size) && ltb n p.1.cnf.chunk_count)
          (λ _.
            if_elim {A = Next × Generator Ctx} Good (p.1.cnf.threads == 1)
              (λ _. retry_slowly-Sane p.0 p.1 run) (λ _. lower_threads-Sane p.1 run))
          (λ _. finish_chunk-Sane p.1 run)

    next-Sane :
        (next : Next) (rest : Bool × Generator Ctx) (g : Generator Ctx)
        → Sane rest.1
        → Sane g
        → let r : Bool × Generator Ctx = elim next [ stop ↦ (true, g) | _ ↦ rest ] in Sane r.1
    next-Sane next_chunk rest g more here = more
    next-Sane same_chunk rest g more here = more
    next-Sane stop rest g more here = here

    chunk_loop-Sane :
        (fuel n : ℕ) (g : Generator Ctx)
        → Sane g
        → Sane (chunk_loop build cpu ssl buf fwrite fuel n g).1
    unfolding chunk_loop
    chunk_loop-Sane zero n g s = s
    chunk_loop-Sane (suc fuel) n g s =
        let r = chunk_round build cpu ssl buf fwrite n g in
        let run = chunk_round-Sane n g s in
        if_elim {A = Bool × Generator Ctx} (λ p. Sane p.1)
          (ltb n (g.cnf.chunk_count + aes_thread g.cnf) || (g.cnf.bytes == 0))
          (λ _. next-Sane r.0 _ r.1 (chunk_loop-Sane fuel _ r.1 run) run) (λ _. s)

    generate_ending-Sane :
        (enc_buf : ℕ) (g : Generator Ctx)
        → Sane g
        → Sane (generate_ending build cpu ssl buf fwrite enc_buf g).1
    unfolding generate_ending
    generate_ending-Sane enc_buf g s =
        let n = g.cnf.ending_bytes in
        let r = generate_with_metod build cpu g.cnf.method enc_buf (u32 n) retry_limit g.machine in
        let e = rdrand_enc_buffer ssl (load_bytes r.1.mem enc_buf n) n g.aes in
        let bytes = load_bytes r.1.mem enc_buf n in
        let out : AesCfg Ctx × List ℕ =
          if g.cnf.aes_flag then (e.cfg, e.dest) else (g.aes, bytes) in
        let coded : P out.0 =
          if_elim {A = AesCfg Ctx × List ℕ} (λ p. P p.0) g.cnf.aes_flag
            (λ on. encrypts (sym s.flag_same ∙ on) _ _ g.aes s.holds) (λ _. s.holds) in
        if_elim {A = ℕ × Generator Ctx} (λ p. Sane p.1) (not (r.0 == n))
          (λ _. record { flag_same = s.flag_same; holds = s.holds })
          (λ _. record { flag_same = s.flag_same; holds = coded })

    pub generate_chunk-Keeps :
        (fuel gen_buf1 gen_buf2 : ℕ) (c : Cnf) (aes : AesCfg Ctx) (m : Machine) (output : List ℕ)
        → c.aes_flag ≡ flag
        → P aes
        → P (generate_chunk build cpu ssl buf fwrite fuel gen_buf1 gen_buf2 c aes m output).1.aes
    unfolding generate_chunk
    generate_chunk-Keeps fuel gen_buf1 gen_buf2 c aes m output e p =
        (chunk_loop-Sane fuel 0 _ (record { flag_same = e; holds = p })).holds

    pub generate-Keeps :
        (fuel gen_buf1 gen_buf2 enc_buf : ℕ) (c : Cnf) (aes : AesCfg Ctx) (m : Machine)
        (output : List ℕ)
        → c.aes_flag ≡ flag
        → P aes
        → P (generate build cpu ssl buf fwrite fuel gen_buf1 gen_buf2 enc_buf c aes m output).2.aes
    unfolding generate generate_chunk
    generate-Keeps fuel gen_buf1 gen_buf2 enc_buf c aes m output e p =
        (generate_ending-Sane enc_buf _
          (chunk_loop-Sane fuel 0 _ (record { flag_same = e; holds = p }))).holds
