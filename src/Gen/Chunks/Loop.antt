-- ===== src/Gen/Chunks/Loop.antt =====
-- All rounds of `generate_chunk` where every request of bytes is met.
use rd_rand.Prelude.{
  ℕ, zero, suc, ◌+◌, ◌*◌, ◌^◌, ◌<◌, ◌≡◌, refl, ap, ◌∙◌, arith, true, false, ◌||◌, List,
  if◌then◌else◌, ltb, ◌==◌, inl, inr, Bool-cases, subst,
}
use rd_rand.Cpu.{Cpu, Build}
use rd_rand.Arrays.{u32}
use rd_rand.Bytes.Complete.{Complete}
use rd_rand.Aes.State.{OpenSsl}
use rd_rand.Gen.Config.{Cnf}
use rd_rand.Gen.Chunks.{Generator, next_chunk, chunk_round, aes_thread, chunk_loop}
use rd_rand.Gen.Chunks.Rounds.{
  Appends, IsPlain, Writes, Went, IsPlain-Went, chunk_round-Writes, chunk_round-first,
}

-- The number of rounds: one more with encryption.
abbrev pub rounds : Cnf → ℕ
rounds c = c.chunk_count + aes_thread c

module _ (build : Build) (cpu : Cpu) (complete : Complete build cpu) {Ctx : Type 0}
    (ssl : OpenSsl Ctx) (buf : ℕ) (fwrite : List ℕ → ℕ → List ℕ → ℕ × List ℕ)
    (appends : Appends fwrite) where
  pub loop_step :
      (fuel n : ℕ) (g : Generator Ctx)
      → (ltb n (rounds g.cnf) || (g.cnf.bytes == 0)) ≡ true
      → (chunk_round build cpu ssl buf fwrite n g).0 ≡ next_chunk
      → chunk_loop build cpu ssl buf fwrite (suc fuel) n g
        ≡ chunk_loop build cpu ssl buf fwrite fuel
            (u32 (n + 1))
            (chunk_round build cpu ssl buf fwrite n g).1
  unfolding chunk_loop
  loop_step fuel n g test next = rw test (rw next (rw next refl))

  pub loop_end :
      (fuel n : ℕ) (g : Generator Ctx)
      → (ltb n (rounds g.cnf) || (g.cnf.bytes == 0)) ≡ false
      → chunk_loop build cpu ssl buf fwrite (suc fuel) n g ≡ (true, g)
  unfolding chunk_loop
  loop_end fuel n g test = rw test refl

  Went-none : (g : Generator Ctx) → Went 0 g g
  Went-none g = record {
    cnf_same = refl;
    size_same = refl;
    total = omega arith;
    put_out = omega arith;
  }

  Went-add : (j k : ℕ) (g g' g'' : Generator Ctx) → Went j g g' → Went k g' g'' → Went (j + k) g g''
  Went-add j k g g' g'' first later = record {
    cnf_same = later.cnf_same ∙ first.cnf_same;
    size_same = later.size_same ∙ first.size_same;
    total = omega (arith, later.total, first.total);
    put_out = omega (arith, later.put_out, first.put_out);
  }

  chunk_loop-Went :
      (fuel n left : ℕ) (g : Generator Ctx)
      → IsPlain g
      → Writes g
      → n + left ≡ rounds g.cnf
      → rounds g.cnf < 2 ^ 32
      → 0 < g.cnf.bytes
      → left < fuel
      → let r = chunk_loop build cpu ssl buf fwrite fuel n g in
        (r.0 ≡ true) × Went (left * g.buf_size) g r.1
  chunk_loop-Went zero n left g plain writes e small some_byte enough = absurd (omega arith)
  chunk_loop-Went (suc fuel) n zero g plain writes e small some_byte enough =
      let none_left : (ltb n (rounds g.cnf) || (g.cnf.bytes == 0)) ≡ false = ground arith in
      let nothing : 0 * g.buf_size ≡ 0 = omega arith in
      rw (loop_end fuel n g none_left, nothing) (refl, Went-none g)
  chunk_loop-Went (suc fuel) n (suc left) g plain writes e small some_byte enough =
      let test : (ltb n (rounds g.cnf) || (g.cnf.bytes == 0)) ≡ true = ground arith in
      let next = chunk_round build cpu ssl buf fwrite n g in
      let (goes, went, later) =
        chunk_round-Writes build cpu ssl buf fwrite appends complete n g plain writes in
      let u : u32 (n + 1) ≡ n + 1 = omega arith in
      let (done, rest) =
        chunk_loop-Went fuel (n + 1) left next.1 (IsPlain-Went g.buf_size g next.1 went plain) later
          (rw went.cnf_same (omega arith)) (rw went.cnf_same small) (rw went.cnf_same some_byte)
          (omega arith) in
      let last = (chunk_loop build cpu ssl buf fwrite fuel (n + 1) next.1).1 in
      let sum : g.buf_size + left * next.1.buf_size ≡ suc left * g.buf_size =
        rw went.size_same (grind arith) in
      rw (loop_step fuel n g test goes, u)
        (
          done,
          subst (λ k. Went k g last) sum
              (Went-add g.buf_size (left * next.1.buf_size) g next.1 last went rest),
        )

  -- With encryption the first round writes nothing.
  coded_loop :
      (fuel : ℕ) (g : Generator Ctx)
      → IsPlain g
      → g.first_run ≡ true
      → g.cnf.aes_flag ≡ true
      → rounds g.cnf < 2 ^ 32
      → 0 < g.cnf.bytes
      → rounds g.cnf < fuel
      → let r = chunk_loop build cpu ssl buf fwrite fuel 0 g in
        (r.0 ≡ true) × Went (g.cnf.chunk_count * g.buf_size) g r.1
  coded_loop zero g plain start coded small some_byte enough = absurd (omega arith)
  coded_loop (suc fuel) g plain start coded small some_byte enough =
      let one : aes_thread g.cnf ≡ 1 = ap (λ b. if b then 1 else 0) coded in
      let test : (ltb 0 (rounds g.cnf) || (g.cnf.bytes == 0)) ≡ true = ground (arith, one) in
      let next = chunk_round build cpu ssl buf fwrite 0 g in
      let (goes, went, later) =
        chunk_round-first build cpu ssl buf fwrite appends complete 0 g plain
          (ground (arith, coded, start)) in
      let u : u32 (0 + 1) ≡ 1 = omega arith in
      let last = (chunk_loop build cpu ssl buf fwrite fuel 1 next.1).1 in
      let (done, rest) =
        chunk_loop-Went fuel 1 g.cnf.chunk_count next.1 (IsPlain-Went 0 g next.1 went plain) later
          (rw went.cnf_same (omega (arith, one))) (rw went.cnf_same small)
          (rw went.cnf_same some_byte) (omega (arith, one)) in
      let sum : 0 + g.cnf.chunk_count * next.1.buf_size ≡ g.cnf.chunk_count * g.buf_size =
        rw went.size_same (omega arith) in
      rw (loop_step fuel 0 g test goes, u)
        (
          done,
          subst (λ k. Went k g last) sum
              (Went-add 0 (g.cnf.chunk_count * next.1.buf_size) g next.1 last went rest),
        )

  -- From the start of `generate_chunk` on.
  pub chunk_loop_all :
      (fuel : ℕ) (g : Generator Ctx)
      → IsPlain g
      → g.first_run ≡ true
      → rounds g.cnf < 2 ^ 32
      → 0 < g.cnf.bytes
      → rounds g.cnf < fuel
      → let r = chunk_loop build cpu ssl buf fwrite fuel 0 g in
        (r.0 ≡ true) × Went (g.cnf.chunk_count * g.buf_size) g r.1
  chunk_loop_all fuel g plain start small some_byte enough = elim (Bool-cases g.cnf.aes_flag) [
    | inl coded ↦ coded_loop fuel g plain start coded small some_byte enough
    | inr not_coded ↦
        let none_more : aes_thread g.cnf ≡ 0 = ap (λ b. if b then 1 else 0) not_coded in
        chunk_loop-Went fuel 0 g.cnf.chunk_count g plain (ground (arith, not_coded))
          (omega (arith, none_more)) small some_byte (omega (arith, none_more))
  ]
