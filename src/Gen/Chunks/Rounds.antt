-- ===== src/Gen/Chunks/Rounds.antt =====
-- The rounds of `generate_chunk` where every request of bytes is met, with and without encryption.
use rd_rand.Prelude.{
  ℕ, ◌+◌, ◌*◌, ◌/◌, ◌≤◌, ◌≡◌, refl, ap, ◌∙◌, arith, Bool, true, false, not, ◌&&◌, List, ◌++◌,
  length, length-append, ltb, ltb→lt, subst, if_elim, ◌==◌, inl, inr, Bool-cases,
}
use rd_rand.Cpu.{Cpu, Build}
use rd_rand.Bytes.Complete.{Complete}
use rd_rand.Aes.State.{OpenSsl}
use rd_rand.Aes.Encrypt.{load_bytes}
use rd_rand.Aes.Encrypt.Loads.{length-load_bytes}
use rd_rand.Gen.Config.{get_bytes}
use rd_rand.Gen.Chunks.{
  Generator, Next, next_chunk, run_threads, write_chunk, finish_chunk, chunk_round,
}
use rd_rand.Gen.Chunks.Threads.{Kept, run_threads-Kept, run_threads_full}

-- Every call of fwrite writes all elements at the end of the stream.
abbrev pub Appends : (List ℕ → ℕ → List ℕ → ℕ × List ℕ) → Type 0
Appends fwrite =
    (out : List ℕ) (size : ℕ) (bytes : List ℕ)
    → fwrite out size bytes ≡ (length bytes / size, out ++ bytes)

module _ {Ctx : Type 0} where
  -- The default method, with the buffers of a round of all threads.
  pub record IsPlain (g : Generator Ctx) : Type 0 where
    pub method_plain : g.cnf.method ≡ get_bytes
    pub chunk_small : g.cnf.chunk_size ≤ 2048
    pub buf_sized : g.buf_size ≡ g.cnf.chunk_size * g.cnf.threads

  -- The round does not come before the first encryption, so it writes.
  abbrev pub Writes : Generator Ctx → Type 0
  Writes g = (g.cnf.aes_flag && g.first_run) ≡ false

  -- From `g` to `g'`, `k` blocks were written.
  pub record Went (k : ℕ) (g g' : Generator Ctx) : Type 0 where
    pub cnf_same : g'.cnf ≡ g.cnf
    pub size_same : g'.buf_size ≡ g.buf_size
    pub total : g'.written_total ≡ g.written_total + k
    pub put_out : length g'.output ≡ length g.output + 8 * k

  pub IsPlain-Went : (k : ℕ) (g g' : Generator Ctx) → Went k g g' → IsPlain g → IsPlain g'
  IsPlain-Went k g g' went plain = record {
    method_plain = ap (λ c. c.method) went.cnf_same ∙ plain.method_plain;
    chunk_small = rw went.cnf_same plain.chunk_small;
    buf_sized = rw went.cnf_same (went.size_same ∙ plain.buf_sized);
  }

  -- One round of `k` blocks: it goes on to the next chunk, and the later rounds write.
  abbrev Round : ℕ → Generator Ctx → Next × Generator Ctx → Type 0
  Round k g r = (r.0 ≡ next_chunk) × Went k g r.1 × Writes r.1

  Kept-Went : (g g' g'' : Generator Ctx) (k : ℕ) → Kept g g' → Went k g' g'' → Went k g g''
  Kept-Went g g' g'' k kept went = record {
    cnf_same = went.cnf_same ∙ kept.cnf_kept;
    size_same = went.size_same ∙ kept.size_kept;
    total = went.total ∙ ap (λ n. n + k) kept.total_kept;
    put_out = went.put_out ∙ ap (λ out. length out + 8 * k) kept.output_kept;
  }

module _ (build : Build) (cpu : Cpu) {Ctx : Type 0} (ssl : OpenSsl Ctx) (buf : ℕ)
    (fwrite : List ℕ → ℕ → List ℕ → ℕ × List ℕ) (appends : Appends fwrite) where
  write_chunk-Round :
      (g : Generator Ctx) → Writes g → Round g.buf_size g (write_chunk build cpu ssl buf fwrite g)
  unfolding write_chunk
  write_chunk-Round g writes =
      let bytes = load_bytes g.machine.mem buf (g.buf_size * 8) in
      let long = length-load_bytes g.machine.mem buf (g.buf_size * 8) in
      let e : length bytes / 8 ≡ g.buf_size = omega (arith, long) in
      let same : (g.buf_size == g.buf_size) ≡ true = ground arith in
      rw (write_chunk, appends g.output 8 bytes, e, same)
        (
          refl,
          record {
            cnf_same = refl;
            size_same = refl;
            total = refl;
            put_out = omega (arith, length-append g.output bytes, long);
          },
          writes,
        )

  abbrev swapped : Generator Ctx → Generator Ctx
  swapped g = record g { gen_current = g.gen_previous; gen_previous = g.gen_current }

  both_on : {a b : Bool} → a ≡ true → b ≡ true → (a && b) ≡ false → ⊥
  both_on p q r = ground (arith, p, q, r)

  off_left : (a b : Bool) → a ≡ false → (a && b) ≡ true → ⊥
  off_left a b p q = ground (arith, p, q)

  off_right : (a b : Bool) → b ≡ false → (a && b) ≡ true → ⊥
  off_right a b p q = ground (arith, p, q)

  swap-Round :
      (g : Generator Ctx)
      → Writes g
      → Round g.buf_size g (write_chunk build cpu ssl buf fwrite (swapped g))
  swap-Round g writes =
      let (next, went, later) = write_chunk-Round (swapped g) writes in
      (
        next,
        record {
          cnf_same = went.cnf_same;
          size_same = went.size_same;
          total = went.total;
          put_out = went.put_out;
        },
        later,
      )

  -- The end of a round that writes, and of the first round with encryption.
  finish_chunk-Writes :
      (g : Generator Ctx) → Writes g → Round g.buf_size g (finish_chunk build cpu ssl buf fwrite g)
  unfolding finish_chunk
  finish_chunk-Writes g writes =
      if_elim {A = Next × Generator Ctx} (Round g.buf_size g) g.cnf.aes_flag
        (λ coded.
          if_elim {A = Next × Generator Ctx} (Round g.buf_size g) g.first_run
            (λ first. absurd (both_on coded first writes)) (λ _. swap-Round g writes))
        (λ _. write_chunk-Round g writes)

  finish_chunk-first :
      (g : Generator Ctx)
      → (g.cnf.aes_flag && g.first_run) ≡ true
      → Round 0 g (finish_chunk build cpu ssl buf fwrite g)
  unfolding finish_chunk
  finish_chunk-first g first =
      if_elim {A = Next × Generator Ctx} (Round 0 g) g.cnf.aes_flag
        (λ coded.
          if_elim {A = Next × Generator Ctx} (Round 0 g) g.first_run
            (λ _. (refl, nothing_written, ground arith))
            (λ later. absurd (off_right g.cnf.aes_flag g.first_run later first)))
        (λ plain. absurd (off_left g.cnf.aes_flag g.first_run plain first))
    where
      nothing_written : Went 0 g (record (swapped g) { first_run = false })
      nothing_written = record {
        cnf_same = refl;
        size_same = refl;
        total = omega arith;
        put_out = omega arith;
      }

  -- With all bytes generated, and in the last round with encryption, the round ends without errors.
  pub chunk_round_ends :
      (n : ℕ) (g : Generator Ctx)
      → let r = run_threads build cpu ssl buf fwrite n g in
        (not (r.0 == r.1.buf_size) && ltb n r.1.cnf.chunk_count) ≡ false
        → chunk_round build cpu ssl buf fwrite n g ≡ finish_chunk build cpu ssl buf fwrite r.1
  unfolding chunk_round
  chunk_round_ends n g fine = rw (chunk_round, fine)

  module _ (complete : Complete build cpu) where
    pub no_error :
        (n : ℕ) (g : Generator Ctx)
        → IsPlain g
        → let r = run_threads build cpu ssl buf fwrite n g in
          (not (r.0 == r.1.buf_size) && ltb n r.1.cnf.chunk_count) ≡ false
    no_error n g plain =
        let kept = run_threads-Kept build cpu ssl buf fwrite n g in
        rw (kept.cnf_kept, kept.size_kept)
          (elim (Bool-cases (ltb n g.cnf.chunk_count)) [
            | inl more ↦
                let full =
                  run_threads_full build cpu ssl buf fwrite n g complete plain.method_plain
                    plain.chunk_small (ltb→lt n g.cnf.chunk_count more) in
                ground (arith, full, plain.buf_sized)
            | inr last ↦ rw last (ground arith)
          ])

    chunk_round-Round :
        (n k : ℕ) (g : Generator Ctx)
        → IsPlain g
        → let r = run_threads build cpu ssl buf fwrite n g in
          Round k r.1 (finish_chunk build cpu ssl buf fwrite r.1)
          → Round k g (chunk_round build cpu ssl buf fwrite n g)
    chunk_round-Round n k g plain (next, went, later) =
        let r = run_threads build cpu ssl buf fwrite n g in
        rw (chunk_round_ends n g (no_error n g plain))
          (next, Kept-Went g r.1 _ k (run_threads-Kept build cpu ssl buf fwrite n g) went, later)

    -- A round that writes, and the first one with encryption.
    pub chunk_round-Writes :
        (n : ℕ) (g : Generator Ctx)
        → IsPlain g
        → Writes g
        → Round g.buf_size g (chunk_round build cpu ssl buf fwrite n g)
    chunk_round-Writes n g plain writes =
        let r = run_threads build cpu ssl buf fwrite n g in
        let kept = run_threads-Kept build cpu ssl buf fwrite n g in
        let still : Writes r.1 = rw (kept.cnf_kept, kept.first_kept) writes in
        chunk_round-Round n g.buf_size g plain (
          subst (λ k. Round k r.1 (finish_chunk build cpu ssl buf fwrite r.1)) kept.size_kept
            (finish_chunk-Writes r.1 still))

    pub chunk_round-first :
        (n : ℕ) (g : Generator Ctx)
        → IsPlain g
        → (g.cnf.aes_flag && g.first_run) ≡ true
        → Round 0 g (chunk_round build cpu ssl buf fwrite n g)
    chunk_round-first n g plain first =
        let r = run_threads build cpu ssl buf fwrite n g in
        let kept = run_threads-Kept build cpu ssl buf fwrite n g in
        let still : (r.1.cnf.aes_flag && r.1.first_run) ≡ true =
          rw (kept.cnf_kept, kept.first_kept) first in
        chunk_round-Round n 0 g plain (finish_chunk-first r.1 still)
