-- ===== src/Gen/Chunks/Ones/Output.antt =====
-- What `generate` writes in a build with STUB_RDRAND.
use rd_rand.Prelude.{
  ℕ, zero, suc, ◌+◌, ◌*◌, ◌^◌, ◌≤◌, ◌<◌, ◌≡◌, refl, sym, ap, ◌∙◌, subst, arith, true, false, ◌||◌,
  List, [], ◌++◌, append_assoc, append-nil, replicate, ltb, ◌==◌, if◌then◌else◌,
}
use rd_rand.Cpu.{Cpu, stub}
use rd_rand.Memory.{Machine}
use rd_rand.Arrays.{u32}
use rd_rand.Arrays.Stub.{ones, replicate-append}
use rd_rand.Bytes.Complete.{stub-Complete}
use rd_rand.Aes.State.{AesCfg, OpenSsl}
use rd_rand.Gen.Config.{Cnf, get_bytes, compute_chunk_size}
use rd_rand.Gen.Chunks.{
  Generator, chunk_round, aes_thread, generate_ending, generate_chunk, chunk_loop, generate,
}
use rd_rand.Gen.Chunks.Loop.{rounds, loop_step, loop_end}
use rd_rand.Gen.Chunks.Rounds.{chunk_round-Writes, Appends}
use rd_rand.Gen.Chunks.Ones.{all_ones, load_ones, metod_ones, IsDirect, Sent, chunk_round-Sent}
use rd_rand.Gen.Chunks.Amount.{started, generate-amount}
use rd_rand.Gen.Config.Division.{compute_chunk_size-divides, compute_chunk_size-IsKept, shuffle}
use native.Mathlib.Nat.{mul-le-mul}

module _ (cpu : Cpu) {Ctx : Type 0} (ssl : OpenSsl Ctx) (buf : ℕ)
    (fwrite : List ℕ → ℕ → List ℕ → ℕ × List ℕ) (appends : Appends fwrite) where
  abbrev Direct : Generator Ctx → Type 0
  Direct g = IsDirect cpu ssl buf fwrite appends g

  abbrev Ones : ℕ → Generator Ctx → Generator Ctx → Type 0
  Ones n g g' = Sent cpu ssl buf fwrite appends n g g'

  Sent-add : (n k : ℕ) (g g' g'' : Generator Ctx) → Ones n g g' → Ones k g' g'' → Ones (n + k) g g''
  Sent-add n k g g' g'' first later = record {
    cnf_same = later.cnf_same ∙ first.cnf_same;
    size_same = later.size_same ∙ first.size_same;
    current_same = later.current_same ∙ first.current_same;
    content =
        later.content
        ∙ ap (λ out. out ++ all_ones k) first.content
        ∙ append_assoc g.output (all_ones n) (all_ones k)
        ∙ ap (λ ones. g.output ++ ones) (replicate-append n k 255);
  }

  IsDirect-Sent : (n : ℕ) (g g' : Generator Ctx) → Ones n g g' → Direct g → Direct g'
  IsDirect-Sent n g g' sent d = record {
    plain = record {
      method_plain = ap (λ c. c.method) sent.cnf_same ∙ d.plain.method_plain;
      chunk_small = rw sent.cnf_same d.plain.chunk_small;
      buf_sized = rw sent.cnf_same (sent.size_same ∙ d.plain.buf_sized);
    };
    not_coded = ap (λ c. c.aes_flag) sent.cnf_same ∙ d.not_coded;
    at_buf = sent.current_same ∙ d.at_buf;
  }

  Sent-none : (g : Generator Ctx) → Ones 0 g g
  Sent-none g = record {
    cnf_same = refl;
    size_same = refl;
    current_same = refl;
    content = sym (append-nil g.output);
  }

  chunk_loop-Sent :
      (fuel n left : ℕ) (g : Generator Ctx)
      → Direct g
      → n + left ≡ g.cnf.chunk_count
      → g.cnf.chunk_count < 2 ^ 32
      → 0 < g.cnf.bytes
      → left < fuel
      → Ones (left * (g.buf_size * 8)) g (chunk_loop stub cpu ssl buf fwrite fuel n g).1
  chunk_loop-Sent zero n left g d e small some_byte enough = absurd (omega arith)
  chunk_loop-Sent (suc fuel) n zero g d e small some_byte enough =
      let none_more : aes_thread g.cnf ≡ 0 = ap (λ b. if b then 1 else 0) d.not_coded in
      let none_left : (ltb n (rounds g.cnf) || (g.cnf.bytes == 0)) ≡ false =
        ground (arith, none_more) in
      let nothing : 0 * (g.buf_size * 8) ≡ 0 = omega arith in
      rw (loop_end stub cpu (stub-Complete cpu) ssl buf fwrite appends fuel n g none_left, nothing)
        (Sent-none g)
  chunk_loop-Sent (suc fuel) n (suc left) g d e small some_byte enough =
      let none_more : aes_thread g.cnf ≡ 0 = ap (λ b. if b then 1 else 0) d.not_coded in
      let test : (ltb n (rounds g.cnf) || (g.cnf.bytes == 0)) ≡ true = ground (arith, none_more) in
      let next = chunk_round stub cpu ssl buf fwrite n g in
      let goes =
        (chunk_round-Writes stub cpu ssl buf fwrite appends (stub-Complete cpu) n g d.plain
          (ground (arith, d.not_coded))).0 in
      let sent = chunk_round-Sent cpu ssl buf fwrite appends n g d (omega arith) in
      let u : u32 (n + 1) ≡ n + 1 = omega arith in
      let rest =
        chunk_loop-Sent fuel (n + 1) left next.1 (IsDirect-Sent (g.buf_size * 8) g next.1 sent d)
          (rw sent.cnf_same (omega arith)) (rw sent.cnf_same small) (rw sent.cnf_same some_byte)
          (omega arith) in
      let last = (chunk_loop stub cpu ssl buf fwrite fuel (n + 1) next.1).1 in
      let sum : g.buf_size * 8 + left * (next.1.buf_size * 8) ≡ suc left * (g.buf_size * 8) =
        rw sent.size_same (grind arith) in
      rw (loop_step stub cpu (stub-Complete cpu) ssl buf fwrite appends fuel n g test goes, u)
        (subst (λ k. Ones k g last) sum
          (Sent-add (g.buf_size * 8) (left * (next.1.buf_size * 8)) g next.1 last sent rest))

  generate_ending-Sent :
      (enc_buf : ℕ) (g : Generator Ctx)
      → Direct g
      → g.cnf.ending_bytes < 2 ^ 32
      → (generate_ending stub cpu ssl buf fwrite enc_buf g).1.output
        ≡ g.output ++ all_ones g.cnf.ending_bytes
  unfolding generate_ending
  generate_ending-Sent enc_buf g d small =
      let n = g.cnf.ending_bytes in
      let same : (n == n) ≡ true = ground arith in
      let m' = ones enc_buf n g.machine in
      rw
        (
          generate_ending,
          d.plain.method_plain,
          d.not_coded,
          metod_ones cpu enc_buf n g.machine small,
          load_ones enc_buf n g.machine,
          same,
          load_ones buf n m',
          appends g.output 1 (all_ones n),
        )
        refl

  abbrev start : ℕ → ℕ → Cnf → AesCfg Ctx → Machine → Generator Ctx
  start gen_buf1 gen_buf2 c aes m =
      started stub cpu (stub-Complete cpu) ssl buf fwrite appends gen_buf1 gen_buf2 c aes m []

  -- The chunks, and the ending bytes behind them.
  both_parts :
      (fuel enc_buf n : ℕ) (g : Generator Ctx)
      → Direct g
      → g.cnf.ending_bytes < 2 ^ 32
      → g.output ≡ []
      → let g' = (chunk_loop stub cpu ssl buf fwrite fuel 0 g).1 in
        Ones n g g'
        → (generate_ending stub cpu ssl buf fwrite enc_buf g').1.output
          ≡ all_ones (n + g.cnf.ending_bytes)
  both_parts fuel enc_buf n g d small empty sent =
      let g' = (chunk_loop stub cpu ssl buf fwrite fuel 0 g).1 in
      let same = ap (λ c. c.ending_bytes) sent.cnf_same in
      generate_ending-Sent enc_buf g' (IsDirect-Sent n g g' sent d) (omega (arith, same))
      ∙ ap (λ out. out ++ all_ones g'.cnf.ending_bytes)
          (sent.content ∙ ap (λ out. out ++ all_ones n) empty)
      ∙ replicate-append n g'.cnf.ending_bytes 255
      ∙ ap (λ k. all_ones (n + k)) same

  -- In a build with STUB_RDRAND, with a stream that takes every write, by the method `get_bytes` and
  -- without encryption, for `bytes` other than 0 and below 2 ^ 64, between 1 and 16384 threads, and fewer
  -- than 2 ^ 32 chunks (and than the fuel), `generate` ends, returns the number of bytes that were asked
  -- for, and writes that many bytes with all bits set and nothing else: none of its buffers is written
  -- before the threads have filled it.
  pub generate_ones :
      (fuel gen_buf1 gen_buf2 enc_buf : ℕ) (c : Cnf) (aes : AesCfg Ctx) (m : Machine)
      → c.method ≡ get_bytes
      → c.aes_flag ≡ false
      → 0 < c.threads
      → c.threads ≤ 16384
      → 0 < c.bytes
      → c.bytes < 2 ^ 64
      → (compute_chunk_size c).chunk_count < 2 ^ 32
      → (compute_chunk_size c).chunk_count < fuel
      → let r =
          generate stub cpu ssl buf fwrite fuel gen_buf1 gen_buf2 enc_buf
            (compute_chunk_size c)
            aes
            m
            [] in
        (r.1 ≡ true) × (r.0 ≡ c.bytes) × (r.2.output ≡ replicate c.bytes 255)
  generate_ones fuel gen_buf1 gen_buf2 enc_buf c aes m bytes_method no_aes some_thread few some_byte
        fits small enough =
      let c' = compute_chunk_size c in
      let kept = compute_chunk_size-IsKept c in
      let (parts, chunk_small, ending_few) =
        compute_chunk_size-divides c some_thread some_byte fits in
      let off = kept.aes_kept ∙ no_aes in
      let none_more : aes_thread c' ≡ 0 = ap (λ b. if b then 1 else 0) off in
      let amount =
        generate-amount stub cpu (stub-Complete cpu) ssl buf fwrite appends fuel gen_buf1 gen_buf2
          enc_buf c aes m [] bytes_method some_thread few some_byte fits (omega (arith, none_more))
          (omega (arith, none_more)) in
      let g = start gen_buf1 gen_buf2 c' aes m in
      let d : Direct g = record {
        plain = record {
          method_plain = kept.method_kept ∙ bytes_method;
          chunk_small = chunk_small;
          buf_sized = refl;
        };
        not_coded = off;
        at_buf = ap (λ b. if b then gen_buf1 else buf) off;
      } in
      let sent =
        chunk_loop-Sent fuel 0 c'.chunk_count g d (omega arith) small
          (omega (arith, kept.bytes_kept)) enough in
      let one_more : c'.chunk_size + 1 ≤ 2049 = omega arith in
      let few' : c'.threads ≤ 16384 = omega (arith, kept.threads_kept) in
      let ending_small : c'.ending_bytes < 2 ^ 32 =
        omega (arith, ending_few, mul-le-mul one_more few') in
      let chunks = shuffle c'.chunk_size c'.chunk_count c'.threads in
      let sum : c'.chunk_count * (c'.chunk_size * c'.threads * 8) + c'.ending_bytes ≡ c.bytes =
        omega (arith, parts, chunks) in
      unfold generate generate_chunk in
      (
        amount.0,
        amount.1,
        both_parts fuel enc_buf (c'.chunk_count * (g.buf_size * 8)) g d ending_small refl sent
            ∙ ap all_ones sum,
      )
