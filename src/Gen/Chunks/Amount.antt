-- ===== src/Gen/Chunks/Amount.antt =====
-- How many bytes `generate` yields with a processor on which RDRAND never fails.
use rd_rand.Prelude.{
  ℕ, ◌+◌, ◌*◌, ◌/◌, ◌^◌, ◌≤◌, ◌<◌, ◌≡◌, refl, ap, ◌∙◌, arith, true, List, length, length-append,
  if◌then◌else◌, ◌==◌,
}
use native.Mathlib.Nat.{mul-le-mul}
use rd_rand.Cpu.{Cpu, Build}
use rd_rand.Memory.{Mem, Machine, store_bytes}
use rd_rand.Arrays.{u32}
use rd_rand.Bytes.Complete.{Complete}
use rd_rand.Aes.State.{AesCfg, OpenSsl}
use rd_rand.Aes.Encrypt.{load_bytes, rdrand_enc_buffer}
use rd_rand.Aes.Encrypt.Loads.{length-load_bytes}
use rd_rand.Gen.Config.{Cnf, get_bytes, compute_chunk_size}
use rd_rand.Gen.Config.Division.{compute_chunk_size-divides, compute_chunk_size-IsKept, shuffle}
use rd_rand.Gen.Chunks.{
  retry_limit, Generator, generate_with_metod, chunk_loop, generate_chunk, generate_ending,
  generate,
}
use rd_rand.Gen.Chunks.Threads.{metod_full}
use rd_rand.Gen.Chunks.Rounds.{Appends, IsPlain, IsPlain-Went}
use rd_rand.Gen.Chunks.Loop.{rounds, chunk_loop_all}

module _ (build : Build) (cpu : Cpu) (complete : Complete build cpu) {Ctx : Type 0}
    (ssl : OpenSsl Ctx) (buf : ℕ) (fwrite : List ℕ → ℕ → List ℕ → ℕ × List ℕ)
    (appends : Appends fwrite) where
  -- The start of `generate_chunk`.
  abbrev pub started : ℕ → ℕ → Cnf → AesCfg Ctx → Machine → List ℕ → Generator Ctx
  started gen_buf1 gen_buf2 c aes m output = record {
    machine = m;
    aes = aes;
    cnf = c;
    gen_current = if c.aes_flag then gen_buf1 else buf;
    gen_previous = gen_buf2;
    first_run = true;
    buf_size = c.chunk_size * c.threads;
    buf_size_bytes = c.chunk_size * c.threads * 8;
    written_total = 0;
    output = output;
  }

  generate_ending-full :
      (enc_buf : ℕ) (g : Generator Ctx)
      → IsPlain g
      → g.cnf.ending_bytes < 2 ^ 32
      → let r = generate_ending build cpu ssl buf fwrite enc_buf g in
        (r.0 ≡ g.cnf.ending_bytes) × (length r.1.output ≡ length g.output + g.cnf.ending_bytes)
  unfolding generate_ending
  generate_ending-full enc_buf g plain small =
      let n = g.cnf.ending_bytes in
      let same : (n == n) ≡ true = ground arith in
      let m' = (generate_with_metod build cpu get_bytes enc_buf (u32 n) retry_limit g.machine).1 in
      let bytes = load_bytes m'.mem enc_buf n in
      let e = rdrand_enc_buffer ssl bytes n g.aes in
      let final : AesCfg Ctx × List ℕ =
        if g.cnf.aes_flag then (e.cfg, e.dest) else (g.aes, bytes) in
      let mem : Mem = store_bytes m'.mem buf final.1 in
      let long = length-load_bytes mem buf n in
      let all : length (load_bytes mem buf n) / 1 ≡ n = omega (arith, long) in
      rw
        (
          generate_ending,
          plain.method_plain,
          metod_full build cpu complete enc_buf n g.machine small,
          same,
          appends g.output 1 (load_bytes mem buf n),
        )
        (all, omega (arith, length-append g.output (load_bytes mem buf n), long))

  pub generate-amount :
      (fuel gen_buf1 gen_buf2 enc_buf : ℕ) (c : Cnf) (aes : AesCfg Ctx) (m : Machine)
      (output : List ℕ)
      → c.method ≡ get_bytes
      → 0 < c.threads
      → c.threads ≤ 16384
      → 0 < c.bytes
      → c.bytes < 2 ^ 64
      → rounds (compute_chunk_size c) < 2 ^ 32
      → rounds (compute_chunk_size c) < fuel
      → let r =
          generate build cpu ssl buf fwrite fuel gen_buf1 gen_buf2 enc_buf
            (compute_chunk_size c)
            aes
            m
            output in
        (r.1 ≡ true) × (r.0 ≡ c.bytes) × (length r.2.output ≡ length output + c.bytes)
  generate-amount fuel gen_buf1 gen_buf2 enc_buf c aes m output bytes_method some_thread few
        some_byte fits small enough =
      let c' = compute_chunk_size c in
      let (parts, chunk_small, ending_few) =
        compute_chunk_size-divides c some_thread some_byte fits in
      let kept = compute_chunk_size-IsKept c in
      let g = started gen_buf1 gen_buf2 c' aes m output in
      let plain : IsPlain g = record {
        method_plain = kept.method_kept ∙ bytes_method;
        chunk_small = chunk_small;
        buf_sized = refl;
      } in
      let loop =
        chunk_loop_all build cpu complete ssl buf fwrite appends fuel g plain refl small
          (omega (arith, kept.bytes_kept)) enough in
      let g' = (chunk_loop build cpu ssl buf fwrite fuel 0 g).1 in
      let same = ap (λ d. d.ending_bytes) loop.1.cnf_same in
      let one_more : c'.chunk_size + 1 ≤ 2049 = omega arith in
      let few' : c'.threads ≤ 16384 = omega (arith, kept.threads_kept) in
      let ending_small : g'.cnf.ending_bytes < 2 ^ 32 =
        omega (arith, same, ending_few, mul-le-mul one_more few') in
      let ending =
        generate_ending-full enc_buf g' (IsPlain-Went _ g g' loop.1 plain) ending_small in
      let chunks = shuffle c'.chunk_size c'.chunk_count c'.threads in
      unfold generate generate_chunk in
      (
        loop.0,
        omega (arith, loop.1.total, ending.0, same, parts, chunks),
        omega (arith, loop.1.put_out, ending.1, same, parts, chunks),
      )
