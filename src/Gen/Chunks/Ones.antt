-- ===== src/Gen/Chunks/Ones.antt =====
-- The rounds of `generate_chunk` in a build with STUB_RDRAND, where every byte that the library
-- generates is 255.
pub mod Output
use rd_rand.Prelude.{
  ℕ, zero, suc, ◌+◌, ◌*◌, ◌/◌, ◌^◌, ◌≤◌, ◌<◌, ◌≡◌, refl, sym, ap, ◌∙◌, subst, arith, true, false,
  ◌||◌, List, [], ◌++◌, append_assoc, append-nil, length, replicate, length-replicate, ltb, lt→ltb,
  if_elim, ◌==◌, if◌then◌else◌,
}
use rd_rand.Cpu.{Cpu, stub}
use rd_rand.Memory.{Machine, store_bytes}
use rd_rand.Arrays.{u32}
use rd_rand.Arrays.Stub.{ones, ones-ones, replicate-append}
use rd_rand.Bytes.Stub.{bytes_retry-Ones}
use rd_rand.Bytes.Complete.{stub-Complete}
use rd_rand.Aes.State.{AesCfg, OpenSsl}
use rd_rand.Aes.Encrypt.{load_bytes}
use rd_rand.Aes.Encrypt.Loads.{load_bytes-stored}
use rd_rand.Gen.Config.{Cnf, get_bytes, compute_chunk_size}
use rd_rand.Gen.Chunks.{
  retry_limit, Generator, Next, generate_with_metod, fill_threads, run_threads, write_chunk,
  finish_chunk, chunk_round, aes_thread, generate_ending, generate_chunk, chunk_loop, generate,
}
use rd_rand.Gen.Chunks.Loop.{rounds, loop_step, loop_end, chunk_loop_all}
use rd_rand.Gen.Chunks.Rounds.{
  Went, IsPlain-Went, chunk_round-Writes, Appends, IsPlain, chunk_round_ends, no_error,
}

abbrev pub all_ones : ℕ → List ℕ
all_ones n = replicate n 255

pub load_ones : (a n : ℕ) (m : Machine) → load_bytes (ones a n m).mem a n ≡ all_ones n
load_ones a n m =
    ap (load_bytes (ones a n m).mem a) (sym (length-replicate n 255))
    ∙ load_bytes-stored m.mem a (all_ones n)

module _ (cpu : Cpu) where
  pub metod_ones :
      (buf n : ℕ) (m : Machine)
      → n < 2 ^ 32
      → generate_with_metod stub cpu get_bytes buf (u32 n) retry_limit m ≡ (n, ones buf n m)
  unfolding generate_with_metod
  metod_ones buf n m small =
      let e : u32 n ≡ n = omega arith in
      let one : 1 * n ≡ n = omega arith in
      rw e (bytes_retry-Ones cpu buf n retry_limit m small ∙ ap (λ k. (n, ones buf k m)) one)

  fill_threads-ones :
      (chunk_size cur left i written : ℕ) (m : Machine)
      → chunk_size ≤ 2048
      → fill_threads stub cpu get_bytes chunk_size cur left i written m ≡ (
        written + chunk_size * left,
        ones (cur + 8 * (i * chunk_size)) (8 * (chunk_size * left)) m,
      )
  unfolding fill_threads
  fill_threads-ones chunk_size cur zero i written m small =
      let none_left : 8 * (chunk_size * 0) ≡ 0 = omega arith in
      let same : written + chunk_size * 0 ≡ written = omega arith in
      rw (none_left, same) (unfold store_bytes in refl)
  fill_threads-ones chunk_size cur (suc left) i written m small =
      let start = cur + 8 * (i * chunk_size) in
      let first = metod_ones start (chunk_size * 8) m (omega arith) in
      let rest = λ (r : ℕ × Machine).
        fill_threads stub cpu get_bytes chunk_size cur left (i + 1) (written + r.0 / 8) r.1 in
      let next : (i + 1) * chunk_size ≡ i * chunk_size + chunk_size = omega arith in
      let more : chunk_size * suc left ≡ chunk_size + chunk_size * left = omega arith in
      let place : cur + 8 * ((i + 1) * chunk_size) ≡ start + chunk_size * 8 = omega (arith, next) in
      let total : chunk_size * 8 + 8 * (chunk_size * left) ≡ 8 * (chunk_size * suc left) =
        omega (arith, more) in
      let counted : written + chunk_size * 8 / 8 + chunk_size * left
          ≡ written + chunk_size * suc left =
        omega (arith, more) in
      ap rest first
      ∙ fill_threads-ones chunk_size cur left (i + 1) (written + chunk_size * 8 / 8)
          (ones start (chunk_size * 8) m) small
      ∙ (λ j. (
        counted j,
        (ap (λ d. ones d (8 * (chunk_size * left)) (ones start (chunk_size * 8) m)) place
              ∙ ones-ones start (chunk_size * 8) (8 * (chunk_size * left)) m
              ∙ ap (λ n. ones start n m) total)
            j,
      ))

  module _ {Ctx : Type 0} (ssl : OpenSsl Ctx) (buf : ℕ) (fwrite : List ℕ → ℕ → List ℕ → ℕ × List ℕ)
      (appends : Appends fwrite) where
    -- Without encryption, and so with one buffer.
    pub record IsDirect (g : Generator Ctx) : Type 0 where
      pub plain : IsPlain g
      pub not_coded : g.cnf.aes_flag ≡ false
      pub at_buf : g.gen_current ≡ buf

    -- From `g` to `g'`, `n` bytes were written, all of them 255.
    pub record Sent (n : ℕ) (g g' : Generator Ctx) : Type 0 where
      pub cnf_same : g'.cnf ≡ g.cnf
      pub size_same : g'.buf_size ≡ g.buf_size
      pub current_same : g'.gen_current ≡ g.gen_current
      pub content : g'.output ≡ g.output ++ all_ones n

    abbrev filled : Generator Ctx → Generator Ctx
    filled g = record g { machine = ones buf (g.buf_size * 8) g.machine }

    run_threads-ones :
        (n : ℕ) (g : Generator Ctx)
        → IsDirect g
        → n < g.cnf.chunk_count
        → (run_threads stub cpu ssl buf fwrite n g).1 ≡ filled g
    unfolding run_threads
    run_threads-ones n g d more =
        let full =
          fill_threads-ones g.cnf.chunk_size g.gen_current g.cnf.threads 0 0 g.machine
            d.plain.chunk_small in
        let place : g.gen_current + 8 * (0 * g.cnf.chunk_size) ≡ buf = omega (arith, d.at_buf) in
        let size : 8 * (g.cnf.chunk_size * g.cnf.threads) ≡ g.buf_size * 8 =
          omega (arith, d.plain.buf_sized) in
        rw
          (
            run_threads,
            d.plain.method_plain,
            d.not_coded,
            lt→ltb n g.cnf.chunk_count more,
            full,
            place,
            size,
          )
          refl

    write_chunk-Sent :
        (g : Generator Ctx)
        → Sent (g.buf_size * 8) g (write_chunk stub cpu ssl buf fwrite (filled g)).1
    unfolding write_chunk
    write_chunk-Sent g =
        let bytes = load_ones buf (g.buf_size * 8) g.machine in
        let long : length (all_ones (g.buf_size * 8)) / 8 ≡ g.buf_size =
          omega (arith, length-replicate {A = ℕ} (g.buf_size * 8) 255) in
        let same : (g.buf_size == g.buf_size) ≡ true = ground arith in
        rw (write_chunk, bytes, appends g.output 8 (all_ones (g.buf_size * 8)), long, same)
          (record { cnf_same = refl; size_same = refl; current_same = refl; content = refl })

    finish_chunk-direct :
        (g : Generator Ctx)
        → g.cnf.aes_flag ≡ false
        → finish_chunk stub cpu ssl buf fwrite g ≡ write_chunk stub cpu ssl buf fwrite g
    unfolding finish_chunk
    finish_chunk-direct g off =
        if_elim {A = Next × Generator Ctx} (λ r. r ≡ write_chunk stub cpu ssl buf fwrite g)
          g.cnf.aes_flag (λ coded. absurd cc) (λ _. refl)

    pub chunk_round-Sent :
        (n : ℕ) (g : Generator Ctx)
        → IsDirect g
        → n < g.cnf.chunk_count
        → Sent (g.buf_size * 8) g (chunk_round stub cpu ssl buf fwrite n g).1
    chunk_round-Sent n g d more =
        let e =
          chunk_round_ends stub cpu ssl buf fwrite appends n g
            (no_error stub cpu ssl buf fwrite appends (stub-Complete cpu) n g d.plain)
          ∙ ap (finish_chunk stub cpu ssl buf fwrite) (run_threads-ones n g d more)
          ∙ finish_chunk-direct (filled g) d.not_coded in
        subst (λ r. Sent (g.buf_size * 8) g r.1) (sym e) (write_chunk-Sent g)
