-- ===== src/Gen/Chunks.antt =====
-- `generate_with_metod`, `generate_chunk`, `generate_ending` and `generate` (src/rdrand-gen.c, lines
-- 426-680). The threads of a round run one after another, as they do without OpenMP and may do with
-- it. `n` and `blocks` are `unsigned int`; the other counts are `size_t`.
pub mod Slow
pub mod Rounds
pub mod Progress
pub mod Ends
pub mod Amount
pub mod Parts
pub mod Threads
pub mod Loop
pub mod Ones
pub mod Sound
use rd_rand.Prelude.{
  ℕ, zero, suc, ◌+◌, ◌-◌, ◌*◌, ◌/◌, ◌^◌, Bool, true, false, not, ◌&&◌, ◌||◌, List, length,
  if◌then◌else◌, ltb, ◌==◌, ℤ, pos,
}
use rd_rand.Cpu.{Cpu, Build}
use rd_rand.Memory.{Mem, Machine, store_bytes}
use rd_rand.Arrays.{u32}
use rd_rand.Bytes.{rdrand_get_bytes_retry}
use rd_rand.Reseed.{rdrand_get_uint64_array_reseed_delay, rdrand_get_uint64_array_reseed_skip}
use rd_rand.Aes.State.{AesCfg, OpenSsl}
use rd_rand.Aes.Encrypt.{load_bytes, rdrand_enc_buffer}
use rd_rand.Gen.Config.{Cnf, Method, get_bytes, get_reseed64_delay, get_reseed64_skip, size_t}

abbrev pub retry_limit : ℤ
retry_limit = pos 10

abbrev pub slow_retry_limit_cycles : ℕ
slow_retry_limit_cycles = 100

abbrev pub slow_retry_limit : ℤ
slow_retry_limit = pos 1000

-- In microseconds.
abbrev pub slow_retry_delay : ℕ
slow_retry_delay = 1000

-- `a - b` on `size_t`.
unfoldable pub size_t_sub : ℕ → ℕ → ℕ
unfolding size_t
size_t_sub a b = size_t (a + 2 ^ 64 - size_t b)

-- What the two generating functions change: the machine, AES_CFG, the configuration, the buffers'
-- roles, the local variables and the content of the output stream.
pub record Generator (Ctx : Type 0) : Type 0 where
  pub machine : Machine
  pub aes : AesCfg Ctx
  pub cnf : Cnf
  pub gen_current : ℕ
  pub gen_previous : ℕ
  pub first_run : Bool
  pub buf_size : ℕ
  pub buf_size_bytes : ℕ
  pub written_total : ℕ
  pub output : List ℕ

-- How an iteration ends: with `n++`, with `n--` before it, or with `break`.
pub data Next : Type 0 where
  next_chunk same_chunk stop : Next

-- The number of bytes that a slow retry asks for, after `written` blocks.
unfoldable pub slow_request : Cnf → ℕ → ℕ
unfolding size_t_sub
slow_request c written = u32 (size_t_sub (c.threads * c.chunk_size) (written * 8))

abbrev pub aes_thread : Cnf → ℕ
aes_thread c = if c.aes_flag then 1 else 0

module _ (build : Build) (cpu : Cpu) where
  unfoldable pub generate_with_metod : Method → (buf blocks : ℕ) → ℤ → Machine → ℕ × Machine
  generate_with_metod get_bytes buf blocks retry m =
      rdrand_get_bytes_retry build cpu buf blocks retry m
  generate_with_metod get_reseed64_delay buf blocks retry m =
      let (n, m') = rdrand_get_uint64_array_reseed_delay build cpu buf (blocks / 8) retry m in
      (n * 8, m')
  generate_with_metod get_reseed64_skip buf blocks retry m =
      let (n, m') = rdrand_get_uint64_array_reseed_skip build cpu buf (blocks / 8) retry m in
      (n * 8, m')

  -- The loop over the generating threads; `left` of them are left, and `i` are done.
  unfoldable pub fill_threads :
      Method → (chunk_size gen_current left i written : ℕ) → Machine → ℕ × Machine
  fill_threads method chunk_size gen_current zero i written m = (written, m)
  fill_threads method chunk_size gen_current (suc left) i written m =
      let (got, m') =
        generate_with_metod method (gen_current + 8 * (i * chunk_size)) (u32 (chunk_size * 8))
          retry_limit m in
      fill_threads method chunk_size gen_current left (i + 1) (written + got / 8) m'

  -- The `while` loop of slow retries; `left` is SLOW_RETRY_LIMIT_CYCLES less the retries made.
  unfoldable pub slow_loop : Cnf → (gen_current buf_size left written : ℕ) → Machine → ℕ × Machine
  slow_loop c gen_current buf_size zero written m = (written, m)
  slow_loop c gen_current buf_size (suc left) written m =
      let retry = slow_retry_limit_cycles - left in
      let rested = record m { slept = m.slept + retry * slow_retry_delay } in
      let (got, m') =
        generate_with_metod c.method (gen_current + written) (slow_request c written)
          slow_retry_limit rested in
      let rest = slow_loop c gen_current buf_size left (written + got / 8) m' in
      if written == buf_size then (written, m) else rest

  module _ {Ctx : Type 0} (ssl : OpenSsl Ctx) (buf : ℕ)
      (fwrite : List ℕ → ℕ → List ℕ → ℕ × List ℕ) where
    -- The encrypting thread. `buf_size_bytes` stays as it was at first.
    unfoldable pub encrypt_previous : Generator Ctx → Generator Ctx
    encrypt_previous g =
        let len = g.buf_size_bytes in
        let e = rdrand_enc_buffer ssl (load_bytes g.machine.mem g.gen_previous len) len g.aes in
        record g {
          aes = e.cfg;
          machine = record (g.machine) { mem = store_bytes g.machine.mem buf e.dest };
        }

    -- All threads of iteration `n`: the number of blocks, and the state.
    unfoldable pub run_threads : ℕ → Generator Ctx → ℕ × Generator Ctx
    run_threads n g =
        let c = g.cnf in
        let (written, m') =
          fill_threads c.method c.chunk_size g.gen_current c.threads 0 0 g.machine in
        let (written', filled) : ℕ × Generator Ctx =
          if ltb n c.chunk_count || (c.bytes == 0)
          then (written, record g { machine = m' })
          else (0, g) in
        if c.aes_flag && not g.first_run
        then (written', encrypt_previous filled)
        else (written', filled)

    -- `fwrite` of the buffer, and the test of its result.
    unfoldable pub write_chunk : Generator Ctx → Next × Generator Ctx
    write_chunk g =
        let (written, output) = fwrite g.output 8 (load_bytes g.machine.mem buf (g.buf_size * 8)) in
        let counted = record g { written_total = g.written_total + written; output = output } in
        if written == g.buf_size then (next_chunk, counted) else (stop, counted)

    -- After a round without errors: with AES the buffers are swapped, and the first round writes
    -- nothing.
    unfoldable pub finish_chunk : Generator Ctx → Next × Generator Ctx
    finish_chunk g =
        let swapped = record g { gen_current = g.gen_previous; gen_previous = g.gen_current } in
        if g.cnf.aes_flag
        then (if g.first_run
            then (next_chunk, record swapped { first_run = false })
            else write_chunk swapped)
        else write_chunk g

    -- Too few blocks, and a single thread: slow retries.
    unfoldable pub retry_slowly : ℕ → Generator Ctx → Next × Generator Ctx
    retry_slowly written g =
        let (written', m') =
          slow_loop g.cnf g.gen_current g.buf_size slow_retry_limit_cycles written g.machine in
        let retried = record g {
          machine = m';
          cnf = record (g.cnf) { printed_warning_flag = true };
        } in
        if written' == g.buf_size then finish_chunk retried else (stop, retried)

    -- Too few blocks, and several threads: one thread less.
    unfoldable pub lower_threads : Generator Ctx → Generator Ctx
    lower_threads g = record g {
      cnf = record (g.cnf) { threads = g.cnf.threads - 1 };
      buf_size = g.buf_size - g.cnf.chunk_size;
    }

    unfoldable pub chunk_round : ℕ → Generator Ctx → Next × Generator Ctx
    chunk_round n g =
        let (written, g') = run_threads n g in
        if not (written == g'.buf_size) && ltb n g'.cnf.chunk_count
        then (if g'.cnf.threads == 1
            then retry_slowly written g'
            else (same_chunk, lower_threads g'))
        else finish_chunk g'

    -- The `for` loop, which ends in no other way than by its test, by `break`, or by the fuel. The
    -- Boolean is false where the fuel is too little.
    unfoldable pub chunk_loop : (fuel n : ℕ) → Generator Ctx → Bool × Generator Ctx
    chunk_loop zero n g = (false, g)
    chunk_loop (suc fuel) n g =
        let (next, g') = chunk_round n g in
        let rest = chunk_loop fuel (elim next [ next_chunk ↦ u32 (n + 1) | _ ↦ n ]) g' in
        let c = g.cnf in
        if ltb n (c.chunk_count + aes_thread c) || (c.bytes == 0)
        then elim next [ stop ↦ (true, g') | _ ↦ rest ]
        else (true, g)

    -- The result of `generate_chunk` is `written_total * 8`.
    unfoldable pub generate_chunk :
        (fuel gen_buf1 gen_buf2 : ℕ) → Cnf → AesCfg Ctx → Machine → List ℕ → Bool × Generator Ctx
    generate_chunk fuel gen_buf1 gen_buf2 c aes m output = chunk_loop fuel 0 (record {
      machine = m;
      aes = aes;
      cnf = c;
      gen_current = if c.aes_flag then gen_buf1 else buf;
      gen_previous = gen_buf2;
      first_run = true;
      buf_size = c.chunk_size * c.threads;
      buf_size_bytes = c.chunk_size * c.threads * 8;
      written_total = 0;
      output = output;
    })

    -- `enc_buf` is the address of the second buffer, from which the bytes are encrypted, or copied,
    -- to `buf`. A failure of the encryption is only reported.
    unfoldable pub generate_ending : (enc_buf : ℕ) → Generator Ctx → ℕ × Generator Ctx
    generate_ending enc_buf g =
        let n = g.cnf.ending_bytes in
        let (got, m') = generate_with_metod g.cnf.method enc_buf (u32 n) retry_limit g.machine in
        let bytes = load_bytes m'.mem enc_buf n in
        let e = rdrand_enc_buffer ssl bytes n g.aes in
        let (aes, out) = if g.cnf.aes_flag then (e.cfg, e.dest) else (g.aes, bytes) in
        let mem = store_bytes m'.mem buf out in
        let (written, output) = fwrite g.output 1 (load_bytes mem buf n) in
        if not (got == n)
        then (got, record g { machine = m' })
        else (written, record g { machine = record m' { mem = mem }; aes = aes; output = output })

    -- The result is the first component; the Boolean is that of `generate_chunk`.
    unfoldable pub generate :
        (fuel gen_buf1 gen_buf2 enc_buf : ℕ)
        → Cnf
        → AesCfg Ctx
        → Machine
        → List ℕ
        → ℕ × Bool × Generator Ctx
    generate fuel gen_buf1 gen_buf2 enc_buf c aes m output =
        let (done, g) = generate_chunk fuel gen_buf1 gen_buf2 c aes m output in
        let (ending, g') = generate_ending enc_buf g in (g.written_total * 8 + ending, done, g')
