-- ===== src/Tests/Program.antt =====
-- The command line program on a processor that never fails.
use rd_rand.Prelude.{
  inl, ℕ, zero, suc, ◌+◌, ◌-◌, ◌*◌, ◌/◌, ◌^◌, ◌≤◌, ◌<◌, ◌≡◌, ◌≢◌, ◌⊎◌, refl, arith, true, false,
  List, [], ◌∷◌, ◌++◌, length, replicate, none, some,
}
use rd_rand.Cpu.{asm_64, stub}
use rd_rand.Gen.Config.{Cnf, get_bytes, compute_chunk_size, chunk_size_of, size_t}
use rd_rand.Gen.Config.Division.{compute_chunk_size-divides}
use rd_rand.Gen.Chunks.{generate, slow_request}
use rd_rand.Gen.Chunks.Slow.{slow_request_overflows}
use rd_rand.Gen.KeyFile.{load_key_line, e_ok, newline}
use rd_rand.Gen.KeyFile.Line.{to_hex, load_key_line-to_hex}
use rd_rand.Gen.KeyFile.Buffer.{load_key_line_within}
use rd_rand.Aes.Keys.{rdrand_set_aes_keys}
use rd_rand.Arrays.{u32}
use rd_rand.Gen.Chunks.{fill_threads, generate_with_metod, retry_limit}
use rd_rand.Gen.Chunks.Ones.Output.{generate_ones}
use rd_rand.Gen.Chunks.Parts.{thread_parts}
use rd_rand.Gen.KeyFile.Line.{Bytes}
use rd_rand.Gen.LoadKeys.{returns, load_keys}
use rd_rand.Gen.LoadKeys.Written.{key_file, load_keys-Written}
use rd_rand.Tests.Samples.{late, idle, plain_ssl, no_keys}

-- `rdrand-gen -n 1000 -t 2`.
abbrev thousand : Cnf
thousand = record {
  output_filename = none;
  aeskeys_filename = none;
  method = get_bytes;
  help_flag = false;
  version_flag = false;
  verbose_flag = false;
  printed_warning_flag = false;
  aes_flag = false;
  threads = 2;
  bytes = 1000;
  blocks = 0;
  chunk_size = 0;
  chunk_count = 0;
  ending_bytes = 0;
}

abbrev write_all : List ℕ → ℕ → List ℕ → ℕ × List ℕ
write_all file size bytes = (length bytes / size, file ++ bytes)

-- `rdrand-gen -n 1000 -t 2 -a`.
abbrev thousand_encrypted : Cnf
thousand_encrypted = record thousand { aes_flag = true }

one_chunk : (compute_chunk_size thousand).chunk_count ≡ 1
unfolding compute_chunk_size chunk_size_of size_t
one_chunk = refl

generate_ones_example :
    let r =
      generate stub late plain_ssl 100000 write_all 5 200000 300000 400000
        (compute_chunk_size thousand)
        no_keys
        idle
        [] in
    (r.1 ≡ true) × (r.0 ≡ 1000) × (r.2.output ≡ replicate 1000 255)
generate_ones_example =
    generate_ones late plain_ssl 100000 write_all (λ out size bytes. refl) 5 200000 300000 400000
      thousand no_keys idle refl refl (omega arith) (omega arith) (omega arith) (omega arith)
      (omega (arith, one_chunk)) (omega (arith, one_chunk))

compute_chunk_size-divides_example :
    let r = compute_chunk_size thousand in
    (r.chunk_size * r.chunk_count * r.threads * 8 + r.ending_bytes ≡ 1000)
    × (r.chunk_size ≤ 2048)
    × (r.ending_bytes < (r.chunk_size + 1) * r.threads * 8)
compute_chunk_size-divides_example =
    compute_chunk_size-divides thousand (omega arith) (omega arith) (omega arith)

-- A configuration with one thread and full chunks.
abbrev single : Cnf
single = record thousand { threads = 1; chunk_size = 2048 }

slow_request_overflows_example :
    (8 * 2048 < 300 + slow_request single 300) × (2 ^ 32 - 2 ^ 14 ≤ slow_request single 300)
slow_request_overflows_example =
    slow_request_overflows single 300 refl (omega arith) (omega arith) (omega arith)

-- A key of two bytes with a nonce of one, and a line behind.
load_key_line-to_hex_example :
    load_key_line (to_hex (171 ∷ 5 ∷ []) ++ to_hex (255 ∷ []) ++ newline ∷ 48 ∷ []) ≡ record {
      result = e_ok;
      key = 171 ∷ 5 ∷ [];
      key_len = some 2;
      nonce = 255 ∷ [];
      nonce_len = some 1;
      file = 48 ∷ [];
      buf = to_hex (171 ∷ 5 ∷ []) ++ to_hex (255 ∷ []);
    }
load_key_line-to_hex_example =
    load_key_line-to_hex (171 ∷ 5 ∷ []) (255 ∷ []) (48 ∷ []) (omega arith, (omega arith, tt))
      (omega arith, tt) refl (omega arith) (omega arith)

load_key_line_within_example :
    (length (load_key_line (120 ∷ [])).buf ≤ 65)
    × ((length (load_key_line (120 ∷ [])).buf ≤ 64) ⊎ ((load_key_line (120 ∷ [])).result ≢ e_ok))
load_key_line_within_example = load_key_line_within (120 ∷ [])

-- The same, with its chunks.
abbrev encrypted : Cnf
encrypted = record thousand_encrypted { chunk_size = 62; chunk_count = 1 }

-- A key of eight bytes with its nonce.
abbrev one_key : List ℕ × List ℕ
one_key = (replicate 8 200, replicate 4 17)

Bytes-replicate : (b n : ℕ) → b < 256 → Bytes (replicate n b)
Bytes-replicate b zero small = tt
Bytes-replicate b (suc n) small = (small, Bytes-replicate b n small)

load_keys-Written_example :
    load_keys plain_ssl true true (λ k. true) (some (key_file (one_key ∷ []))) no_keys ≡ (
      returns e_ok,
      (rdrand_set_aes_keys plain_ssl true true 1
          (2 * 4)
          (replicate 8 200 ∷ [])
          (replicate 4 17 ∷ [])
          no_keys).0,
    )
load_keys-Written_example =
    load_keys-Written plain_ssl (λ k. true) 4 one_key [] no_keys (λ i. refl) (inl refl)
      (
        (Bytes-replicate 200 8 (omega arith), (Bytes-replicate 17 4 (omega arith), (refl, refl))),
        tt,
      )
      (omega arith)

-- Thread 1 of four, with a chunk of 62 blocks each.
thread_parts_example :
    let before = (fill_threads asm_64 late get_bytes 62 4096 1 0 0 idle).1 in
    let mine =
      generate_with_metod asm_64 late get_bytes
        (4096 + 8 * (1 * 62))
        (u32 (62 * 8))
        retry_limit
        before in
    let all = fill_threads asm_64 late get_bytes 62 4096 4 0 0 idle in
    (mine.0 ≤ 8 * 62)
    × (mine.1.mem 4096 ≡ before.mem 4096)
    × (all.1.mem 4600 ≡ mine.1.mem 4600)
    × (all.1.mem 10000 ≡ idle.mem 10000)
    × (all.0 ≤ 4 * 62)
thread_parts_example =
    thread_parts asm_64 late get_bytes 62 4096 4 1 4600 4096 10000 idle (omega arith) (omega arith)
      (omega arith) (omega arith) (omega arith) (omega arith)
