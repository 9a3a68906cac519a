-- ===== src/Gen/Chunks/Slow.antt =====
-- What a slow retry of `generate_chunk` asks for.
use rd_rand.Prelude.{ℕ, ◌+◌, ◌-◌, ◌*◌, ◌^◌, ◌≤◌, ◌<◌, ◌≡◌, arith}
use rd_rand.Gen.Config.{Cnf, size_t}
use rd_rand.Gen.Chunks.{size_t_sub, slow_request}

-- With one thread, once more than an eighth of the blocks of a chunk is there, a slow retry asks
-- for bytes beyond the end of the buffer: from `written` bytes on, for more than the
-- `8 * chunk_size` bytes that the buffer has, and for 2 ^ 32 - 2 ^ 14 bytes at least.
pub slow_request_overflows :
    (c : Cnf) (written : ℕ)
    → c.threads ≡ 1
    → c.chunk_size ≤ 2048
    → written ≤ c.chunk_size
    → c.chunk_size < written * 8
    → (8 * c.chunk_size < written + slow_request c written)
      × (2 ^ 32 - 2 ^ 14 ≤ slow_request c written)
unfolding slow_request size_t_sub size_t
slow_request_overflows c written one_thread small within past =
    let e : c.threads * c.chunk_size ≡ c.chunk_size = rw one_thread (omega arith) in
    rw (slow_request, e) (omega arith)
