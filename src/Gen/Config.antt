-- ===== src/Gen/Config.antt =====
-- The configuration `cnf_t` (src/rdrand-gen.h, lines 82-138) and `compute_chunk_size`
-- (src/rdrand-gen.c, lines 205-255).
pub mod Division
use rd_rand.Prelude.{
  ℕ, ◌*◌, ◌/◌, ◌%◌, ◌^◌, Bool, true, false, Option, List, if◌then◌else◌, ltb, ◌==◌,
}

pub data Method : Type 0 where
  get_bytes get_reseed64_delay get_reseed64_skip : Method

-- `cnf_t` without the two streams; a name is a byte string, or NULL.
pub record Cnf : Type 0 where
  pub output_filename : Option (List ℕ)
  pub aeskeys_filename : Option (List ℕ)
  pub method : Method
  pub help_flag : Bool
  pub version_flag : Bool
  pub verbose_flag : Bool
  pub printed_warning_flag : Bool
  pub aes_flag : Bool
  pub threads : ℕ
  pub bytes : ℕ
  pub blocks : ℕ
  pub chunk_size : ℕ
  pub chunk_count : ℕ
  pub ending_bytes : ℕ

abbrev pub max_chunk_size : ℕ
max_chunk_size = 2048

-- A product of type `size_t`.
unfoldable pub size_t : ℕ → ℕ
size_t n = n % 2 ^ 64

-- The size of a chunk, in blocks of 64 bits.
unfoldable pub chunk_size_of : (blocks threads : ℕ) → ℕ
chunk_size_of blocks threads =
    let size = blocks / threads in if ltb max_chunk_size size then max_chunk_size else size

-- Where no chunk is filled, `chunk_count` keeps its value; `bytes` is not negative.
unfoldable pub compute_chunk_size : Cnf → Cnf
unfolding size_t chunk_size_of
compute_chunk_size c =
    let blocks = c.bytes / 8 in
    let size = chunk_size_of blocks c.threads in
    let count = blocks / size_t (size * c.threads) in
    let sized = record c { blocks = blocks; chunk_size = size } in
    if ltb 0 c.bytes
    then (if ltb 0 size
        then record sized {
          chunk_count = count;
          ending_bytes = c.bytes % size_t (size * count * c.threads * 8);
        }
        else record sized { ending_bytes = c.bytes })
    else record c { chunk_size = max_chunk_size }
