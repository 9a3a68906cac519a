-- ===== src/Check/Output.antt =====
-- The tests of the encrypted output (check_tests/check_aes.c, lines 383-506), in a build with
-- STUB_RDRAND.
pub mod Passes
pub mod Compare
use rd_rand.Prelude.{
  ℕ, zero, suc, ◌+◌, ◌*◌, Bool, true, not, ◌&&◌, List, [], ◌∷◌, pos, ◌==◌, length, replicate, codes,
}
use rd_rand.Cpu.{Cpu, stub}
use rd_rand.Memory.{Mem, Machine}
use rd_rand.Aes.State.{AesCfg, OpenSsl, max_buffer_size}
use rd_rand.Aes.Keys.{overwrite, zeros, rdrand_set_aes_keys, rdrand_set_aes_random_key}
use rd_rand.Aes.Encrypt.{load_bytes, rdrand_enc_buffer, rdrand_get_bytes_aes_ctr}
use rd_rand.Check.{zeroed, same_memory}
use rd_rand.Check.Demo.{key_hex, nonce_hex, read_hex}

abbrev pub expected_result_hex : List ℕ
expected_result_hex = codes "2c6e98c0f3e667673bb3fe2fb1b2ca4dfb2211f3bdf0231ab266fa8a045f8562"

unfoldable pub expected_result : List ℕ
unfolding read_hex
expected_result = read_hex (zeros 32) expected_result_hex 64 32

-- The first loop of `aes_get_bytes`: no two buffers of MAX_BUFFER_SIZE bytes that follow each other are
-- the same. `left` of the pairs are left.
unfoldable pub different_buffers : Mem → (left p : ℕ) → Bool
unfolding same_memory
different_buffers m zero p = true
different_buffers m (suc left) p =
    not (
      same_memory (load_bytes m p max_buffer_size)
        (load_bytes m (p + max_buffer_size) max_buffer_size) max_buffer_size)
    && different_buffers m left (p + max_buffer_size)

module _ {Ctx : Type 0} (ssl : OpenSsl Ctx) where
  -- One key, with the nonce in the upper half of its 16 bytes.
  unfoldable pub set_test_key : AesCfg Ctx → AesCfg Ctx
  unfolding read_hex
  set_test_key c =
      let key = read_hex (zeros 16) key_hex 32 16 in
      let nonce_counter = read_hex (zeros 16) nonce_hex 16 8 in
      (rdrand_set_aes_keys ssl true true 1 16 (key ∷ []) (nonce_counter ∷ []) c).0

  unfoldable pub aes_enc_buffer : AesCfg Ctx → Bool
  unfolding set_test_key same_memory expected_result
  aes_enc_buffer c =
      let input = replicate 64 255 in
      let e = rdrand_enc_buffer ssl input 32 (set_test_key c) in
      let output = overwrite (zeros 64) e.dest (length e.dest) in
      e.ok && same_memory output expected_result 32

  -- `dst` and `buf` are the addresses of the array and of the local buffer of the function.
  module _ (cpu : Cpu) (buf dst : ℕ) where
    unfoldable pub aes_compare_ecrypt_data : AesCfg Ctx → Machine → Bool
    unfolding set_test_key same_memory expected_result zeroed
    aes_compare_ecrypt_data c m =
        let (got, c1, m1) =
          rdrand_get_bytes_aes_ctr ssl stub cpu buf dst 32 (pos 3) (set_test_key c)
            (zeroed 8192 dst m) in
        let (again, c2, m2) = rdrand_get_bytes_aes_ctr ssl stub cpu buf dst 32 (pos 3) c1 m1 in
        let (more, c3, m3) = rdrand_get_bytes_aes_ctr ssl stub cpu buf dst 8000 (pos 3) c2 m2 in
        got == 32
        && (same_memory (load_bytes m1.mem dst 32) expected_result 32
            && (again == 32 && more == 8000))

    unfoldable pub aes_get_bytes : AesCfg Ctx → Machine → Bool
    unfolding different_buffers same_memory
    aes_get_bytes c m =
        let size : ℕ = max_buffer_size * 50 + 31 in
        let k = (rdrand_set_aes_random_key ssl true true c).0 in
        let (got, k', m') = rdrand_get_bytes_aes_ctr ssl stub cpu buf dst size (pos 3) k m in
        let tail : ℕ → List ℕ = λ i. load_bytes m'.mem (dst + i * max_buffer_size) 31 in
        got == size && (different_buffers m'.mem 49 dst && not (same_memory (tail 49) (tail 50) 31))
