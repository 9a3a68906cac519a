-- ===== src/Aes/Encrypt.antt =====
-- `rdrand_enc_buffer` and `rdrand_get_bytes_aes_ctr` (src/librdrand-aes.c, lines 335-466).
pub mod Whole
pub mod Defined
pub mod Generate
pub mod Loads
use rd_rand.Prelude.{
  ℕ, zero, suc, ◌+◌, ◌*◌, ◌/◌, ◌%◌, Bool, true, false, not, List, [], ◌∷◌, ◌++◌, if◌then◌else◌,
  ◌==◌, ℤ, take, drop,
}
use rd_rand.Cpu.{Cpu, Build}
use rd_rand.Memory.{Mem, Machine, store_bytes}
use rd_rand.Bytes.{rdrand_get_bytes_retry}
use rd_rand.Aes.State.{AesCfg, OpenSsl, max_buffer_size}
use rd_rand.Aes.Change.{counter}

-- The state and result of `rdrand_enc_buffer`; `dest` is what it has stored from `dest` on.
pub record Encrypted (Ctx : Type 0) : Type 0 where
  pub cfg : AesCfg Ctx
  pub ok : Bool
  pub dest : List ℕ

-- The `n` bytes from an address on.
unfoldable pub load_bytes : Mem → ℕ → ℕ → List ℕ
load_bytes m a zero = []
load_bytes m a (suc n) = m a ∷ load_bytes m (a + 1) n

module _ {Ctx : Type 0} (ssl : OpenSsl Ctx) where
  -- One call of EVP_EncryptUpdate on the next `n` bytes of `src`.
  unfoldable pub enc_part : ℕ → List ℕ → List ℕ → AesCfg Ctx → Encrypted Ctx
  enc_part n src dest c =
      let (out, en, ok) = ssl.encrypt_update c.en (take n src) in
      record { cfg = record c { en = en }; ok = ok; dest = if ok then dest ++ out else dest }

  -- The chunks that are left, with the source behind those done, and then the tail.
  unfoldable pub enc_loop : ℕ → ℕ → List ℕ → List ℕ → AesCfg Ctx → Encrypted Ctx
  unfolding enc_part
  enc_loop tail zero src dest c =
      if tail == 0 then record { cfg = c; ok = true; dest = dest } else enc_part tail src dest c
  enc_loop tail (suc chunks) src dest c =
      let (c', changed) = counter ssl max_buffer_size c in
      let e = enc_part max_buffer_size src dest c' in
      let rest = enc_loop tail chunks (drop max_buffer_size src) e.dest e.cfg in
      if not changed
      then record { cfg = c'; ok = false; dest = dest }
      else if not e.ok
      then e
      else rest

  unfoldable pub rdrand_enc_buffer : List ℕ → ℕ → AesCfg Ctx → Encrypted Ctx
  unfolding enc_loop
  rdrand_enc_buffer src len c = enc_loop (len % max_buffer_size) (len / max_buffer_size) src [] c

  module _ (build : Build) (cpu : Cpu) (buf : ℕ) where
    -- The result, AES_CFG and the machine.
    abbrev pub Generated : Type 0
    Generated = ℕ × AesCfg Ctx × Machine

    -- `n` bytes into the local buffer at address `buf`, encrypted and copied to `dest`. The cipher
    -- gives as many bytes as it is given, so the `n` bytes that are copied are its output. The
    -- Boolean is false where the function returns early.
    unfoldable pub generate_part :
        (n dest : ℕ) → ℤ → AesCfg Ctx → Machine → Bool × AesCfg Ctx × Machine
    generate_part n dest retry_limit c m =
        let (c', _) = counter ssl n c in
        let (got, m') = rdrand_get_bytes_retry build cpu buf n retry_limit m in
        let (out, en, ok) = ssl.encrypt_update c'.en (load_bytes m'.mem buf n) in
        if not (got == n)
        then (false, c', m')
        else if not ok
        then (false, record c' { en = en }, m')
        else (true, record c' { en = en }, record m' { mem = store_bytes m'.mem dest (take n out) })

    unfoldable pub generate_tail : ℕ → ℕ → ℕ → ℤ → AesCfg Ctx → Machine → Generated
    generate_tail tail dest generated retry_limit c m =
        let (done, c', m') = generate_part tail dest retry_limit c m in
        if tail == 0
        then (generated, c, m)
        else if done
        then (generated + tail, c', m')
        else (generated, c', m')

    -- The full buffers that are left, and then the tail.
    unfoldable pub generate_loop : ℕ → ℕ → ℕ → ℕ → ℤ → AesCfg Ctx → Machine → Generated
    generate_loop tail zero dest generated retry_limit c m =
        generate_tail tail dest generated retry_limit c m
    generate_loop tail (suc buffers) dest generated retry_limit c m =
        let (done, c', m') = generate_part max_buffer_size dest retry_limit c m in
        let rest =
          generate_loop tail buffers (dest + max_buffer_size) (generated + max_buffer_size)
            retry_limit c' m' in
        if done then rest else (generated, c', m')

    unfoldable pub rdrand_get_bytes_aes_ctr :
        (dest count : ℕ) → ℤ → AesCfg Ctx → Machine → Generated
    rdrand_get_bytes_aes_ctr dest count retry_limit c m =
        generate_loop (count % max_buffer_size) (count / max_buffer_size) dest 0 retry_limit c m
