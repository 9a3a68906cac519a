-- ===== src/Gen/Main/Exits.antt =====
-- A run of the program from its options to its output.
use rd_rand.Prelude.{
  ℕ, ◌^◌, ◌≤◌, ◌<◌, ◌≡◌, Bool, true, false, some, List, [], length, if◌then◌else◌,
}
use rd_rand.Cpu.{Cpu, Build}
use rd_rand.Cpu.Support.{rdrand_supported, rdrand_test_support}
use rd_rand.Memory.{Machine}
use rd_rand.Arrays.Full.{NeverFails}
use rd_rand.Aes.State.{AesCfg, OpenSsl, live}
use rd_rand.Aes.Invariant.{IsLawful, IsReady}
use rd_rand.Gen.Config.{Cnf, get_bytes, compute_chunk_size}
use rd_rand.Gen.Chunks.Rounds.{Appends}
use rd_rand.Gen.Chunks.Loop.{rounds}
use rd_rand.Gen.Chunks.{Generator, generate}
use rd_rand.Gen.Main.{World, Exit, prepare_keys}

-- A configuration of the default method, with bytes to generate.
pub record Plain (fuel : ℕ) (c : Cnf) : Type 0 where
  pub no_help : c.help_flag ≡ false
  pub no_version : c.version_flag ≡ false
  pub bytes_method : c.method ≡ get_bytes
  pub some_byte : 0 < c.bytes
  pub bytes_fit : c.bytes < 2 ^ 64
  pub chunks_fit : rounds c < 2 ^ 32
  pub fuel_enough : rounds c < fuel

-- The keys for encryption: `prepare_keys` lets the program go on, and has set them.
pub record Keys {Ctx : Type 0} (r : Bool × AesCfg Ctx) : Type 0 where
  pub goes_on : r.0 ≡ true
  pub ready : IsReady r.1
  pub sound : r.1.crashed ≡ false
  pub held : r.1.context ≡ live

module _ (build : Build) (cpu : Cpu) (never : NeverFails cpu) {Ctx : Type 0} (ssl : OpenSsl Ctx)
    (law : IsLawful ssl) (w : World) (buf : ℕ) (fwrite : List ℕ → ℕ → List ℕ → ℕ × List ℕ)
    (appends : Appends fwrite) (fuel gen_buf1 gen_buf2 enc_buf : ℕ) (m : Machine)
    (opens : (name : List ℕ) → w.opens name ≡ true)
    (supported : rdrand_test_support w.stubbed w.cpuid ≡ rdrand_supported) where
  abbrev Delivers : Cnf → Exit Ctx → Type 0
  Delivers c e =
      (e.success ≡ true)
      × (e.generated ≡ some c.bytes)
      × (length e.output ≡ c.bytes)
      × (e.aes.crashed ≡ false)

  module _ (c' : Cnf) (aes : AesCfg Ctx) (sound : aes.crashed ≡ false)
      (keys : c'.aes_flag ≡ true → IsReady aes × (aes.context ≡ live))
      (plain : Plain fuel (compute_chunk_size c'))
      (some_thread : 0 < (compute_chunk_size c').threads)
      (few : (compute_chunk_size c').threads ≤ 16384) where
    abbrev made : ℕ × Bool × Generator Ctx
    made =
        generate build cpu ssl buf fwrite fuel gen_buf1 gen_buf2 enc_buf (compute_chunk_size c') aes
          m []

  -- The keys, where encryption is asked for.
  abbrev prepared : Cnf → AesCfg Ctx → Bool × AesCfg Ctx
  prepared c aes = if c.aes_flag then prepare_keys ssl w c aes else (true, aes)
