-- ===== src/Gen/Chunks/Ends.antt =====
-- The loop of `generate_chunk` ends.
use rd_rand.Prelude.{ℕ, ◌+◌, Bool, ◌||◌, List, ltb, ◌==◌}
use rd_rand.Cpu.{Cpu, Build}
use rd_rand.Aes.State.{OpenSsl}
use rd_rand.Gen.Chunks.{Generator, Next, chunk_round, aes_thread, chunk_loop}

module _ {Ctx : Type 0} where
  module _ (build : Build) (cpu : Cpu) (ssl : OpenSsl Ctx) (buf : ℕ)
      (fwrite : List ℕ → ℕ → List ℕ → ℕ × List ℕ) where
    abbrev loop : ℕ → ℕ → Generator Ctx → Bool × Generator Ctx
    loop = chunk_loop build cpu ssl buf fwrite

    module _ (fuel n : ℕ) (g : Generator Ctx) where
      abbrev test : Bool
      test = ltb n (g.cnf.chunk_count + aes_thread g.cnf) || (g.cnf.bytes == 0)

      abbrev r : Next × Generator Ctx
      r = chunk_round build cpu ssl buf fwrite n g
