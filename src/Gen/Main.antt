-- ===== src/Gen/Main.antt =====
-- `main` (src/rdrand-gen.c, lines 828-944). What it prints is left out; files are parameters: whether the
-- output file can be opened, and the content of the key file.
pub mod Exits
use rd_rand.Prelude.{ℕ, Bool, true, false, not, Option, none, some, List, [], if◌then◌else◌, ◌==ℤ◌}
use rd_rand.Cpu.{Cpu, Build}
use rd_rand.Cpu.Support.{Cpuid, rdrand_supported, rdrand_test_support}
use rd_rand.Memory.{Machine}
use rd_rand.Aes.State.{AesCfg, OpenSsl}
use rd_rand.Aes.Keys.{rdrand_set_aes_random_key, rdrand_clean_aes}
use rd_rand.Gen.Config.{Cnf}
use rd_rand.Gen.Arguments.{Opt, Numbers, parse_args, default_config}
use rd_rand.Gen.KeyFile.{
  FileErrors, e_ok, e_eof, e_error, e_key_nonce_bad_length, e_key_invalid_character,
}
use rd_rand.Gen.LoadKeys.{Outcome, exits, overruns, returns, load_keys}
use rd_rand.Gen.Chunks.{Generator, generate}

-- What the program finds around it.
pub record World : Type 0 where
  pub opens : List ℕ → Bool
  pub key_file : Option (List ℕ)
  pub malloc : ℕ → Bool
  pub malloc_keys : Bool
  pub malloc_nonces : Bool
  pub munlock : Bool
  pub stubbed : Bool
  pub cpuid : ℕ → Cpuid

-- The end of the program: EXIT_SUCCESS or not, with AES_CFG, the number of bytes of `generate` if it was
-- called, and the content of the output.
pub record Exit (Ctx : Type 0) : Type 0 where
  pub success : Bool
  pub aes : AesCfg Ctx
  pub generated : Option ℕ
  pub output : List ℕ

-- The `switch` on the result of `load_keys`: whether it ends the program. What the program does after an
-- overrun is not known; here it ends.
unfoldable pub key_error : Outcome → Bool
key_error exits = true
key_error overruns = true
key_error (returns e_ok) = false
key_error (returns e_eof) = false
key_error (returns e_error) = true
key_error (returns e_key_nonce_bad_length) = true
key_error (returns e_key_invalid_character) = true

module _ {Ctx : Type 0} (ssl : OpenSsl Ctx) (w : World) where
  -- Keys from the file, or a random one, whose failure is not looked at.
  unfoldable pub prepare_keys : Cnf → AesCfg Ctx → Bool × AesCfg Ctx
  prepare_keys c aes = elim c.aeskeys_filename [
    | some name ↦
        let (r, aes') = load_keys ssl w.malloc_keys w.malloc_nonces w.malloc w.key_file aes in
        (not (key_error r), aes')
    | none ↦ (true, (rdrand_set_aes_random_key ssl w.malloc_keys w.malloc_nonces aes).0)
  ]

  module _ (build : Build) (cpu : Cpu) (buf : ℕ) (fwrite : List ℕ → ℕ → List ℕ → ℕ × List ℕ)
      (fuel gen_buf1 gen_buf2 enc_buf : ℕ) (m : Machine) where
    -- From the test of the processor on. With STUB_RDRAND the test is left out, and
    -- `rdrand_testSupport` would succeed.
    unfoldable pub run : Cnf → AesCfg Ctx → Exit Ctx
    run c aes =
        let (generated, done, g) =
          generate build cpu ssl buf fwrite fuel gen_buf1 gen_buf2 enc_buf c aes m [] in
        if rdrand_test_support w.stubbed w.cpuid ==ℤ rdrand_supported
        then record {
          success = true;
          aes = if c.aes_flag then rdrand_clean_aes ssl w.munlock g.aes else g.aes;
          generated = some generated;
          output = g.output;
        }
        else record { success = false; aes = aes; generated = none; output = [] }

    -- After the options: the output file, then the keys.
    unfoldable pub start : Cnf → AesCfg Ctx → Exit Ctx
    start c aes =
        let quit : Bool → AesCfg Ctx → Exit Ctx =
          λ success aes'. record { success = success; aes = aes'; generated = none; output = [] } in
        let opened : Bool = elim c.output_filename [ none ↦ true | some name ↦ w.opens name ] in
        let (ready, aes') : Bool × AesCfg Ctx =
          if c.aes_flag then prepare_keys c aes else (true, aes) in
        if c.help_flag
        then quit true aes
        else if c.version_flag
        then quit true aes
        else if not opened
        then quit false aes
        else if not ready
        then quit false aes'
        else run c aes'

    unfoldable pub main : {D : Type 0} → Numbers D → List Opt → AesCfg Ctx → Exit Ctx
    main numbers opts aes = elim (parse_args numbers opts default_config) [
      | none ↦ record { success = false; aes = aes; generated = none; output = [] }
      | some c ↦ start c aes
    ]
