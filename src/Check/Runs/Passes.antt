-- ===== src/Check/Runs/Passes.antt =====
-- The tests of the key file and of the output pass.
use rd_rand.Prelude.{
  ℕ, ◌<◌, ◌^◌, ◌≡◌, refl, ap, ◌∙◌, arith, Bool, true, false, none, some, Option, List, [], ◌∷◌,
  ◌==◌, codes,
}
use rd_rand.Cpu.{Cpu, stub}
use rd_rand.Cpu.Support.{Cpuid, rdrand_test_support}
use rd_rand.Memory.{Machine}
use rd_rand.Bytes.Complete.{stub-Complete}
use rd_rand.Aes.State.{AesCfg, OpenSsl}
use rd_rand.Aes.Keys.{rdrand_set_aes_keys, keys_allocate, copy_all, key_to_openssl}
use rd_rand.Aes.Power.{is_power_of_two}
use rd_rand.Gen.KeyFile.{
  load_key_line, hex_digit, scan_byte, scan_bytes, is_hex, finish_line, scan_line, divide_line,
  hex_to_byte,
}
use rd_rand.Gen.LoadKeys.{load_keys, load_loop, use_keys, add_line, bad_key, ends}
use rd_rand.Gen.Config.{Cnf, compute_chunk_size}
use rd_rand.Gen.Arguments.{
  Numbers, Opt, opt_amount, opt_threads, parse_args, parse_opts, parse_opt, finish_args,
  parse_amount, default_config,
}
use rd_rand.Gen.Chunks.{generate}
use rd_rand.Gen.Chunks.Rounds.{Appends}
use rd_rand.Gen.Chunks.Loop.{rounds}
use rd_rand.Gen.Chunks.Amount.{generate-amount}
use rd_rand.Check.Options.Passes.{
  Reads, ReadsTexts, amount_whole, threads_one, options_suite-passes,
}
use rd_rand.Check.Runs.{
  keys_file, keys_read_line, keys_open_file, run_amount, run_amount_generation_16,
  run_amount_generation_5, run_amount_generation_20k, run_suite, check_rdrand_gen,
}

read_line-passes : keys_read_line keys_file ≡ true
unfolding keys_read_line load_key_line finish_line scan_line is_hex divide_line hex_to_byte
    scan_bytes scan_byte hex_digit
read_line-passes = refl

module _ {Ctx : Type 0} (ssl : OpenSsl Ctx) where
  open_file-passes : (c : AesCfg Ctx) → keys_open_file ssl keys_file c ≡ true
  unfolding keys_open_file load_keys load_loop use_keys add_line bad_key ends load_key_line
      rdrand_set_aes_keys keys_allocate copy_all key_to_openssl is_power_of_two finish_line
      scan_line is_hex divide_line hex_to_byte scan_bytes scan_byte hex_digit
  open_file-passes c = refl

  module _ {D : Type 0} (numbers : Numbers D) where
    -- What is asked of strtod and strtoul on the arguments of the runs.
    pub record ReadsRuns : Type 0 where
      pub one_read : (numbers.strtoul (codes "1")).nothing_read ≡ false
      pub one_in_range : (numbers.strtoul (codes "1")).erange ≡ false
      pub one_rest : (numbers.strtoul (codes "1")).rest ≡ []
      pub one_value : (numbers.strtoul (codes "1")).value ≡ 1
      pub sixteen : Reads numbers (codes "16") []
      pub sixteen_floor : numbers.floor (numbers.strtod (codes "16")).value ≡ 16
      pub five : Reads numbers (codes "5") []
      pub five_floor : numbers.floor (numbers.strtod (codes "5")).value ≡ 5
      pub many : Reads numbers (codes "20000") []
      pub many_floor : numbers.floor (numbers.strtod (codes "20000")).value ≡ 20000

    abbrev asked : ℕ → Cnf
    asked bytes = record default_config { threads = 1; bytes = bytes }

    parse_opts-cons :
        (o : Opt) (opts : List Opt) (c c' : Cnf)
        → parse_opt numbers o c ≡ some c'
        → parse_opts numbers (o ∷ opts) c ≡ parse_opts numbers opts c'
    unfolding parse_opts
    parse_opts-cons o opts c c' e =
        let go : Option Cnf → Option Cnf =
          λ r. elim r [ none ↦ none | some d ↦ parse_opts numbers opts d ] in
        ap go e

    parse_opts-nil : (c : Cnf) → parse_opts numbers [] c ≡ some c
    unfolding parse_opts
    parse_opts-nil c = refl

    one_thread :
        ReadsRuns
        → parse_opt numbers (opt_threads (codes "1")) default_config
          ≡ some (record default_config { threads = 1 })
    unfolding parse_opt
    one_thread r = rw (
      threads_one numbers (codes "1") r.one_read r.one_in_range r.one_rest r.one_value,
      parse_opt,
    )

    amount_next :
        (text : List ℕ) (bytes : ℕ)
        → parse_amount numbers text ≡ some bytes
        → parse_opt numbers (opt_amount text) (record default_config { threads = 1 })
          ≡ some (asked bytes)
    unfolding parse_opt
    amount_next text bytes e = rw (e, parse_opt)

    config :
        (text : List ℕ) (bytes : ℕ)
        → ReadsRuns
        → parse_amount numbers text ≡ some bytes
        → parse_args numbers (opt_threads (codes "1") ∷ opt_amount text ∷ []) default_config
          ≡ some (compute_chunk_size (asked bytes))
    unfolding parse_args finish_args
    config text bytes r e =
        let go : Option Cnf → Option Cnf =
          λ o. elim o [ none ↦ none | some c ↦ finish_args numbers c ] in
        ap go (
          parse_opts-cons (opt_threads (codes "1")) (opt_amount text ∷ []) _ _ (one_thread r)
          ∙ parse_opts-cons (opt_amount text) [] _ _ (amount_next text bytes e)
          ∙ parse_opts-nil (asked bytes))

    module _ (cpu : Cpu) (fwrite : List ℕ → ℕ → List ℕ → ℕ × List ℕ) (appends : Appends fwrite)
        (fuel buf gen_buf1 gen_buf2 enc_buf : ℕ) (aes : AesCfg Ctx) (m : Machine) where
      run_amount-passes :
          (text : List ℕ) (bytes : ℕ)
          → ReadsRuns
          → parse_amount numbers text ≡ some bytes
          → 0 < bytes
          → bytes < 2 ^ 64
          → rounds (compute_chunk_size (asked bytes)) < 2 ^ 32
          → rounds (compute_chunk_size (asked bytes)) < fuel
          → run_amount ssl numbers cpu fwrite fuel buf gen_buf1 gen_buf2 enc_buf aes m text bytes
            ≡ true
      unfolding run_amount
      run_amount-passes text bytes r e some_byte fits few enough =
          let returned : Cnf → ℕ =
            λ c. (generate stub cpu ssl buf fwrite fuel gen_buf1 gen_buf2 enc_buf c aes m []).0 in
          let test : Option Cnf → Bool =
            λ o. elim o [ none ↦ false | some c ↦ returned c == bytes ] in
          let amount =
            generate-amount stub cpu (stub-Complete cpu) ssl buf fwrite appends fuel gen_buf1
              gen_buf2 enc_buf (asked bytes) aes m [] refl (omega arith) (omega arith) some_byte
              fits few enough in
          ap test (config text bytes r e) ∙ ap (λ n. n == bytes) amount.1 ∙ (ground arith)

      chunks_16 : rounds (compute_chunk_size (asked 16)) ≡ 1
      unfolding compute_chunk_size
      chunks_16 = refl

      chunks_5 : rounds (compute_chunk_size (asked 5)) ≡ 0
      unfolding compute_chunk_size
      chunks_5 = refl

      chunks_20000 : rounds (compute_chunk_size (asked 20000)) ≡ 1
      unfolding compute_chunk_size
      chunks_20000 = refl

      run_suite-passes :
          ReadsRuns
          → 1 < fuel
          → run_suite ssl numbers cpu fwrite fuel buf gen_buf1 gen_buf2 enc_buf aes m ≡ true
      unfolding run_suite run_amount_generation_16 run_amount_generation_5 run_amount_generation_20k
      run_suite-passes r enough = rw (
        run_amount-passes (codes "16") 16 r
            (amount_whole numbers (codes "16") r.sixteen r.sixteen_floor) (omega arith)
            (omega arith) (omega (arith, chunks_16)) (omega (arith, chunks_16)),
        run_amount-passes (codes "5") 5 r (amount_whole numbers (codes "5") r.five r.five_floor)
            (omega arith) (omega arith) (omega (arith, chunks_5)) (omega (arith, chunks_5)),
        run_amount-passes (codes "20000") 20000 r
            (amount_whole numbers (codes "20000") r.many r.many_floor) (omega arith) (omega arith)
            (omega (arith, chunks_20000)) (omega (arith, chunks_20000)),
      )

      -- The tests of rdrand-gen pass, all of them: for every strtod and strtoul that read the numbers in
      -- the arguments of the tests, every cipher, every stream that takes all that is written, whatever
      -- AES_CFG and the memory hold, the options are parsed as the tests expect, the key file is read
      -- and its key set, and `generate` returns the 16, 5 and 20000 bytes that it is asked for.
      pub check_rdrand_gen-passes :
          (cpuid : ℕ → Cpuid)
          → ReadsTexts numbers
          → ReadsRuns
          → 1 < fuel
          → check_rdrand_gen ssl numbers cpu fwrite fuel buf gen_buf1 gen_buf2 enc_buf aes m cpuid
            ≡ true
      unfolding check_rdrand_gen rdrand_test_support
      check_rdrand_gen-passes cpuid texts runs enough = rw (
        options_suite-passes numbers texts,
        read_line-passes,
        open_file-passes aes,
        run_suite-passes runs enough,
      )
