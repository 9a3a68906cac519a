-- ===== src/Gen/Arguments/Accepted.antt =====
-- The configurations that `parse_args` accepts.
use rd_rand.Prelude.{
  ℕ, ◌≤◌, ◌<◌, ◌≡◌, ◌⊎◌, inl, inr, refl, sym, subst, ◌∙◌, arith, Bool, true, false, not, ◌&&◌,
  Bool-cases, Option, Option-cases, none, some, List, [], ◌∷◌, if_elim,
}
use rd_rand.Gen.Config.{Cnf, compute_chunk_size}
use rd_rand.Gen.Config.Division.{IsKept, compute_chunk_size-IsKept}
use rd_rand.Gen.Arguments.{
  Opt, opt_version, opt_verbose, opt_help, opt_aes_ctr, opt_aes_keys, opt_amount, opt_threads,
  opt_output, opt_method, opt_unknown, Numbers, parse_amount, parse_threads, find_method, parse_opt,
  parse_opts, finish_args, parse_args, default_config,
}

-- A number of threads that the program takes.
abbrev ThreadsFit : Cnf → Type 0
ThreadsFit c = (0 < c.threads) × (c.threads ≤ 16384)

abbrev Fits : Option Cnf → Type 0
Fits none = Unit {0}
Fits (some c) = ThreadsFit c

abbrev Good : Cnf → Type 0
Good c =
    (0 < c.threads)
    × (c.threads ≤ 16384)
    × ((c.aes_flag ≡ true) ⊎ (c.aeskeys_filename ≡ none))
    × ((c' : Cnf) × (c ≡ compute_chunk_size c'))

abbrev Accepts : Option Cnf → Type 0
Accepts none = Unit {0}
Accepts (some c) = Good c

clash : true ≡ false → ⊥
clash e = cc

keys_need_aes :
    (c : Cnf)
    → IsKept c (compute_chunk_size c)
    → (not c.aes_flag && (elim c.aeskeys_filename [ none ↦ false | some f ↦ true ])) ≡ false
    → ((compute_chunk_size c).aes_flag ≡ true) ⊎ ((compute_chunk_size c).aeskeys_filename ≡ none)
keys_need_aes c k allowed = elim (Bool-cases c.aes_flag) [
  | inl coded ↦ inl (k.aes_kept ∙ coded)
  | inr plain ↦ elim (Option-cases c.aeskeys_filename) [
    | inl no_file ↦ inr (k.keys_kept ∙ no_file)
    | inr (f, file) ↦ absurd (clash (rw (plain, file) at allowed))
  ]
]

module _ {D : Type 0} (numbers : Numbers D) where
  parse_threads-fit :
      (optarg : List ℕ) (n : ℕ) → parse_threads numbers optarg ≡ some n → (0 < n) × (n ≤ 16384)
  unfolding parse_threads
  parse_threads-fit optarg n e = ground arith

  parse_opt-Fits : (o : Opt) (c : Cnf) → ThreadsFit c → Fits (parse_opt numbers o c)
  unfolding parse_opt
  parse_opt-Fits opt_version c fit = fit
  parse_opt-Fits opt_verbose c fit = fit
  parse_opt-Fits opt_help c fit = fit
  parse_opt-Fits opt_aes_ctr c fit = fit
  parse_opt-Fits (opt_aes_keys optarg) c fit = fit
  parse_opt-Fits (opt_amount optarg) c fit = elim (Option-cases (parse_amount numbers optarg)) [
    | inl e ↦ rw (parse_opt, e) tt
    | inr (n, e) ↦ rw (parse_opt, e) fit
  ]
  parse_opt-Fits (opt_threads optarg) c fit = elim (Option-cases (parse_threads numbers optarg)) [
    | inl e ↦ rw (parse_opt, e) tt
    | inr (n, e) ↦ rw (parse_opt, e) (parse_threads-fit optarg n e)
  ]
  parse_opt-Fits (opt_output optarg) c fit = fit
  parse_opt-Fits (opt_method optarg) c fit = elim (Option-cases (find_method optarg)) [
    | inl e ↦ rw (parse_opt, e) tt
    | inr (n, e) ↦ rw (parse_opt, e) fit
  ]
  parse_opt-Fits opt_unknown c fit = tt

  parse_opts-step :
      (o : Opt) (opts : List Opt) (c c' : Cnf)
      → parse_opt numbers o c ≡ some c'
      → parse_opts numbers (o ∷ opts) c ≡ parse_opts numbers opts c'
  unfolding parse_opts
  parse_opts-step o opts c c' e = rw (parse_opts, e) refl

  parse_opts-Fits : (opts : List Opt) (c : Cnf) → ThreadsFit c → Fits (parse_opts numbers opts c)
  unfolding parse_opts
  parse_opts-Fits [] c fit = fit
  parse_opts-Fits (o ∷ opts) c fit =
      let first = parse_opt-Fits o c fit in
      elim (Option-cases (parse_opt numbers o c)) [
        | inl e ↦ rw (parse_opts, e) tt
        | inr (c', e) ↦
            subst Fits (sym (parse_opts-step o opts c c' e))
              (parse_opts-Fits opts c' (subst Fits e first))
      ]

  finish_args-Accepts : (c : Cnf) → ThreadsFit c → Accepts (finish_args numbers c)
  unfolding finish_args
  finish_args-Accepts c fit =
      let k = compute_chunk_size-IsKept c in
      let has_keys : Bool = elim c.aeskeys_filename [ none ↦ false | some f ↦ true ] in
      if_elim {A = Option Cnf} Accepts (not c.aes_flag && has_keys) (λ _. tt)
        (λ allowed. (
          omega (arith, k.threads_kept),
          omega (arith, k.threads_kept),
          keys_need_aes c k allowed,
          (c, refl),
        ))

  -- A configuration that `parse_args` accepts has between 1 and 16384 threads, has a key file only with
  -- AES, and has its chunks computed from the options: `compute_chunk_size` would not change them.
  pub parse_args-accepted :
      (opts : List Opt) (c : Cnf)
      → parse_args numbers opts default_config ≡ some c
      → (0 < c.threads)
        × (c.threads ≤ 16384)
        × ((c.aes_flag ≡ true) ⊎ (c.aeskeys_filename ≡ none))
        × ((c' : Cnf) × (c ≡ compute_chunk_size c'))
  unfolding parse_args
  parse_args-accepted opts c e =
      let fits = parse_opts-Fits opts default_config (omega arith, omega arith) in
      subst Accepts e (elim (Option-cases (parse_opts numbers opts default_config)) [
        | inl none_left ↦ rw (parse_args, none_left) tt
        | inr (c', parsed) ↦
            rw (parse_args, parsed) (finish_args-Accepts c' (subst Fits parsed fits))
      ])
