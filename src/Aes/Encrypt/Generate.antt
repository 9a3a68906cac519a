-- ===== src/Aes/Encrypt/Generate.antt =====
-- `rdrand_get_bytes_aes_ctr`: how much it returns, where it writes, and the state that it leaves.
use rd_rand.Prelude.{
  ℕ, zero, suc, ◌+◌, ◌*◌, ◌/◌, ◌%◌, ◌≤◌, ◌<◌, ◌≡◌, refl, subst, ◌∙◌, arith, List, take, length-take,
  true, false, Bool, not, ◌==◌, ℤ, if_elim, if◌then◌else◌,
}
use rd_rand.Cpu.{Cpu, Build}
use rd_rand.Memory.{Machine, store_bytes}
use rd_rand.Memory.Store.{store_bytes_outside}
use rd_rand.Bytes.{rdrand_get_bytes_retry}
use rd_rand.Bytes.Safety.{Outside, bytes_retry_within}
use rd_rand.Bytes.Complete.{Complete}
use rd_rand.Aes.State.{AesCfg, OpenSsl}
use rd_rand.Aes.Change.{counter}
use rd_rand.Aes.Invariant.{IsLawful, IsReady, counter-IsReady, enciphered-IsReady}
use rd_rand.Aes.Encrypt.{
  load_bytes, generate_part, generate_tail, generate_loop, rdrand_get_bytes_aes_ctr, Generated,
}

module _ {Ctx : Type 0} (ssl : OpenSsl Ctx) (build : Build) (cpu : Cpu) (buf : ℕ) where
  -- A property `P` of results, by the number of bytes that are still asked for, the destination, the
  -- bytes generated, and the state: it holds of the loop if it does of its start, where nothing is
  -- left or a part fails, and if it follows from what it says after the first part.
  module _ {ℓ} (retry_limit : ℤ)
      (P : (left dest g : ℕ) → AesCfg Ctx → Machine → Generated ssl build cpu buf → Type ℓ)
      (stop : (left dest g : ℕ) (c : AesCfg Ctx) (m : Machine) → P 0 dest g c m (g, c, m))
      (fail : (n left dest g : ℕ) (c : AesCfg Ctx) (m : Machine)
        → n ≤ 2048
        → let r = generate_part ssl build cpu buf n dest retry_limit c m in
          r.0 ≡ false → P (n + left) dest g c m (g, r.1, r.2))
      (part : (n left dest g : ℕ) (c : AesCfg Ctx) (m : Machine)
          (final : Generated ssl build cpu buf)
        → n ≤ 2048
        → let r = generate_part ssl build cpu buf n dest retry_limit c m in
          r.0 ≡ true
          → P left (dest + n) (g + n) r.1 r.2 final
          → P (n + left) dest g c m final) where
    tail_rule :
        (tail dest g : ℕ) (c : AesCfg Ctx) (m : Machine)
        → tail < 2048
        → P tail dest g c m (generate_tail ssl build cpu buf tail dest g retry_limit c m)
    unfolding generate_tail
    tail_rule tail dest g c m small =
        let z : tail + 0 ≡ tail = omega arith in
        let r = generate_part ssl build cpu buf tail dest retry_limit c m in
        if_elim {A = Generated ssl build cpu buf} (P tail dest g c m) (tail == 0)
          (λ e. let t : tail ≡ 0 = ground arith in rw t (stop 0 dest g c m))
          (λ _.
            if_elim {A = Generated ssl build cpu buf} (P tail dest g c m) r.0
              (λ ok.
                subst (λ n. P n dest g c m (g + tail, r.1, r.2)) z
                  (part tail 0 dest g c m _ (omega arith) ok
                    (stop 0 (dest + tail) (g + tail) r.1 r.2)))
              (λ bad.
                subst (λ n. P n dest g c m (g, r.1, r.2)) z
                  (fail tail 0 dest g c m (omega arith) bad)))

    loop_rule :
        (tail buffers dest g : ℕ) (c : AesCfg Ctx) (m : Machine)
        → tail < 2048
        → P
            (2048 * buffers + tail)
            dest
            g
            c
            m
            (generate_loop ssl build cpu buf tail buffers dest g retry_limit c m)
    unfolding generate_loop
    loop_rule tail zero dest g c m small =
        let z : tail ≡ 2048 * 0 + tail = omega arith in
        subst (λ n. P n dest g c m (generate_tail ssl build cpu buf tail dest g retry_limit c m)) z
          (tail_rule tail dest g c m small)
    loop_rule tail (suc buffers) dest g c m small =
        let r = generate_part ssl build cpu buf 2048 dest retry_limit c m in
        let e : 2048 + (2048 * buffers + tail) ≡ 2048 * suc buffers + tail = omega arith in
        let final : Generated ssl build cpu buf =
          generate_loop ssl build cpu buf tail buffers (dest + 2048) (g + 2048) retry_limit r.1
            r.2 in
        let rest = loop_rule tail buffers (dest + 2048) (g + 2048) r.1 r.2 small in
        if_elim {A = Generated ssl build cpu buf} (P (2048 * suc buffers + tail) dest g c m) r.0
          (λ ok.
            subst (λ n. P n dest g c m final) e
              (part 2048 (2048 * buffers + tail) dest g c m final (omega arith) ok rest))
          (λ bad.
            subst (λ n. P n dest g c m (g, r.1, r.2)) e
              (fail 2048 (2048 * buffers + tail) dest g c m (omega arith) bad))

    whole_rule :
        (dest count : ℕ) (c : AesCfg Ctx) (m : Machine)
        → P count dest 0 c m (rdrand_get_bytes_aes_ctr ssl build cpu buf dest count retry_limit c m)
    unfolding rdrand_get_bytes_aes_ctr
    whole_rule dest count c m =
        let e : 2048 * (count / 2048) + count % 2048 ≡ count = omega arith in
        subst
          (λ n.
            P n dest 0 c m (rdrand_get_bytes_aes_ctr ssl build cpu buf dest count retry_limit c m))
          e (loop_rule (count % 2048) (count / 2048) dest 0 c m (omega arith))

  module _ (retry_limit : ℤ) (n dest : ℕ) (c : AesCfg Ctx) (m : Machine) where
    -- One part writes to the local buffer, and then to the destination.
    part-Outside :
        (p : ℕ)
        → n ≤ 2048
        → Outside buf 2048 p
        → Outside dest n p
        → (generate_part ssl build cpu buf n dest retry_limit c m).2.mem p ≡ m.mem p
    unfolding generate_part
    part-Outside p small out_buf out_dest =
        let c' = (counter ssl n c).0 in
        let m' = (rdrand_get_bytes_retry build cpu buf n retry_limit m).1 in
        let out : List ℕ = (ssl.encrypt_update c'.en (load_bytes m'.mem buf n)).0 in
        let inner =
          (bytes_retry_within build cpu buf n retry_limit m p (omega arith) (omega arith)).1 in
        let got = (rdrand_get_bytes_retry build cpu buf n retry_limit m).0 in
        let (_, en, ok) = ssl.encrypt_update c'.en (load_bytes m'.mem buf n) in
        let stored =
          store_bytes_outside m'.mem dest (take n out) p (omega (arith, length-take n out)) in
        if_elim {A = Bool × AesCfg Ctx × Machine} (λ r. r.2.mem p ≡ m.mem p) (not (got == n))
          {x = (false, c', m')}
          {y = if not ok then (false, record c' { en = en }, m') else (
            true,
            record c' { en = en },
            record m' { mem = store_bytes m'.mem dest (take n out) },
          )}
          (λ _. inner)
          (λ _.
            if_elim {A = Bool × AesCfg Ctx × Machine} (λ r. r.2.mem p ≡ m.mem p) (not ok)
              {x = (false, record c' { en = en }, m')}
              {y = (
                true,
                record c' { en = en },
                record m' { mem = store_bytes m'.mem dest (take n out) },
              )}
              (λ _. inner) (λ _. stored ∙ inner))

    part-IsReady :
        IsLawful ssl
        → IsReady c
        → IsReady (generate_part ssl build cpu buf n dest retry_limit c m).1
    unfolding generate_part
    part-IsReady law ready =
        let IsGood : Bool × AesCfg Ctx × Machine → Type 0 = λ r. IsReady r.1 in
        let counted = counter-IsReady ssl law n c ready in
        let c' = (counter ssl n c).0 in
        let g = rdrand_get_bytes_retry build cpu buf n retry_limit m in
        let (_, en, ok) = ssl.encrypt_update c'.en (load_bytes g.1.mem buf n) in
        let coded = enciphered-IsReady ssl law c' en counted in
        if_elim {A = Bool × AesCfg Ctx × Machine} IsGood (not (g.0 == n)) (λ _. counted)
          (λ _. if_elim {A = Bool × AesCfg Ctx × Machine} IsGood (not ok) (λ _. coded) (λ _. coded))

    part-ok :
        Complete build cpu
        → ((en : Ctx) (b : List ℕ) → (ssl.encrypt_update en b).2 ≡ true)
        → n ≤ 2048
        → (generate_part ssl build cpu buf n dest retry_limit c m).0 ≡ true
    unfolding generate_part
    part-ok delivers enciphers small =
        let c' = (counter ssl n c).0 in
        let m' = (rdrand_get_bytes_retry build cpu buf n retry_limit m).1 in
        ground (
          arith,
          delivers buf n retry_limit m (omega arith),
          enciphers c'.en (load_bytes m'.mem buf n),
        )

  module _ (retry_limit : ℤ) (dest count : ℕ) (c : AesCfg Ctx) (m : Machine) where
    abbrev result : Generated ssl build cpu buf
    result = rdrand_get_bytes_aes_ctr ssl build cpu buf dest count retry_limit c m

    -- `rdrand_get_bytes_aes_ctr` returns `count` at most and changes no byte outside its own buffer of
    -- 2048 bytes at `buf` and the `count` bytes from `dest` on, whatever the processor and the cipher
    -- do.
    pub aes_ctr_within :
        (p : ℕ)
        → Outside buf 2048 p
        → Outside dest count p
        → (result.0 ≤ count) × (result.2.mem p ≡ m.mem p)
    aes_ctr_within p out_buf out_dest =
        let within =
          whole_rule retry_limit
            (λ left d g s w r. Outside d left p → (r.0 ≤ g + left) × (r.2.mem p ≡ w.mem p))
            (λ left d g s w _. (omega arith, refl))
            (λ n left d g s w small bad out.
              (omega arith, part-Outside retry_limit n d s w p small out_buf (omega arith)))
            (λ n left d g s w r small ok rest out.
              let (le, same) = rest (omega arith) in
              (omega arith, same ∙ part-Outside retry_limit n d s w p small out_buf (omega arith)))
            dest count c m out_dest in
        (omega (arith, within.0), within.1)

    -- From a ready state, `rdrand_get_bytes_aes_ctr` leaves a ready state, also where it returns early.
    pub aes_ctr-IsReady : IsLawful ssl → IsReady c → IsReady result.1
    aes_ctr-IsReady law ready =
        whole_rule retry_limit (λ left d g s w r. IsReady s → IsReady r.1) (λ left d g s w now. now)
          (λ n left d g s w small bad now. part-IsReady retry_limit n d s w law now)
          (λ n left d g s w r small ok rest now. rest (part-IsReady retry_limit n d s w law now))
          dest count c m ready

    pub aes_ctr-full :
        Complete build cpu
        → ((en : Ctx) (b : List ℕ) → (ssl.encrypt_update en b).2 ≡ true)
        → result.0 ≡ count
    aes_ctr-full delivers enciphers =
        let full =
          whole_rule retry_limit (λ left d g s w r. r.0 ≡ g + left) (λ left d g s w. omega arith)
            (λ n left d g s w small bad.
              absurd (ground (arith, part-ok retry_limit n d s w delivers enciphers small)))
            (λ n left d g s w r small ok rest. omega arith) dest count c m in
        omega (arith, full)
