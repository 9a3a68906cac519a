-- ===== src/Check/Steps/Native.antt =====
-- When the tests of the native steps pass.
use rd_rand.Prelude.{
  ℕ, zero, suc, ◌+◌, ◌/◌, ◌%◌, ◌^◌, ◌≤◌, ◌<◌, ◌≡◌, ◌≢◌, ◌↔◌, ◌⊎◌, inl, inr, refl, sym, ap, ◌∙◌,
  arith, true, Bool-cases, ℤ, ◌==ℤ◌, get_or,
}
use rd_rand.Cpu.{
  Cpu, Build, Step, intrinsics, asm_64, rdrand_success, rdrand16_step, rdrand32_step, rdrand64_step,
}
use rd_rand.Memory.{Mem, Machine, store_bytes, le_bytes}
use rd_rand.Memory.Store.{store_bytes_outside, store_bytes_inside, length-le_bytes}
use rd_rand.Check.{zeroed, test_zeros}
use rd_rand.Check.Ranges.{test_ranges, store-replicate}
use rd_rand.Check.Steps.{
  dest_size, stepped, not_zero, rdrand_step_16_native, rdrand_step_32_native, rdrand_step_64_native,
  rdrand_native_steps_methods_suite,
}

-- What is left of a number above its `n` low bytes.
above : ℕ → ℕ → ℕ
above zero x = x
above (suc n) x = above n (x / 256)

zero_bytes : (n x : ℕ) → ((i : ℕ) → i < n → get_or (le_bytes n x) i 0 ≡ 0) → above n x ≡ 0 → x ≡ 0
unfolding le_bytes above
zero_bytes zero x zeros none_above = none_above
zero_bytes (suc n) x zeros none_above =
    let low : x % 256 ≡ 0 = zeros 0 (omega arith) in
    let high : x / 256 ≡ 0 =
      zero_bytes n (x / 256) (λ i h. zeros (suc i) (omega arith)) none_above in
    omega arith

bytes_zero : (n i : ℕ) → get_or (le_bytes n 0) i 0 ≡ 0
unfolding le_bytes
bytes_zero zero i = refl
bytes_zero (suc n) zero = refl
bytes_zero (suc n) (suc i) = bytes_zero n i

module _ (dst n x : ℕ) (m : Machine) (room : n ≤ 9) where
  stored : Mem
  stored = store_bytes (zeroed dest_size dst m).mem dst (le_bytes n x)

  behind : test_zeros stored dst 9 n 9 ≡ true
  unfolding stored zeroed
  behind = (test_ranges stored dst 9 n 9).0.1 (
    room,
    omega arith,
    λ i p q.
        store_bytes_outside (zeroed dest_size dst m).mem dst (le_bytes n x) (dst + i)
          (omega (arith, length-le_bytes n x))
        ∙ store-replicate m.mem dst 9 0 (dst + i) (omega arith) (omega arith),
  )

  byte : (i : ℕ) → i < n → stored (dst + i) ≡ get_or (le_bytes n x) i 0
  unfolding stored
  byte i h =
      store_bytes_inside (zeroed dest_size dst m).mem dst (le_bytes n x) i
        (omega (arith, length-le_bytes n x))

  all_zero : test_zeros stored dst 9 0 n ≡ true → above n x ≡ 0 → x ≡ 0
  all_zero passes none_above =
      zero_bytes n x
        (λ i h. sym (byte i h) ∙ ((test_ranges stored dst 9 0 n).0.0 passes).2 i (omega arith) h)
        none_above

  zero-all : x ≡ 0 → test_zeros stored dst 9 0 n ≡ true
  zero-all e = (test_ranges stored dst 9 0 n).0.1 (
    omega arith,
    room,
    λ i p q. byte i q ∙ ap (λ y. get_or (le_bytes n y) i 0) e ∙ bytes_zero n i,
  )

  -- The three assertions, after a step with the result `rc`.
  not_zero_iff :
      (rc : ℤ)
      → above n x ≡ 0
      → (not_zero n dst rc stored ≡ true) ↔ (((rc ==ℤ rdrand_success) ≡ true) × (x ≢ 0))
  unfolding not_zero
  not_zero_iff rc none_above = (forward, backward)
    where
      forward : not_zero n dst rc stored ≡ true → ((rc ==ℤ rdrand_success) ≡ true) × (x ≢ 0)
      forward h = (ground arith, λ e. ground (arith, zero-all e))

      backward : ((rc ==ℤ rdrand_success) ≡ true) × (x ≢ 0) → not_zero n dst rc stored ≡ true
      backward h = elim (Bool-cases (test_zeros stored dst 9 0 n)) [
        | inl zeros ↦ absurd (h.1 (all_zero zeros none_above))
        | inr other ↦ rw (h.0, behind, other)
      ]

-- An execution of RDRAND succeeds, with a number of `w` bits that is not zero.
abbrev pub Draws : Cpu → ℕ → ℕ → Type 0
Draws cpu t w = ((cpu t w).carry ≡ true) × ((cpu t w).value % 2 ^ w ≢ 0)

-- A step that reports one execution.
abbrev Executes : Cpu → Step → ℕ → ℕ → Type 0
Executes cpu r t w = ((r.rc ==ℤ rdrand_success) ≡ (cpu t w).carry) × (r.x ≡ (cpu t w).value % 2 ^ w)

module _ (cpu : Cpu) (dst : ℕ) (m : Machine) where
  native_iff :
      (n w t : ℕ) (r : Step)
      → n ≤ 9
      → above n ((cpu t w).value % 2 ^ w) ≡ 0
      → Executes cpu r t w
      → (not_zero n dst r.rc (stepped n dst r (zeroed dest_size dst m)).mem ≡ true) ↔ Draws cpu t w
  unfolding stepped stored
  native_iff n w t r room none_above executes =
      rw (← executes.0, ← executes.1)
        (not_zero_iff dst n r.x m room r.rc (ap (above n) executes.1 ∙ none_above))

  module _ (native : Build) (direct : (native ≡ intrinsics) ⊎ (native ≡ asm_64)) where
    Executes-16 : (t : ℕ) → Executes cpu (rdrand16_step native cpu t) t 16
    unfolding rdrand16_step
    Executes-16 t = elim direct [
      | inl e ↦ rw e (ground arith, refl)
      | inr e ↦ rw e (ground arith, refl)
    ]

    Executes-32 : (t : ℕ) → Executes cpu (rdrand32_step native cpu t) t 32
    unfolding rdrand32_step
    Executes-32 t = elim direct [
      | inl e ↦ rw e (ground arith, refl)
      | inr e ↦ rw e (ground arith, refl)
    ]

    Executes-64 : (t : ℕ) → Executes cpu (rdrand64_step native cpu t) t 64
    unfolding rdrand64_step
    Executes-64 t = elim direct [
      | inl e ↦ rw e (ground arith, refl)
      | inr e ↦ rw e (ground arith, refl)
    ]

    step_16_iff : (rdrand_step_16_native cpu dst native m ≡ true) ↔ Draws cpu m.ticks 16
    unfolding rdrand_step_16_native above
    step_16_iff =
        native_iff 2 16 m.ticks (rdrand16_step native cpu m.ticks) (omega arith) (omega arith)
          (Executes-16 m.ticks)

    step_32_iff : (rdrand_step_32_native cpu dst native m ≡ true) ↔ Draws cpu m.ticks 32
    unfolding rdrand_step_32_native above
    step_32_iff =
        native_iff 4 32 m.ticks (rdrand32_step native cpu m.ticks) (omega arith) (omega arith)
          (Executes-32 m.ticks)

    step_64_iff : (rdrand_step_64_native cpu dst native m ≡ true) ↔ Draws cpu m.ticks 64
    unfolding rdrand_step_64_native above
    step_64_iff =
        native_iff 8 64 m.ticks (rdrand64_step native cpu m.ticks) (omega arith) (omega arith)
          (Executes-64 m.ticks)

    -- The suite of the native steps passes, with the intrinsics and with the inline assembly on a
    -- 64-bit target, exactly when the first execution of RDRAND succeeds with each operand size, and
    -- none of the three numbers is zero.
    pub native_suite_iff :
        (rdrand_native_steps_methods_suite cpu dst native m ≡ true)
        ↔ (Draws cpu m.ticks 16 × Draws cpu m.ticks 32 × Draws cpu m.ticks 64)
    unfolding rdrand_native_steps_methods_suite
    native_suite_iff = (
      λ h. (
        step_16_iff.0 (ground arith),
        step_32_iff.0 (ground arith),
        step_64_iff.0 (ground arith),
      ),
      λ h. rw (step_16_iff.1 h.0, step_32_iff.1 h.1, step_64_iff.1 h.2),
    )
