-- ===== src/Job/Perform/Backoff.antt =====
-- job.rs: the time to the next try.
use juttmy_core.Prelude.{
  ℕ, zero, suc, ◌+◌, ◌-◌, ◌*◌, ◌%◌, ◌^◌, ◌≤◌, ◌<◌, ℤ, pos, negsuc, ◌≤ℤ◌, ltb_ℤ, arith, ◌≡◌, subst,
  if◌then◌else◌, -ℤ_parts,
}
use juttmy_core.Job.Perform.{get_backoff_time_offset, rem_i32, job_retries}

pow_suc : (n : ℕ) → 2 ^ suc n ≡ 2 * 2 ^ n
pow_suc n = omega arith

pow_mono : (k d : ℕ) → 2 ^ k ≤ 2 ^ (d + k)
pow_mono k zero = let e : k ≡ 0 + k = omega arith in subst (λ m. 2 ^ k ≤ 2 ^ m) e (omega arith)
pow_mono k (suc d) =
    let e : suc (d + k) ≡ suc d + k = omega arith in
    subst (λ m. 2 ^ k ≤ 2 ^ m) e (omega (arith, pow_suc (d + k), pow_mono k d))

pow_pos : (k : ℕ) → 1 ≤ 2 ^ k
pow_pos zero = omega arith
pow_pos (suc k) = omega (arith, pow_suc k, pow_pos k)

pow_small : (k : ℕ) → k ≤ 15 → 2 ^ k ≤ 2 ^ 15
pow_small k h =
    let e : (15 - k) + k ≡ 15 = omega arith in subst (λ m. 2 ^ k ≤ 2 ^ m) e (pow_mono k (15 - k))

rest-le : (r n : ℕ) → r % (n + 1) ≤ n
rest-le r n = grind arith

rem_i32-le : (r : ℤ) (n : ℕ) → rem_i32 r (n + 1) ≤ℤ pos n
rem_i32-le (pos r) n = omega (arith, rest-le r n)
rem_i32-le (negsuc r) n = omega (arith, -ℤ_parts (pos 0) (pos ((r + 1) % (n + 1))))

-- The seconds, with at least one.
raised :
    (s : ℤ) (n : ℕ)
    → s ≤ℤ pos n
    → 1 ≤ n
    → (pos 1 ≤ℤ (if ltb_ℤ s (pos 1) then pos 1 else s))
      × ((if ltb_ℤ s (pos 1) then pos 1 else s) ≤ℤ pos n)
raised s n h one = ground (arith, h, one)

-- A job waits for at least a second and at most as many minutes as two to the number of tries
-- before; up to the last try that fits in 32 bits.
pub get_backoff_time_offset_lem :
    (tries : ℕ) (r : ℤ)
    → 1 ≤ tries
    → tries < job_retries
    → (pos 1 ≤ℤ get_backoff_time_offset tries r)
      × (get_backoff_time_offset tries r ≤ℤ pos (2 ^ (tries - 1) * 60))
      × (2 ^ (tries - 1) * 60 + 1 < 2 ^ 31)
unfolding get_backoff_time_offset
get_backoff_time_offset_lem tries r some_try few =
    let n = 2 ^ (tries - 1) in
    let (low, high) =
      raised (rem_i32 r (n * 60 + 1)) (n * 60) (rem_i32-le r (n * 60))
        (omega (arith, pow_pos (tries - 1))) in
    (low, high, omega (arith, pow_small (tries - 1) (omega (arith, some_try, few))))
