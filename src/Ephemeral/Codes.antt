-- ===== src/Ephemeral/Codes.antt =====
-- ephemeral.rs: a timer is read back from its integers.
use juttmy_core.Prelude.{◌^◌, ◌<◌, ◌≡◌, refl, ltb, ◌==◌, arith, some, true, false}
use juttmy_core.Ephemeral.{Timer, disabled, enabled, to_u32, from_u32, to_sql, column_result}

-- An enabled timer has a duration that is not 0, in 32 bits.
abbrev pub IsTimer : Timer → Type 0
IsTimer disabled = Unit
IsTimer (enabled duration) = (0 < duration) × (duration < 2 ^ 32)

-- A timer is read back from the number that stands for it in messages and from the value that
-- stands for it in the database, where an enabled timer has a duration of at least 1 in 32 bits.
pub column_result-to_sql :
    (t : Timer) → IsTimer t → (from_u32 (to_u32 t) ≡ t) × (column_result (to_sql t) ≡ some t)
unfolding to_u32 from_u32 to_sql column_result
column_result-to_sql disabled h = (refl, refl)
column_result-to_sql (enabled n) (positive, fits) =
    let nonzero : (n == 0) ≡ false = ground (arith, positive) in
    let small : ltb n (2 ^ 32) ≡ true = ground (arith, fits) in
    (rw nonzero refl, ground (arith, positive, small))
