-- ===== src/Ephemeral.antt =====
-- ephemeral.rs: the timer of a chat, and the integers that stand for it in messages and in the
-- database.
pub mod Codes
pub mod Tests
use juttmy_core.Prelude.{
  u32_of, ℕ, ◌^◌, ℤ, pos, negsuc, eqb_ℤ, ltb, ◌==◌, if◌then◌else◌, Option, none, some,
}

pub data Timer : Type 0 where
  disabled : Timer
  enabled : ℕ → Timer

unfoldable pub to_u32 : Timer → ℕ
to_u32 disabled = 0
to_u32 (enabled duration) = duration

unfoldable pub from_u32 : ℕ → Timer
from_u32 duration = if duration == 0 then disabled else enabled duration

unfoldable pub to_sql : Timer → ℤ
to_sql disabled = pos 0
to_sql (enabled duration) = pos duration

unfoldable pub column_result : ℤ → Option Timer
column_result value =
    let other : Option Timer = elim (u32_of value) [
      | none ↦ none
      | some duration ↦ some (enabled duration)
    ] in
    if eqb_ℤ value (pos 0) then some disabled else other
