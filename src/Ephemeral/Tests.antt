-- ===== src/Ephemeral/Tests.antt =====
-- Runs of the timer, and its theorem at a concrete input.
use juttmy_core.Prelude.{negsuc, ◌≡◌, refl, arith, none, some}
use juttmy_core.Ephemeral.{enabled, to_u32, from_u32, to_sql, column_result}
use juttmy_core.Ephemeral.Codes.{column_result-to_sql}

column_result-negative : column_result (negsuc 4) ≡ none
unfolding column_result
column_result-negative = refl

column_result-to_sql_example :
    (from_u32 (to_u32 (enabled 60)) ≡ enabled 60)
    × (column_result (to_sql (enabled 60)) ≡ some (enabled 60))
column_result-to_sql_example = column_result-to_sql (enabled 60) (omega arith, omega arith)
