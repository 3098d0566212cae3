-- ===== src/Smearing.antt =====
-- dc_tools.rs: the timestamps of sent messages. Two mails shall not have the same one, so that in
-- one second time is lent from the future. Each function takes the time that `time()` gives and
-- `last_smeared_timestamp`.
pub mod Stamps
pub mod Tests
use juttmy_core.Prelude.{
  ℕ, zero, suc, ℤ, pos, ◌+ℤ◌, ◌-ℤ◌, min_ℤ, max_ℤ, ltb_ℤ, leb_ℤ, if◌then◌else◌, List, [], ◌∷◌, ◌++◌,
}

abbrev pub max_seconds_to_lend_from_future : ℤ
max_seconds_to_lend_from_future = pos 5

unfoldable pub dc_smeared_time : ℤ → ℤ → ℤ
dc_smeared_time now ts = if leb_ℤ now ts then ts +ℤ pos 1 else now

-- The timestamp, which becomes the last one.
unfoldable pub dc_create_smeared_timestamp : ℤ → ℤ → ℤ
dc_create_smeared_timestamp now last =
    let ret = last +ℤ pos 1 in
    if leb_ℤ now last
    then if ltb_ℤ max_seconds_to_lend_from_future (ret -ℤ now)
      then now +ℤ max_seconds_to_lend_from_future
      else ret
    else now

-- The first of `count` timestamps, and the last one.
unfoldable pub dc_create_smeared_timestamps : ℤ → ℕ → ℤ → ℤ × ℤ
dc_create_smeared_timestamps now count last =
    let start =
      max_ℤ (last +ℤ pos 1)
        (now +ℤ min_ℤ (pos count) max_seconds_to_lend_from_future -ℤ pos count) in
    (start, start +ℤ pos count -ℤ pos 1)
