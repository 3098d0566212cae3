-- ===== src/Smearing/Tests.antt =====
-- Runs of the timestamps, and their theorems at concrete inputs.
use juttmy_core.Prelude.{pos, ◌≡◌, refl, [], ◌∷◌, ◌+ℤ◌, ◌-ℤ◌, min_ℤ, max_ℤ}
use juttmy_core.Smearing.{
  dc_smeared_time, dc_create_smeared_timestamp, dc_create_smeared_timestamps,
}
use juttmy_core.Smearing.Stamps.{
  Fair, Climbs, created, dc_create_smeared_timestamp-Fair, created-Climbs,
}

-- With five seconds lent, the same timestamp is created once more.
dc_create_smeared_timestamp_again : dc_create_smeared_timestamp (pos 100) (pos 105) ≡ pos 105
unfolding dc_create_smeared_timestamp ◌+ℤ◌ ◌-ℤ◌
dc_create_smeared_timestamp_again = refl

dc_create_smeared_timestamps_ten :
    dc_create_smeared_timestamps (pos 100) 10 (pos 50) ≡ (pos 95, pos 104)
unfolding dc_create_smeared_timestamps ◌+ℤ◌ ◌-ℤ◌ min_ℤ max_ℤ
dc_create_smeared_timestamps_ten = refl

dc_smeared_time_lent : dc_smeared_time (pos 100) (pos 102) ≡ pos 103
unfolding dc_smeared_time ◌+ℤ◌
dc_smeared_time_lent = refl

dc_create_smeared_timestamp-Fair_example :
    Fair (pos 100) (pos 102) (dc_create_smeared_timestamp (pos 100) (pos 102))
dc_create_smeared_timestamp-Fair_example = dc_create_smeared_timestamp-Fair (pos 100) (pos 102)

created-Climbs_example :
    Climbs (pos 50) (created (pos 50) ((pos 100, 10) ∷ (pos 100, 3) ∷ (pos 99, 2) ∷ []))
created-Climbs_example = created-Climbs (pos 50) ((pos 100, 10) ∷ (pos 100, 3) ∷ (pos 99, 2) ∷ [])
