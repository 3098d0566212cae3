-- ===== src/Token/Tests.antt =====
-- A token that is made and found again.
use juttmy_core.Prelude.{codes, ◌≡◌, true, []}
use juttmy_core.Token.{auth, exists, lookup_or_new}
use juttmy_core.Token.Lookup.{lookup_or_new_lem}

lookup_or_new_lem_example :
    (exists auth (lookup_or_new (codes "s1") auth 0 []).0 (lookup_or_new (codes "s1") auth 0 []).1
      ≡ true)
    × (lookup_or_new (codes "s2") auth 0 (lookup_or_new (codes "s1") auth 0 []).1
        ≡ lookup_or_new (codes "s1") auth 0 [])
lookup_or_new_lem_example = lookup_or_new_lem auth 0 (codes "s1") (codes "s2") []
