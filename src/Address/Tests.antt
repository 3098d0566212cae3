-- ===== src/Address/Tests.antt =====
-- Addresses that are accepted or not, and the theorem at one.
use juttmy_core.Prelude.{codes, none, some, ◌≡◌, ◌↔◌, refl}
use juttmy_core.Address.{EmailAddress, from_str, to_string, rsplit, find, any_char, addr_normalize}
use juttmy_core.Address.Parsing.{IsAddress, from_str_iff}

abbrev alice : EmailAddress
alice = record { local = codes "alice"; domain = codes "example.org" }

from_str-short_domain : from_str (codes "alice@b.c") ≡ none
unfolding from_str rsplit any_char find
from_str-short_domain = refl

addr_normalize-mailto :
    addr_normalize (codes " mailto:alice@example.org ") ≡ codes "alice@example.org"
unfolding addr_normalize
addr_normalize-mailto = refl

from_str_iff_example :
    (from_str (codes "alice@example.org") ≡ some alice)
    ↔ (IsAddress alice × (to_string alice ≡ codes "alice@example.org"))
from_str_iff_example = from_str_iff (codes "alice@example.org") alice
