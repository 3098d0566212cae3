-- ===== src/Params/Tests.antt =====
-- Runs of param.rs, some of its tests, and its theorem at a concrete input.
use juttmy_core.Prelude.{codes, ◌≡◌, refl, ◌∷◌, [], arith}
use juttmy_core.Params.{
  Params, get, set, to_string, from_str, parse_entry, split_key, parsed, unknown_key, not_a_pair,
}
use juttmy_core.Params.Keys.{Param, letter, from_u8, arg, height, quote}
use juttmy_core.Params.Keys
use juttmy_core.Params.Map.{IsSorted}
use juttmy_core.Params.RoundTrip.{from_str-to_string}

abbrev two_entries : Params
two_entries = (Keys.file, codes "a\n\nb=c\n") ∷ (Keys.width, codes "2") ∷ []

to_string-two_entries : to_string two_entries ≡ codes "f=a\n\n\n\nb=c\n\n\nw=2"
unfolding letter
to_string-two_entries = refl

from_str-unknown : from_str (codes "f=1\n!=2") ≡ unknown_key (codes "!")
unfolding from_str parse_entry split_key from_u8 set letter
from_str-unknown = refl

from_str-no_pair : from_str (codes "f=1\nabc") ≡ not_a_pair (codes "abc")
unfolding from_str parse_entry split_key from_u8 set letter
from_str-no_pair = refl

from_str-to_string_example : from_str (to_string two_entries) ≡ parsed two_entries
unfolding letter
from_str-to_string_example =
    from_str-to_string two_entries (omega arith, tt)
      (
        (
          omega arith,
          (
            omega arith,
            (omega arith, (omega arith, (omega arith, (omega arith, (omega arith, tt))))),
          ),
        ),
        ((omega arith, tt), tt),
      )

two_entries-IsSorted : IsSorted two_entries
unfolding letter
two_entries-IsSorted = (omega arith, tt)

set_empty : (k : Param) → get (set [] Keys.file (codes "a")) k ≡ get ((Keys.file, codes "a") ∷ []) k
unfolding set
set_empty k = refl
