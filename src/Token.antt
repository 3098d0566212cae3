-- ===== src/Token.antt =====
-- token.rs: the tokens of invitations, and their table.
pub mod Lookup
pub mod Tests
use juttmy_core.Prelude.{
  ℕ, Text, text_eq, ◌==◌, if◌then◌else◌, Bool, true, false, ◌&&◌, ◌||◌, Option, none, some, List,
  [], ◌∷◌, ◌++◌,
}

pub data Namespace : Type 0 where
  unknown auth invite_number : Namespace

-- `ToSql`
abbrev pub namespace_number : Namespace → ℕ
namespace_number unknown = 0
namespace_number auth = 110
namespace_number invite_number = 100

-- A row of the table `tokens`, without its time.
pub record TokenRow : Type 0 where
  pub namespc : Namespace
  pub foreign_id : ℕ
  pub token : Text

abbrev pub in_namespace : Namespace → TokenRow → Bool
in_namespace n r = namespace_number r.namespc == namespace_number n

-- With the token that `dc_create_id` gives.
unfoldable pub save : Text → Namespace → ℕ → List TokenRow → Text × List TokenRow
save token namespace foreign_id tokens =
    (token, tokens ++ record { namespc = namespace; foreign_id = foreign_id; token = token } ∷ [])

unfoldable pub lookup : Namespace → ℕ → List TokenRow → Option Text
lookup namespace foreign_id [] = none
lookup namespace foreign_id (r ∷ rs) =
    let rest = lookup namespace foreign_id rs in
    if in_namespace namespace r && r.foreign_id == foreign_id then some r.token else rest

unfoldable pub lookup_or_new : Text → Namespace → ℕ → List TokenRow → Text × List TokenRow
lookup_or_new token namespace foreign_id tokens = elim (lookup namespace foreign_id tokens) [
  | none ↦ save token namespace foreign_id tokens
  | some found ↦ (found, tokens)
]

unfoldable pub exists : Namespace → Text → List TokenRow → Bool
exists namespace token [] = false
exists namespace token (r ∷ rs) =
    (in_namespace namespace r && text_eq r.token token) || exists namespace token rs
