-- ===== src/Params/Map.antt =====
-- param.rs: the order of the entries.
use juttmy_core.Prelude.{ℕ, [], ◌∷◌, ◌<◌}
use juttmy_core.Params.{Params}
use juttmy_core.Params.Keys.{letter}

-- The keys are in order, above `n`.
abbrev pub Above : ℕ → Params → Type 0
Above n [] = Unit
Above n ((k, v) ∷ p) = (n < letter k) × Above (letter k) p

abbrev pub IsSorted : Params → Type 0
IsSorted [] = Unit
IsSorted ((k, v) ∷ p) = Above (letter k) p
