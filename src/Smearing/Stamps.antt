-- ===== src/Smearing/Stamps.antt =====
-- dc_tools.rs: the order of the timestamps that are created.
use juttmy_core.Prelude.{
  ℕ, zero, suc, ℤ, pos, ◌+ℤ◌, ◌-ℤ◌, min_ℤ, max_ℤ, ltb_ℤ, leb_ℤ, ◌≤ℤ◌, ◌<ℤ◌, List, [], ◌∷◌, ◌++◌,
  ◌≡◌, ◌⊎◌, inl, inr, if_split, int_laws, arith, refl, true, false, subst,
}
use juttmy_core.Smearing.{dc_create_smeared_timestamp, dc_create_smeared_timestamps}

-- A timestamp is as late as the present, at most five seconds ahead of it, and later than the last
-- one, or five seconds ahead and not later than the last one.
abbrev pub Fair : ℤ → ℤ → ℤ → Type 0
Fair now last ret =
    (now ≤ℤ ret) × (ret ≤ℤ now +ℤ pos 5) × ((last <ℤ ret) ⊎ ((ret ≡ now +ℤ pos 5) × (ret ≤ℤ last)))

lent_Fair :
    (now last : ℤ)
    → now ≤ℤ last
    → ltb_ℤ (pos 5) (last +ℤ pos 1 -ℤ now) ≡ true
    → Fair now last (now +ℤ pos 5)
lent_Fair now last h over = (grind int_laws, grind int_laws, inr (refl, grind int_laws))

next_Fair :
    (now last : ℤ)
    → now ≤ℤ last
    → ltb_ℤ (pos 5) (last +ℤ pos 1 -ℤ now) ≡ false
    → Fair now last (last +ℤ pos 1)
next_Fair now last h within = (grind int_laws, grind int_laws, inl (grind int_laws))

present_Fair : (now last : ℤ) → last <ℤ now → Fair now last now
present_Fair now last h = (grind int_laws, grind int_laws, inl h)

-- A single timestamp is the present or up to five seconds ahead of it, and is later than the last
-- one, or else the full five seconds were lent already: then it is five seconds ahead, and not later
-- than the last one.
pub dc_create_smeared_timestamp-Fair :
    (now last : ℤ) → Fair now last (dc_create_smeared_timestamp now last)
unfolding dc_create_smeared_timestamp
dc_create_smeared_timestamp-Fair now last =
    if_split (Fair now last) (leb_ℤ now last)
      (λ lend.
        if_split (Fair now last) (ltb_ℤ (pos 5) (last +ℤ pos 1 -ℤ now))
          (lent_Fair now last (ground arith)) (next_Fair now last (ground arith)))
      λ free. present_Fair now last (ground arith)

-- `count` timestamps from the first one on.
abbrev pub up : ℤ → ℕ → List ℤ
up start zero = []
up start (suc n) = start ∷ up (start +ℤ pos 1) n

-- The timestamps of calls at the given times for the given counts.
pub created : ℤ → List (ℤ × ℕ) → List ℤ
created last [] = []
created last ((now, count) ∷ calls) =
    let (start, last') = dc_create_smeared_timestamps now count last in
    up start count ++ created last' calls

-- Each is later than the one before it.
abbrev pub Climbs : ℤ → List ℤ → Type 0
Climbs last [] = Unit
Climbs last (t ∷ ts) = (last <ℤ t) × Climbs t ts

at_least : (last y : ℤ) → ltb_ℤ y (last +ℤ pos 1) ≡ false → last <ℤ y
at_least last y h = grind int_laws

batch_after :
    (now : ℤ) (count : ℕ) (last : ℤ) → last <ℤ (dc_create_smeared_timestamps now count last).0
unfolding dc_create_smeared_timestamps max_ℤ
batch_after now count last =
    if_split (λ start. last <ℤ start)
      (ltb_ℤ (now +ℤ min_ℤ (pos count) (pos 5) -ℤ pos count) (last +ℤ pos 1))
      (λ before. grind int_laws) λ behind. at_least last _ behind

batch_end :
    (now : ℤ) (count : ℕ) (last : ℤ)
    → (dc_create_smeared_timestamps now count last).1
      ≡ (dc_create_smeared_timestamps now count last).0 +ℤ pos count -ℤ pos 1
unfolding dc_create_smeared_timestamps
batch_end now count last = refl

Climbs-later : (a b : ℤ) (ts : List ℤ) → a ≤ℤ b → Climbs b ts → Climbs a ts
Climbs-later a b [] h c = tt
Climbs-later a b (t ∷ ts) h (lt, c) = (omega (arith, lt, h), c)

Climbs-up :
    (last start : ℤ) (n : ℕ) (ts : List ℤ)
    → last <ℤ start
    → Climbs (start +ℤ pos n -ℤ pos 1) ts
    → Climbs last (up start n ++ ts)
Climbs-up last start zero ts h c = Climbs-later last (start +ℤ pos 0 -ℤ pos 1) ts (grind int_laws) c
Climbs-up last start (suc n) ts h c = (
  h,
  Climbs-up start (start +ℤ pos 1) n ts (grind int_laws)
      (subst (λ e. Climbs e ts) (grind int_laws) c),
)

-- All the timestamps that a sequence of calls of `dc_create_smeared_timestamps` creates are later
-- than the last one before the calls, and each is later than the one created before it, whatever
-- times the clock gives, and for whatever counts.
pub created-Climbs : (last : ℤ) (calls : List (ℤ × ℕ)) → Climbs last (created last calls)
unfolding created dc_create_smeared_timestamps
created-Climbs last [] = tt
created-Climbs last ((now, count) ∷ calls) =
    let start = (dc_create_smeared_timestamps now count last).0 in
    Climbs-up last start count _ (batch_after now count last)
      (created-Climbs (start +ℤ pos count -ℤ pos 1) calls)
