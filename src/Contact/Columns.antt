-- ===== src/Contact/Columns.antt =====
-- contact.rs: the columns that `add_or_lookup` sets, as a rule on the old row.
use juttmy_core.Prelude.{
  Text, text_eq, text_eq_iff, is_empty, if◌then◌else◌, Bool, true, false, not, ◌&&◌, ◌||◌, Option,
  none, some, [], ◌∷◌, ◌≡◌, refl, arith, sym, ◌∙◌,
}
use juttmy_core.Contact.{
  Origin, lt_origin, is_manual, is_from, ContactRow, updates_name, updates_authname, updates_addr,
  needs_update, new_name, set_columns,
}

-- A name replaces an empty one, one of an origin whose number is not higher, and one that is only the
-- authorised name; an empty name by hand goes back to the authorised name. The numbers are not the
-- order that the comment of `add_or_lookup` gives: a Cc header has a higher one than a From header.
abbrev pub merged_name : Text → Origin → ContactRow → Text
merged_name [] origin q =
    if is_manual origin && not (is_empty q.authname) then q.authname else q.name
merged_name (c ∷ s) origin q =
    if is_empty q.name || (not (lt_origin origin q.origin) || text_eq q.name q.authname)
    then c ∷ s
    else q.name

-- The columns of the contact, which was there before or not.
abbrev pub Merged : Text → Text → Origin → Option ContactRow → ContactRow → Type 0
Merged name addr origin none r =
    (r.name ≡ name)
    × (r.addr ≡ addr)
    × (r.origin ≡ origin)
    × (r.authname ≡ (if is_from origin then name else []))
Merged name addr origin (some q) r =
    (r.name ≡ merged_name name origin q)
    × (r.addr ≡ (if lt_origin origin q.origin then q.addr else addr))
    × (r.origin ≡ (if lt_origin q.origin origin then origin else q.origin))
    × (r.authname ≡ (if is_from origin && not (is_empty name) then name else q.authname))

name_lem :
    (name : Text) (origin : Origin) (q : ContactRow)
    → new_name name origin q ≡ merged_name name origin q
unfolding new_name updates_name
name_lem [] origin q = refl
name_lem (c ∷ s) origin q =
    by_tests (is_empty q.name) (not (lt_origin origin q.origin) || text_eq q.name q.authname)
      (text_eq (c ∷ s) q.name) (text_eq_iff (c ∷ s) q.name).0
  where
    by_tests :
        (e g t : Bool)
        → (t ≡ true → c ∷ s ≡ q.name)
        → (if (if not e then g && not t else true) then c ∷ s else q.name)
          ≡ (if e || g then c ∷ s else q.name)
    by_tests true g t h = refl
    by_tests false true true h = sym (h refl)
    by_tests false true false h = refl
    by_tests false false t h = refl

kept_lem :
    (g t : Bool) (new old : Text)
    → (t ≡ true → new ≡ old)
    → (if g && not t then new else old) ≡ (if g then new else old)
kept_lem true true new old h = sym (h refl)
kept_lem true false new old h = refl
kept_lem false t new old h = refl

authname_lem :
    (name : Text) (origin : Origin) (q : ContactRow)
    → (if updates_authname name origin q then name else q.authname)
      ≡ (if is_from origin && not (is_empty name) then name else q.authname)
unfolding updates_authname
authname_lem name origin q =
    by_tests (is_empty name) (is_from origin) (text_eq name q.authname)
      (text_eq_iff name q.authname).0
  where
    by_tests :
        (e g t : Bool)
        → (t ≡ true → name ≡ q.authname)
        → (if not e && g && not t then name else q.authname)
          ≡ (if g && not e then name else q.authname)
    by_tests true true t h = refl
    by_tests true false t h = refl
    by_tests false true true h = sym (h refl)
    by_tests false true false h = refl
    by_tests false false t h = refl

addr_lem :
    (addr : Text) (origin : Origin) (q : ContactRow)
    → (if updates_addr addr origin q then addr else q.addr)
      ≡ (if lt_origin origin q.origin then q.addr else addr)
addr_lem addr origin q =
    by_tests (lt_origin origin q.origin) (text_eq addr q.addr) (text_eq_iff addr q.addr).0
  where
    by_tests :
        (l t : Bool)
        → (t ≡ true → addr ≡ q.addr)
        → (if not l && not t then addr else q.addr) ≡ (if l then q.addr else addr)
    by_tests true t h = refl
    by_tests false true h = sym (h refl)
    by_tests false false h = refl

-- The statement sets the merged columns, whatever row it sets.
pub set_columns-Merged :
    (name addr : Text) (origin : Origin) (q r : ContactRow)
    → Merged name addr origin (some q) (set_columns name addr origin q r)
set_columns-Merged name addr origin q r =
    (name_lem name origin q, addr_lem addr origin q, refl, authname_lem name origin q)

not_set : {A : Type 0} (new old : A) (b : Bool) → b ≡ false → old ≡ (if b then new else old)
not_set new old true e = absurd (cc)
not_set new old false e = refl

-- Without a reason for an update the columns are merged already.
pub same-Merged :
    (name addr : Text) (origin : Origin) (q : ContactRow)
    → needs_update name addr origin q ≡ false
    → Merged name addr origin (some q) q
unfolding needs_update new_name
same-Merged name addr origin q e =
    let (n, a, o, m) = set_columns-Merged name addr origin q q in
    let (en, em, ea, eo) =
      all_false (updates_name name origin q) (updates_authname name origin q)
        (updates_addr addr origin q) (lt_origin q.origin origin) e in
    (
      not_set _ _ (updates_name name origin q) en ∙ n,
      not_set _ _ (updates_addr addr origin q) ea ∙ a,
      not_set _ _ (lt_origin q.origin origin) eo ∙ o,
      not_set _ _ (updates_authname name origin q) em ∙ m,
    )
  where
    all_false :
        (a b c d : Bool)
        → (a || b || c || d) ≡ false
        → (a ≡ false) × (b ≡ false) × (c ≡ false) × (d ≡ false)
    all_false a b c d e = ground (arith, e)
