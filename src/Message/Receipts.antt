-- ===== src/Message/Receipts.antt =====
-- message.rs: a sent message is shown as read once enough contacts sent their receipts.
use juttmy_core.Prelude.{
  ℕ, ◌+◌, ◌/◌, ◌≤◌, ◌<◌, ℤ, Text, is_empty, leb, ◌==◌, if_both, if_split, option_split,
  some-injective, if◌then◌else◌, Bool, true, false, ◌||◌, Option, some, List, [], ◌∷◌, ◌≡◌, ◌≢◌,
  refl, ap, sym, subst, ◌∙◌, arith, All, length,
}
use juttmy_core.Message.{
  MessageState, out_mdn_rcvd, awaits_receipts, Chattype, single, group, MsgRow, MdnRow, Messages,
  Chats, is_sent, select, update, with_state, update_msg_state, mdn_exists, mdn_count, add_mdn,
  read_by_all, receive, handle_mdn,
}

-- The row that is found has a new state.
select-update :
    (mid : Text) (state : MessageState) (ms : List MsgRow) (m : MsgRow)
    → select mid ms ≡ some m
    → select mid (update m.id (with_state state) ms) ≡ some (with_state state m)
unfolding select update
select-update mid state [] m e = absurd (cc)
select-update mid state (q ∷ ms) m e =
    if_split (λ o. o ≡ some m → Updated m) (is_sent mid q)
      (λ here same. subst Updated (some-injective same) (first here))
      (λ past found.
        if_both (λ l. select mid l ≡ some (with_state state m)) (q.id == m.id)
          (rw past (select-update mid state ms m found))
          (rw past (select-update mid state ms m found)))
      e
  where
    Updated : MsgRow → Type 0
    Updated x = select mid (update x.id (with_state state) (q ∷ ms)) ≡ some (with_state state x)

    first : is_sent mid q ≡ true → Updated q
    first here = let same : (q.id == q.id) ≡ true = ground arith in rw same (rw here refl)

mdn_exists-other :
    (id c d : ℕ) (t : ℤ) (rs : List MdnRow)
    → d ≢ c
    → mdn_exists id d rs ≡ false
    → mdn_exists id d (record { msg_id = id; contact_id = c; timestamp_sent = t } ∷ rs) ≡ false
unfolding mdn_exists
mdn_exists-other id c d t rs differ e = ground (arith, differ, e)

-- The contacts differ, and are not special.
abbrev pub Distinct : List ℕ → Type 0
Distinct [] = Unit
Distinct (c ∷ cs) = All (λ d. d ≢ c) cs × Distinct cs

abbrev pub Unheard : ℕ → List MdnRow → List ℕ → Type 0
Unheard id rs cs = All (λ c. mdn_exists id c rs ≡ false) cs

Unheard-other :
    (id c : ℕ) (t : ℤ) (rs : List MdnRow) (cs : List ℕ)
    → All (λ d. d ≢ c) cs
    → Unheard id rs cs
    → Unheard id (record { msg_id = id; contact_id = c; timestamp_sent = t } ∷ rs) cs
Unheard-other id c t rs [] h u = tt
Unheard-other id c t rs (d ∷ cs) (differ, h) (e, u) =
    (mdn_exists-other id c d t rs differ e, Unheard-other id c t rs cs h u)

one_counted :
    (id c : ℕ) (t : ℤ) (rs : List MdnRow)
    → mdn_count id (record { msg_id = id; contact_id = c; timestamp_sent = t } ∷ rs)
      ≡ 1 + mdn_count id rs
unfolding mdn_count
one_counted id c t rs = ground arith

module _ (chats : Chats) where
  too_few :
      (k : Chattype) (m : MsgRow) (db : Messages)
      → read_by_all chats k m db ≡ false
      → mdn_count m.id db.msgs_mdns < (chats.contact_cnt m.chat_id + 1) / 2
  unfolding read_by_all
  too_few single m db e = absurd (cc)
  too_few Chattype.undefined m db e = ground (arith, e)
  too_few group m db e = ground (arith, e)

  -- Receipts for a message of contacts that differ, at a time.
  abbrev pub receipts : Text → ℤ → List ℕ → Messages → Messages
  receipts mid t [] db = db
  receipts mid t (c ∷ cs) db = receipts mid t cs (handle_mdn chats c mid t db).1

  -- A state that awaits no receipts stays.
  settled :
      (mid : Text) (t : ℤ) (c : ℕ) (db : Messages) (m : MsgRow)
      → select mid db.msgs ≡ some m
      → awaits_receipts m.state ≡ false
      → (handle_mdn chats c mid t db).1 ≡ db
  unfolding handle_mdn receive
  settled mid t c db m e over =
      if_both {A = Option (ℕ × ℕ) × Messages} (λ r. r.1 ≡ db) (leb c 9 || is_empty mid) refl
        (rw e (
          option_split {A = Chattype} {B = Option (ℕ × ℕ) × Messages} (λ r. r.1 ≡ db)
            (chats.chat_type m.chat_id) (λ _. refl) λ k _. rw over refl))

  receipts-settled :
      (mid : Text) (t : ℤ) (cs : List ℕ) (db : Messages) (m : MsgRow)
      → select mid db.msgs ≡ some m
      → awaits_receipts m.state ≡ false
      → receipts mid t cs db ≡ db
  receipts-settled mid t [] db m e over = refl
  receipts-settled mid t (c ∷ cs) db m e over =
      ap (receipts mid t cs) (settled mid t c db m e over) ∙ receipts-settled mid t cs db m e over

  -- The table with the receipt of a contact.
  abbrev heard : ℕ → ℤ → MsgRow → Messages → Messages
  heard c t m db = record db {
    msgs_mdns = record { msg_id = m.id; contact_id = c; timestamp_sent = t } ∷ db.msgs_mdns;
  }

  -- One more receipt of a new contact.
  one_more :
      (mid : Text) (t : ℤ) (c : ℕ) (db : Messages) (m : MsgRow) (k : Chattype)
      → is_empty mid ≡ false
      → 9 < c
      → select mid db.msgs ≡ some m
      → chats.chat_type m.chat_id ≡ some k
      → awaits_receipts m.state ≡ true
      → mdn_exists m.id c db.msgs_mdns ≡ false
      → (handle_mdn chats c mid t db).1 ≡ (
          if read_by_all chats k m (heard c t m db)
          then update_msg_state m.id out_mdn_rcvd (heard c t m db)
          else heard c t m db)
  unfolding handle_mdn receive add_mdn
  one_more mid t c db m k not_empty normal e type open_state new =
      let small : leb c 9 ≡ false = ground (arith, normal) in
      rw (small, not_empty, e, type, open_state, new)
        (either (read_by_all chats k m (heard c t m db)) _ _ _ _)
    where
      either :
          (test : Bool) (r r' : Option (ℕ × ℕ)) (x y : Messages)
          → (if◌then◌else◌ {A = Option (ℕ × ℕ) × Messages} test (r, x) (r', y)).1
            ≡ (if test then x else y)
      either true r r' x y = refl
      either false r r' x y = refl

  -- The state of the message that is found.
  abbrev pub IsRead : Text → Messages → Type 0
  IsRead mid db = (m : MsgRow) × (select mid db.msgs ≡ some m) × (m.state ≡ out_mdn_rcvd)

  IsRead-receipts :
      (mid : Text) (t : ℤ) (cs : List ℕ) (db : Messages)
      → IsRead mid db
      → IsRead mid (receipts mid t cs db)
  IsRead-receipts mid t cs db (m, e, read) =
      subst (IsRead mid) (sym (receipts-settled mid t cs db m e (ap awaits_receipts read)))
        (m, e, read)

  IsRead-update :
      (mid : Text) (db : Messages) (m : MsgRow)
      → select mid db.msgs ≡ some m
      → IsRead mid (update_msg_state m.id out_mdn_rcvd db)
  unfolding update_msg_state
  IsRead-update mid db m e =
      (with_state out_mdn_rcvd m, select-update mid out_mdn_rcvd db.msgs m e, refl)

  module _ (mid : Text) (t : ℤ) (not_empty : is_empty mid ≡ false) (m : MsgRow) (k : Chattype) where
    -- Receipts for a message come in, as long as they are needed.
    reading :
        (cs : List ℕ) (db : Messages)
        → select mid db.msgs ≡ some m
        → chats.chat_type m.chat_id ≡ some k
        → awaits_receipts m.state ≡ true
        → All (λ c. 9 < c) cs
        → Distinct cs
        → Unheard m.id db.msgs_mdns cs
        → 0 < length cs
        → (chats.contact_cnt m.chat_id + 1) / 2 ≤ mdn_count m.id db.msgs_mdns + length cs
        → IsRead mid (receipts mid t cs db)
    reading [] db e type open_state normal d u some_receipt enough =
        absurd (omega (arith, some_receipt))
    reading (c ∷ cs) db e type open_state (big, normal) (differ, d) (new, u) some_receipt enough =
        subst (λ b. IsRead mid (receipts mid t cs b))
          (sym (one_more mid t c db m k not_empty big e type open_state new))
          (if_split (λ b. IsRead mid (receipts mid t cs b)) (read_by_all chats k m (heard c t m db))
            (λ _.
              IsRead-receipts mid t cs (update_msg_state m.id out_mdn_rcvd (heard c t m db))
                (IsRead-update mid (heard c t m db) m e))
            λ more.
              reading cs (heard c t m db) e type open_state normal d
                (Unheard-other m.id c t db.msgs_mdns cs differ u)
                (omega (
                  arith,
                  enough,
                  too_few k m (heard c t m db) more,
                  one_counted m.id c t db.msgs_mdns,
                ))
                (omega (arith, enough, one_counted m.id c t db.msgs_mdns)))

  -- A sent message is read when the receipts of enough contacts came: at least one, and at least
  -- half of the contacts of its chat, rounded up, with those that were in the table before. The contacts
  -- differ, are not special and had sent none; the message is found by its id, its chat is there,
  -- and it was being sent or was delivered.
  pub receipts-IsRead :
      (mid : Text) (t : ℤ) (m : MsgRow) (k : Chattype) (cs : List ℕ) (db : Messages)
      → is_empty mid ≡ false
      → select mid db.msgs ≡ some m
      → chats.chat_type m.chat_id ≡ some k
      → awaits_receipts m.state ≡ true
      → All (λ c. 9 < c) cs
      → Distinct cs
      → Unheard m.id db.msgs_mdns cs
      → 0 < length cs
      → (chats.contact_cnt m.chat_id + 1) / 2 ≤ mdn_count m.id db.msgs_mdns + length cs
      → IsRead mid (receipts mid t cs db)
  receipts-IsRead mid t m k cs db not_empty e type open_state normal d u some_receipt enough =
      reading mid t not_empty m k cs db e type open_state normal d u some_receipt enough
