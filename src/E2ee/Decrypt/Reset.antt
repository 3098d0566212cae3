-- ===== src/E2ee/Decrypt/Reset.antt =====
-- e2ee.rs: when a received message takes its sender's preference back.
use juttmy_core.Prelude.{
  ℕ, ℤ, ltb_ℤ, if◌then◌else◌, Bool, false, not, ◌&&◌, Option, none, some, is_some, List, Eq, ◌≡◌,
  refl, arith, Bool-cases, inl, inr, ap, sym, ◌∙◌,
}
use juttmy_core.Peerstate.{Peerstate, degrade_encryption}
use juttmy_core.Peerstate.Saving.{Codec, from_addr}
use juttmy_core.Peerstate.Saving.Persist.{ReadsBack, loaded}
use juttmy_core.Peerstate.Saving.Lookup.{from_addr-save_all, from_addr-unchanged}
use juttmy_core.E2ee.Decrypt.{
  ParsedMail, Outside, Received, Decrypted, done, error, contains_report, from_headers, try_decrypt,
  take_header, handle_fingerprint_change, decrypt_if_autocrypt_message, validating_keys, degrade,
  decrypt_after,
}

module _ {Key Fpr : Type 0} where
  -- An unencrypted message that is newer than the last Autocrypt header, and not a report.
  abbrev pub resets : Bool → Bool → ℤ → Peerstate Key Fpr → Bool
  resets encrypted report t p = not encrypted && ltb_ℤ p.last_seen_autocrypt t && not report

  -- The stored state of the sender, where a message of time `t` has been read.
  abbrev pub state_after : Bool → Bool → ℤ → Peerstate Key Fpr → Peerstate Key Fpr
  state_after encrypted report t p =
      if resets encrypted report t p then loaded (degrade_encryption p t) else p

module _ {Key Fpr Blob : Type 0} ⦃ek : Eq Key⦄ ⦃ef : Eq Fpr⦄ (fingerprint : Key → Fpr)
    (codec : Codec Key Fpr Blob) (out : Outside Key Fpr) where
  abbrev outcome :
      ParsedMail Key
      → ℤ
      → Peerstate Key Fpr
      → Received Blob
      → Decrypted Fpr
      → Decrypted Fpr × Received Blob
  outcome mail t p w d = elim d [
    | error ↦ (error, w)
    | done plain signatures ↦ (
      done plain signatures,
      degrade fingerprint codec out (is_some plain) (contains_report mail) t (some p) w,
    )
  ]

  degrade_lem :
      (mail : ParsedMail Key) (encrypted : Bool) (report : Bool) (t : ℤ) (p : Peerstate Key Fpr)
      (w : Received Blob)
      → ReadsBack codec
      → from_addr codec mail.from w.acpeerstates ≡ some p
      → from_addr codec mail.from
          (degrade fingerprint codec out encrypted report t (some p) w).acpeerstates
        ≡ some (state_after encrypted report t p)
  unfolding degrade degrade_encryption
  degrade_lem mail encrypted report t p w b found =
      elim (Bool-cases (resets encrypted report t p)) [
        | inl now ↦ rw now (
            from_addr-save_all codec mail.from w.acpeerstates p (degrade_encryption p t) b found
              refl refl)
        | inr not_now ↦ rw not_now found
      ]

  unwarned :
      (p : Peerstate Key Fpr) (w : Received Blob)
      → p.fingerprint_changed ≡ false
      → handle_fingerprint_change fingerprint codec out (some p) w ≡ some w
  unfolding handle_fingerprint_change
  unwarned p w quiet = ground (arith, quiet)

  after_header :
      (mail : ParsedMail Key) (t : ℤ) (p : Peerstate Key Fpr) (w : Received Blob)
      → handle_fingerprint_change fingerprint codec out (some p) w ≡ some w
      → decrypt_after fingerprint codec out mail t (some p, w)
        ≡ outcome mail t p w (decrypt_if_autocrypt_message out mail (validating_keys (some p)))
  unfolding decrypt_after
  after_header mail t p w quiet = rw (decrypt_after, quiet) refl

  -- The match on the outcome of the decryption.
  outcome_lem :
      (mail : ParsedMail Key) (t : ℤ) (p : Peerstate Key Fpr) (w : Received Blob)
      (d : Decrypted Fpr) (plain : Option (List ℕ)) (signatures : List Fpr)
      → ReadsBack codec
      → from_addr codec mail.from w.acpeerstates ≡ some p
      → (outcome mail t p w d).0 ≡ done plain signatures
      → from_addr codec mail.from (outcome mail t p w d).1.acpeerstates
        ≡ some (state_after (is_some plain) (contains_report mail) t p)
  outcome_lem mail t p w error plain signatures b found e = absurd (cc)
  outcome_lem mail t p w (done some_plain s) plain signatures b found e =
      let same : some_plain ≡ plain = cc in
      rw (← same) (degrade_lem mail (is_some some_plain) (contains_report mail) t p w b found)

  -- A message of a known sender without a valid Autocrypt header, that is read without an error,
  -- takes the sender's preference for encryption back, and stores that, exactly when it is not
  -- encrypted, not a report and newer than the last Autocrypt header; else the stored state stays.
  -- The serialisations can be read back.
  pub try_decrypt-from_addr :
      (mail : ParsedMail Key) (t : ℤ) (w : Received Blob) (p : Peerstate Key Fpr)
      (plain : Option (List ℕ)) (signatures : List Fpr)
      → ReadsBack codec
      → from_headers out mail.from mail ≡ none
      → from_addr codec mail.from w.acpeerstates ≡ some p
      → (try_decrypt fingerprint codec out mail t w).0 ≡ done plain signatures
      → from_addr codec mail.from (try_decrypt fingerprint codec out mail t w).1.acpeerstates
        ≡ some (state_after (is_some plain) (contains_report mail) t p)
  unfolding try_decrypt take_header
  try_decrypt-from_addr mail t w p plain signatures b no_header found read =
      let quiet = unwarned p w (from_addr-unchanged codec mail.from w.acpeerstates p found) in
      let d = decrypt_if_autocrypt_message out mail (validating_keys (some p)) in
      let whole : try_decrypt fingerprint codec out mail t w ≡ outcome mail t p w d =
        rw (no_header, found) (after_header mail t p w quiet) in
      rw whole
        (outcome_lem mail t p w d plain signatures b found (ap (λ r. r.0) (sym whole) ∙ read))
