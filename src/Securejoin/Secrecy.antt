-- ===== src/Securejoin/Secrecy.antt =====
-- securejoin.rs: a message that is handed over for encrypted sending.
use juttmy_core.Prelude.{
  ℕ, Text, text_eq, codes, ◌≡◌, refl, Bool, true, false, ◌||◌, Option, Eq, arith, if_both, ◌++◌,
  All, if◌then◌else◌,
}
use juttmy_core.Peerstate.Saving.{Codec}
use juttmy_core.Securejoin.{World, Env, Effect, sent, emit, handshake_msg}
use juttmy_core.Securejoin.Steps.{Handled, send, protocol}

-- A message that was handed over is guaranteed to be encrypted, and not forced to be plain.
abbrev pub IsEncrypted : Effect → Type 0
IsEncrypted (sent s) = (s.guarantee_e2ee ≡ true) × (s.force_plaintext ≡ false)
IsEncrypted _ = Unit

abbrev pub Secret : {Fpr Blob : Type 0} → Handled Fpr Blob → Type 0
Secret r = All IsEncrypted r.1.log

-- The two steps that are sent in plain text.
abbrev pub is_request : Text → Bool
is_request step = text_eq step (codes "vg-request") || text_eq step (codes "vc-request")

pub handshake_msg-IsEncrypted :
    {Fpr : Type 0} (hex : Fpr → Text) (chat : ℕ) (step param2 : Text) (fp : Option Fpr)
    (grpid : Text)
    → is_request step ≡ false
    → IsEncrypted (sent (handshake_msg hex chat step param2 fp grpid))
unfolding handshake_msg
handshake_msg-IsEncrypted hex chat step param2 fp grpid h = (ground arith, ground arith)

pub auth_required_step : (vg : Bool) → is_request (protocol vg ++ codes "-auth-required") ≡ false
auth_required_step true = refl
auth_required_step false = refl

pub with_auth_step : (vg : Bool) → is_request (protocol vg ++ codes "-request-with-auth") ≡ false
with_auth_step true = refl
with_auth_step false = refl

pub received_step :
    (vg : Bool)
    → is_request
        (if vg then codes "vg-member-added-received" else codes "vc-contact-confirm-received")
      ≡ false
received_step true = refl
received_step false = refl

module _ {Key Fpr Blob : Type 0} ⦃ef : Eq Fpr⦄ (codec : Codec Key Fpr Blob) (env : Env Fpr) where
  pub send-Secret :
      (chat : ℕ) (step param2 : Text) (fp : Option Fpr) (grpid : Text) (w : World Fpr Blob)
      (next : World Fpr Blob → Handled Fpr Blob)
      → is_request step ≡ false
      → All IsEncrypted w.log
      → ((w' : World Fpr Blob) → All IsEncrypted w'.log → Secret (next w'))
      → Secret (send codec env chat step param2 fp grpid w next)
  unfolding send
  send-Secret chat step param2 fp grpid w next plain h keeps =
      let msg = handshake_msg codec.hex chat step param2 fp grpid in
      if_both (Secret {Fpr = Fpr} {Blob = Blob}) (env.send_msg msg)
        (keeps (emit (sent msg) w)
          (handshake_msg-IsEncrypted codec.hex chat step param2 fp grpid plain, h))
        h
