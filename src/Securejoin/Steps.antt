-- ===== src/Securejoin/Steps.antt =====
-- securejoin.rs: sending, the accesses to Bob's scan, and the names of the protocol's messages.
use juttmy_core.Prelude.{
  ℕ, Text, codes, text_eq, starts_with, Bool, ◌||◌, Option, none, some, [], if◌then◌else◌,
}
use juttmy_core.Peerstate.Saving.{Codec}
use juttmy_core.Securejoin.{
  World, Env, Outcome, err, panic, msg_send_failed, sent, emit, handshake_msg,
}

-- The message kinds of the `match` on the header `Secure-Join`.
pub data Kind : Type 0 where
  request auth_required request_with_auth confirm received unknown : Kind

-- Which arm of the `match` takes a step, and whether it begins with "vg-" (`join_vg`).
unfoldable pub kind_of : Text → Kind
kind_of step =
    if text_eq step (codes "vg-request") || text_eq step (codes "vc-request")
    then request
    else if text_eq step (codes "vg-auth-required") || text_eq step (codes "vc-auth-required")
    then auth_required
    else if text_eq step (codes "vg-request-with-auth")
        || text_eq step (codes "vc-request-with-auth")
    then request_with_auth
    else if text_eq step (codes "vg-member-added") || text_eq step (codes "vc-contact-confirm")
    then confirm
    else if text_eq step (codes "vg-member-added-received")
        || text_eq step (codes "vc-contact-confirm-received")
    then received
    else unknown

unfoldable pub join_vg : Text → Bool
join_vg step = starts_with (codes "vg-") step

-- `&step[..2]`
abbrev pub protocol : Bool → Text
protocol vg = if vg then codes "vg" else codes "vc"

-- `header.map(|s| s.as_str()).unwrap_or_else(|| "")`
abbrev pub or_empty : Option Text → Text
or_empty none = []
or_empty (some s) = s

-- The result of a handler, with the state that it leaves.
abbrev pub Handled : Type 0 → Type 0 → Type 0
Handled Fpr Blob = Outcome × World Fpr Blob

module _ {Key Fpr Blob : Type 0} (codec : Codec Key Fpr Blob) (env : Env Fpr) where
  -- `send_handshake_msg(…).await?` and what follows.
  unfoldable pub send :
      ℕ
      → Text
      → Text
      → Option Fpr
      → Text
      → World Fpr Blob
      → (World Fpr Blob → Handled Fpr Blob)
      → Handled Fpr Blob
  send chat step param2 fingerprint grpid w next =
      let msg = handshake_msg codec.hex chat step param2 fingerprint grpid in
      if env.send_msg msg then next (emit (sent msg) w) else (err msg_send_failed, w)

-- `unwrap` on what `get_qr_attr!` reads.
unfoldable pub unwrap :
    {A Fpr Blob : Type 0} → Option A → World Fpr Blob → (A → Handled Fpr Blob) → Handled Fpr Blob
unwrap none w next = (panic, w)
unwrap (some a) w next = next a
