-- ===== src/Securejoin/Changes.antt =====
-- securejoin.rs: what one message may change. The relation `Change` lists the four ways.
pub mod Inviter
pub mod Joiner
pub mod Handle
use juttmy_core.Prelude.{
  ℕ, Text, ◌≡◌, refl, Bool, true, false, not, Option, none, some, Eq, arith, if_both, if_split,
  unless_split, option_split, inl, inr, ◌⊎◌, List, ◌&&◌, ◌||◌,
}
use juttmy_core.Peerstate.Saving.{Codec}
use juttmy_core.Securejoin.{
  World, Env, Mime, Scan, Expects, not_active, auth_required, contact_confirm, encrypted_and_signed,
  fingerprint_equals_sender, mark_peer_as_verified, exists, Effect, panic,
}
use juttmy_core.Securejoin.Steps.{Handled, Kind, send, unwrap}
use juttmy_core.Securejoin.Steps
use juttmy_core.Securejoin.Inviter.{
  handle_request, handle_request_with_auth, handle_received, check_auth, accept, add_to_group,
  report_group,
}
use juttmy_core.Securejoin.Joiner.{
  handle_auth_required, handle_confirm, answer_with_auth, expects_eq, is_group,
}

-- What no message changes.
pub record Frame {Fpr Blob : Type 0} (w w' : World Fpr Blob) : Type 0 where
  pub scan : w'.qr_scan ≡ w.qr_scan
  pub invitenumbers : w'.invitenumbers ≡ w.invitenumbers
  pub auths : w'.auths ≡ w.auths

-- Nothing but the log may differ.
pub record Idle {Fpr Blob : Type 0} (w w' : World Fpr Blob) : Type 0 where
  pub peers : w'.peers ≡ w.peers
  pub expects : w'.expects ≡ w.expects
  pub scan : w'.qr_scan ≡ w.qr_scan
  pub invitenumbers : w'.invitenumbers ≡ w.invitenumbers
  pub auths : w'.auths ≡ w.auths

-- A property of what follows an `unwrap`, and of the panic.
pub unwrap_split :
    {A Fpr Blob : Type 0} (P : Handled Fpr Blob → Type 0) (o : Option A) (w : World Fpr Blob)
    {next : A → Handled Fpr Blob}
    → (o ≡ none → P (panic, w))
    → ((a : A) → o ≡ some a → P (next a))
    → P (unwrap o w next)
unfolding unwrap
unwrap_split P none w p h = p refl
unwrap_split P (some a) w p h = h a refl

pub log_only :
    {Fpr Blob : Type 0} (w : World Fpr Blob) (l : List Effect) → Idle w (record w { log = l })
log_only w l = record {
  peers = refl;
  expects = refl;
  scan = refl;
  invitenumbers = refl;
  auths = refl;
}

-- The ways in which the handling of one message may change the world: not at all (but for the log);
-- Bob answers an auth-required message; Alice accepts a request with the secret; Bob accepts the
-- confirmation.
pub data Change {Key Fpr Blob : Type 0} ⦃ef : Eq Fpr⦄ (codec : Codec Key Fpr Blob) (env : Env Fpr)
    (m : Mime Fpr) (chat : ℕ) (vg : Bool) (w w' : World Fpr Blob) : Kind → Type 0 where
  idle : {k : Kind} → Idle w w' → Change codec env m chat vg w w' k
  answered :
      {k : Kind} (scan : Scan Fpr) (fp : Fpr)
      → k ≡ Steps.auth_required
      → w.qr_scan ≡ some scan
      → scan.fingerprint ≡ some fp
      → w.expects ≡ auth_required
      → encrypted_and_signed m (some fp) ≡ true
      → fingerprint_equals_sender codec env w fp chat ≡ true
      → w'.expects ≡ contact_confirm
      → w'.peers ≡ w.peers
      → Frame w w'
      → Change codec env m chat vg w w' k
  accepted :
      {k : Kind} (fp : Fpr) (auth : Text)
      → k ≡ Steps.request_with_auth
      → encrypted_and_signed m (some fp) ≡ true
      → fingerprint_equals_sender codec env w fp chat ≡ true
      → m.auth ≡ some auth
      → exists auth w.auths ≡ true
      → mark_peer_as_verified codec fp w.peers ≡ some w'.peers
      → w'.expects ≡ w.expects
      → Frame w w'
      → Change codec env m chat vg w w' k
  confirmed :
      {k : Kind} (scan : Scan Fpr) (fp : Fpr)
      → k ≡ Steps.confirm
      → w.qr_scan ≡ some scan
      → scan.fingerprint ≡ some fp
      → w.expects ≡ contact_confirm
      → (vg ≡ false → encrypted_and_signed m (some fp) ≡ true)
      → mark_peer_as_verified codec fp w.peers ≡ some w'.peers
      → (w'.expects ≡ contact_confirm) ⊎ (w'.expects ≡ not_active)
      → Frame w w'
      → Change codec env m chat vg w w' k
