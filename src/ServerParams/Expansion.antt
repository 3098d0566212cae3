-- ===== src/ServerParams/Expansion.antt =====
-- configure/server_params.rs: what the expansion yields.
use juttmy_core.Prelude.{
  Text, codes, is_empty, true, false, some, List, [], ◌∷◌, ◌++◌, All, All-append, inl, inr, ◌≡◌,
  ◌≢◌, refl, if_split, option_split,
}
use juttmy_core.ServerParams.{
  Protocol, smtp, imap, ServerParams, before_at, expand_usernames, expand_hostnames, expand_ports,
  flat_map, expand_param_vector, prefix_of,
}
use juttmy_core.ServerParams.Sockets.{
  Refines, Refines-self, IsComplete, In, From, Named, Hosted, Refines-trans, All-map,
  expand_ports-IsComplete,
}

module _ (addr domain : Text) (addr_given : is_empty addr ≡ false)
    (user_given : before_at addr ≢ some []) (domain_given : is_empty domain ≡ false) where
  expand_usernames-Named :
      (p : ServerParams) → All (λ r. Refines p r × Named r) (expand_usernames addr p)
  unfolding expand_usernames
  expand_usernames-Named p =
      if_split (All (λ r. Refines p r × Named r)) (is_empty p.username)
        (λ unset. (
          (with_user addr unset, addr_given),
          option_split (All (λ r. Refines p r × Named r)) (before_at addr) (λ _. tt)
              (λ user e. ((with_user user unset, user_named user e), tt)),
        ))
        (λ given. ((Refines-self p, given), tt))
    where
      with_user : (u : Text) → is_empty p.username ≡ true → Refines p (record p { username = u })
      with_user u unset = record {
        protocol = refl;
        hostname = λ _. refl;
        port = λ _. refl;
        socket = λ _. refl;
        username = λ w. cc;
      }

      user_named : (u : Text) → before_at addr ≡ some u → is_empty u ≡ false
      user_named [] e = absurd (user_given e)
      user_named (c ∷ u) e = refl

  expand_hostnames-Hosted :
      (p : ServerParams) → Named p → All (λ r. Refines p r × Hosted r) (expand_hostnames domain p)
  unfolding expand_hostnames
  expand_hostnames-Hosted p n =
      if_split (All (λ r. Refines p r × Hosted r)) (is_empty p.hostname)
        (λ unset. (
          (at domain unset, (n, domain_given)),
          (
            (at (prefix_of p.protocol ++ domain) unset, (n, prefixed p.protocol)),
            ((at (codes "mail." ++ domain) unset, (n, refl)), tt),
          ),
        ))
        (λ given. ((Refines-self p, (n, given)), tt))
    where
      at : (h : Text) → is_empty p.hostname ≡ true → Refines p (record p { hostname = h })
      at h unset = record {
        protocol = refl;
        hostname = λ w. cc;
        port = λ _. refl;
        socket = λ _. refl;
        username = λ _. refl;
      }

      prefixed : (k : Protocol) → is_empty (prefix_of k ++ domain) ≡ false
      prefixed smtp = refl
      prefixed imap = refl

  -- One stage of the expansion.
  stage :
      (P Q : ServerParams → Type 0) (f : ServerParams → List ServerParams)
      (v ps : List ServerParams)
      → ((p : ServerParams) → P p → All (λ r. Refines p r × Q r) (f p))
      → All (λ p. From v p × P p) ps
      → All (λ r. From v r × Q r) (flat_map f ps)
  stage P Q f v [] step h = tt
  stage P Q f v (p ∷ ps) step (((o, (i, a)), k), h) =
      All-append (λ r. From v r × Q r) (f p) (flat_map f ps)
        (All-map (λ r. λ (b, q). ((o, (i, Refines-trans a b)), q)) (f p) (step p k))
        (stage P Q f v ps step h)

  -- For an address that does not begin with "@" and a domain, both not empty, every expanded set of
  -- parameters is complete, with a host, a port, a kind of socket and a user, and comes from one of
  -- the given sets, whose known fields it keeps.
  pub expand_param_vector-IsComplete :
      (v : List ServerParams)
      → All (λ r. From v r × IsComplete r) (expand_param_vector v addr domain)
  unfolding expand_param_vector
  expand_param_vector-IsComplete v =
      stage Hosted IsComplete expand_ports v _ expand_ports-IsComplete (
        stage Named Hosted (expand_hostnames domain) v _ expand_hostnames-Hosted (
          stage (λ _. Unit) Named (expand_usernames addr) v _ (λ p _. expand_usernames-Named p)
            (given v v (λ p i. i))))
    where
      given :
          (v ps : List ServerParams)
          → ((p : ServerParams) → In p ps → In p v)
          → All (λ p. From v p × Unit {0}) ps
      given v [] i = tt
      given v (p ∷ ps) i =
          (((p, (i p (inl refl), Refines-self p)), tt), given v ps (λ q j. i q (inr j)))
