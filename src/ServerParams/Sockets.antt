-- ===== src/ServerParams/Sockets.antt =====
-- configure/server_params.rs: the last stage of the expansion, ports and sockets.
use juttmy_core.Prelude.{
  ℕ, is_empty, ◌==◌, true, false, List, [], ◌∷◌, All, ◌≡◌, ◌≢◌, ◌⊎◌, refl, arith, ap, sym, ◌∙◌,
  if_split,
}
use juttmy_core.ServerParams.{
  Protocol, smtp, imap, Socket, automatic, ssl, starttls, plain, ServerParams, tls_port,
  starttls_port, expand_ports, expand_sockets, infer_port, is_automatic,
}

-- A field that was given is kept.
pub record Refines (p r : ServerParams) : Type 0 where
  pub protocol : r.protocol ≡ p.protocol
  pub hostname : is_empty p.hostname ≡ false → r.hostname ≡ p.hostname
  pub port : p.port ≢ 0 → r.port ≡ p.port
  pub socket : p.socket ≢ automatic → r.socket ≡ p.socket
  pub username : is_empty p.username ≡ false → r.username ≡ p.username

pub Refines-self : (p : ServerParams) → Refines p p
Refines-self p = record {
  protocol = refl;
  hostname = λ _. refl;
  port = λ _. refl;
  socket = λ _. refl;
  username = λ _. refl;
}

-- Nothing is left to guess.
pub record IsComplete (p : ServerParams) : Type 0 where
  pub hostname : is_empty p.hostname ≡ false
  pub port : p.port ≢ 0
  pub socket : p.socket ≢ automatic
  pub username : is_empty p.username ≡ false

-- An element of the list.
abbrev pub In : ServerParams → List ServerParams → Type 0
In p [] = ⊥
In p (q ∷ qs) = (p ≡ q) ⊎ In p qs

-- It comes from an element, whose known fields it keeps.
abbrev pub From : List ServerParams → ServerParams → Type 0
From v r = (p : ServerParams) × (In p v × Refines p r)

-- The stages, with what each has made certain.
abbrev pub Named : ServerParams → Type 0
Named p = is_empty p.username ≡ false

abbrev pub Hosted : ServerParams → Type 0
Hosted p = (is_empty p.username ≡ false) × (is_empty p.hostname ≡ false)

pub Refines-trans : {p q r : ServerParams} → Refines p q → Refines q r → Refines p r
Refines-trans {p} {q} {r} a b = record {
  protocol = b.protocol ∙ a.protocol;
  hostname = λ h. b.hostname (ap is_empty (a.hostname h) ∙ h) ∙ a.hostname h;
  port = λ h. b.port (λ z. h (sym (a.port h) ∙ z)) ∙ a.port h;
  socket = λ h. b.socket (λ z. h (sym (a.socket h) ∙ z)) ∙ a.socket h;
  username = λ h. b.username (ap is_empty (a.username h) ∙ h) ∙ a.username h;
}

tls_port_ne : (k : Protocol) → tls_port k ≢ 0
tls_port_ne smtp e = omega arith
tls_port_ne imap e = omega arith

starttls_port_ne : (k : Protocol) → starttls_port k ≢ 0
starttls_port_ne smtp e = omega arith
starttls_port_ne imap e = omega arith

-- A port that cannot be inferred is one of an unknown socket.
infer_port-zero : (s : Socket) (k : Protocol) → infer_port s k ≡ 0 → s ≡ automatic
infer_port-zero automatic k e = refl
infer_port-zero ssl k e = absurd (tls_port_ne k e)
infer_port-zero starttls k e = absurd (starttls_port_ne k e)
infer_port-zero plain k e = absurd (starttls_port_ne k e)

is_automatic-false : (s : Socket) → is_automatic s ≡ false → s ≢ automatic
is_automatic-false s e h = cc (ap is_automatic h)

is_automatic-true : (s : Socket) → is_automatic s ≡ true → s ≡ automatic
is_automatic-true automatic e = refl
is_automatic-true ssl e = absurd (cc)
is_automatic-true starttls e = absurd (cc)
is_automatic-true plain e = absurd (cc)

expand_sockets-IsComplete :
    (p : ServerParams)
    → Hosted p
    → (p.port ≡ 0 → p.socket ≡ automatic)
    → All (λ r. Refines p r × IsComplete r) (expand_sockets p)
unfolding expand_sockets
expand_sockets-IsComplete p (n, h) unknown =
    if_split (All (λ r. Refines p r × IsComplete r)) (p.port == 0)
      (λ z.
        let z' : p.port ≡ 0 = ground arith in
        let s = unknown z' in
        (
          (
            guessed starttls (starttls_port p.protocol) (λ w. absurd (w z')) (λ w. absurd (w s)),
            full starttls (starttls_port p.protocol) (starttls_port_ne p.protocol) (λ e. cc),
          ),
          (
            (
              guessed ssl (tls_port p.protocol) (λ w. absurd (w z')) (λ w. absurd (w s)),
              full ssl (tls_port p.protocol) (tls_port_ne p.protocol) (λ e. cc),
            ),
            tt,
          ),
        ))
      (λ known.
        let w : p.port ≢ 0 = ground (arith, known) in
        if_split (All (λ r. Refines p r × IsComplete r)) (is_automatic p.socket)
          (λ a.
            let s = is_automatic-true p.socket a in
            (
              (guessed ssl p.port (λ _. refl) (λ v. absurd (v s)), full ssl p.port w (λ e. cc)),
              (
                (
                  guessed starttls p.port (λ _. refl) (λ v. absurd (v s)),
                  full starttls p.port w (λ e. cc),
                ),
                tt,
              ),
            ))
          (λ b. (
            (
              Refines-self p,
              record {
                hostname = h;
                port = w;
                socket = is_automatic-false p.socket b;
                username = n;
              },
            ),
            tt,
          )))
  where
    guessed :
        (s : Socket) (port : ℕ)
        → (p.port ≢ 0 → port ≡ p.port)
        → (p.socket ≢ automatic → s ≡ p.socket)
        → Refines p (record p { socket = s; port = port })
    guessed s port a b = record {
      protocol = refl;
      hostname = λ _. refl;
      port = a;
      socket = b;
      username = λ _. refl;
    }

    full :
        (s : Socket) (port : ℕ)
        → port ≢ 0
        → s ≢ automatic
        → IsComplete (record p { socket = s; port = port })
    full s port a b = record { hostname = h; port = a; socket = b; username = n }

pub All-map :
    {P Q : ServerParams → Type 0}
    → ((r : ServerParams) → P r → Q r)
    → (rs : List ServerParams) → All P rs
    → All Q rs
All-map f [] h = tt
All-map f (r ∷ rs) (p, h) = (f r p, All-map f rs h)

pub expand_ports-IsComplete :
    (p : ServerParams) → Hosted p → All (λ r. Refines p r × IsComplete r) (expand_ports p)
unfolding expand_ports
expand_ports-IsComplete p n =
    if_split (λ q. All (λ r. Refines p r × IsComplete r) (expand_sockets q)) (p.port == 0)
      (λ z.
        let q = record p { port = infer_port p.socket p.protocol } in
        let given : Refines p q = record {
          protocol = refl;
          hostname = λ _. refl;
          port = λ w. absurd (w (ground (arith, z)));
          socket = λ _. refl;
          username = λ _. refl;
        } in
        All-map (λ r. λ (a, c). (Refines-trans given a, c)) (expand_sockets q)
          (expand_sockets-IsComplete q n (infer_port-zero p.socket p.protocol)))
      (λ known.
        expand_sockets-IsComplete p n
          (λ z. absurd (let e : (p.port == 0) ≡ true = ground (arith, z) in cc)))
