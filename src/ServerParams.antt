-- ===== src/ServerParams.antt =====
-- configure/server_params.rs: the servers to try during configuration.
--
-- `Protocol` and `Socket` are those of provider/mod.rs. A list of values with a clone and a change
-- of `self` in between is written as the values themselves.
pub mod Sockets
pub mod Expansion
mod Tests
use juttmy_core.Prelude.{
  ℕ, Text, codes, is_empty, ◌==◌, if◌then◌else◌, Bool, true, false, not, Option, none, some, List,
  [], ◌∷◌, ◌++◌,
}

pub data Protocol : Type 0 where
  smtp imap : Protocol

pub data Socket : Type 0 where
  automatic ssl starttls plain : Socket

pub record ServerParams : Type 0 where
  pub protocol : Protocol
  pub hostname : Text
  pub port : ℕ
  pub socket : Socket
  pub username : Text

-- `addr.find('@')` and `addr.split_at(at).0`
abbrev pub before_at : Text → Option Text
before_at [] = none
before_at (c ∷ s) =
    let rest = before_at s in
    if c == 64 then some [] else elim rest [ none ↦ none | some t ↦ some (c ∷ t) ]

unfoldable pub expand_usernames : Text → ServerParams → List ServerParams
expand_usernames addr p =
    if is_empty p.username
    then record p { username = addr }
      ∷ elim (before_at addr) [ none ↦ [] | some user ↦ record p { username = user } ∷ [] ]
    else p ∷ []

abbrev pub prefix_of : Protocol → Text
prefix_of imap = codes "imap."
prefix_of smtp = codes "smtp."

unfoldable pub expand_hostnames : Text → ServerParams → List ServerParams
expand_hostnames param_domain p =
    if is_empty p.hostname
    then record p { hostname = param_domain }
      ∷ record p { hostname = prefix_of p.protocol ++ param_domain }
      ∷ record p { hostname = codes "mail." ++ param_domain }
      ∷ []
    else p ∷ []

-- The ports of the two kinds of sockets.
abbrev pub tls_port : Protocol → ℕ
tls_port imap = 993
tls_port smtp = 465

abbrev pub starttls_port : Protocol → ℕ
starttls_port imap = 143
starttls_port smtp = 587

-- The port that the socket security tells.
abbrev pub infer_port : Socket → Protocol → ℕ
infer_port ssl protocol = tls_port protocol
infer_port starttls protocol = starttls_port protocol
infer_port plain protocol = starttls_port protocol
infer_port automatic protocol = 0

abbrev pub is_automatic : Socket → Bool
is_automatic automatic = true
is_automatic _ = false

-- `expand_ports` behind the inference of the port.
unfoldable pub expand_sockets : ServerParams → List ServerParams
expand_sockets p =
    if p.port == 0
    then record p { socket = starttls; port = starttls_port p.protocol }
      ∷ record p { socket = ssl; port = tls_port p.protocol }
      ∷ []
    else if is_automatic p.socket
    then record p { socket = ssl } ∷ record p { socket = starttls } ∷ []
    else p ∷ []

unfoldable pub expand_ports : ServerParams → List ServerParams
unfolding expand_sockets
expand_ports p =
    expand_sockets (if p.port == 0 then record p { port = infer_port p.socket p.protocol } else p)

-- `v.into_iter().flat_map(f)`
abbrev pub flat_map : (ServerParams → List ServerParams) → List ServerParams → List ServerParams
flat_map f [] = []
flat_map f (p ∷ ps) = f p ++ flat_map f ps

unfoldable pub expand_param_vector : List ServerParams → Text → Text → List ServerParams
expand_param_vector v addr domain =
    flat_map expand_ports (flat_map (expand_hostnames domain) (flat_map (expand_usernames addr) v))
