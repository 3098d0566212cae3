-- ===== src/ServerParams/Tests.antt =====
-- The parameters of server_params.rs at concrete inputs: its own test, and a user who gave nothing.
use juttmy_core.Prelude.{codes, [], ◌∷◌, ◌≡◌, refl, All}
use juttmy_core.ServerParams.{
  smtp, imap, automatic, ssl, ServerParams, expand_param_vector, expand_ports, expand_sockets,
  expand_hostnames, expand_usernames,
}
use juttmy_core.ServerParams.Sockets.{From, IsComplete}
use juttmy_core.ServerParams.Expansion.{expand_param_vector-IsComplete}

abbrev given : ServerParams
given = record {
  protocol = imap;
  hostname = codes "example.net";
  port = 0;
  socket = ssl;
  username = codes "foobar";
}

abbrev unknown : ServerParams
unknown = record { protocol = smtp; hostname = []; port = 0; socket = automatic; username = [] }

-- `test_expand_param_vector`
expanded :
    expand_param_vector (given ∷ []) (codes "foobar@example.net") (codes "example.net")
    ≡ record given { port = 993 } ∷ []
unfolding expand_param_vector expand_ports expand_sockets expand_hostnames expand_usernames
expanded = refl

expand_param_vector-IsComplete_example :
    All
      (λ r. From (unknown ∷ given ∷ []) r × IsComplete r)
      (expand_param_vector (unknown ∷ given ∷ []) (codes "f@e.net") (codes "e.net"))
expand_param_vector-IsComplete_example =
    expand_param_vector-IsComplete (codes "f@e.net") (codes "e.net") refl (λ e. cc) refl
      (unknown ∷ given ∷ [])
