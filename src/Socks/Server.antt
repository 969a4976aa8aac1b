-- ===== src/Socks/Server.antt =====
-- The server of socks.go around its `Dial` function. Whether go-socks5 takes the configuration, and
-- the port that the system gives to the listener, are arguments.
use wrapguard.Prelude.{◌≡◌, refl, Bool, true, false, Option, none, some, if◌then◌else◌, ℤ}

-- `none` is a listener that could not be made.
pub record SocksAnswers : Type 0 where
  pub takes : Bool
  pub port : Option ℤ

pub record SocksServer : Type 0 where
  pub listening : Bool
  pub port : ℤ

-- `NewSOCKS5Server`; `none` is an error.
unfoldable pub new_socks_server : SocksAnswers → Option SocksServer
new_socks_server answers =
    if answers.takes
    then elim answers.port [ none ↦ none | some p ↦ some (record { listening = true; port = p }) ]
    else none

pub new_socks_server-some :
    (answers : SocksAnswers) {p : ℤ}
    → answers.takes ≡ true
    → answers.port ≡ some p
    → new_socks_server answers ≡ some (record { listening = true; port = p })
unfolding new_socks_server
new_socks_server-some answers {p} e h = rw (e, h, new_socks_server) refl

-- `Close`, and whether it returned an error: a listener is closed once.
abbrev pub close_socks_server : SocksServer → SocksServer × Bool
close_socks_server s = (record s { listening = false }, if s.listening then false else true)
