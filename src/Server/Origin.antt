-- ===== src/Server/Origin.antt =====
-- What the websocket handlers do before their loops (server/tss_dkg.go, tss_sign.go, tss_add.go): the origin
-- pattern, the upgrade of the connection, and the answers when something is missing. url.Parse and
-- websocket.Accept are parameters.
use meemaw.Prelude.{◌++◌, Str, str, str_eq, if◌then◌else◌, Outcome, ok, err, panic, ◌>>=◌}
use meemaw.Server.Auth.{Response, http_error}

-- The Host and the Path of a parsed URL.
pub record Upgrade : Type 1 where
  pub parse : Str → Outcome (Str × Str)
  pub Conn : Type 0
  pub accept : Str → Outcome Conn  -- with this origin pattern

-- A handler answers by itself, or has its connection and what it needs.
pub data Start (A : Type 0) : Type 0 where
  answers : Response → Start A
  begins : A → Start A

abbrev pub internal_server_error : Response
internal_server_error = http_error (str "Internal Server Error") 500

module _ (u : Upgrade) where
  origin_of : Str → Outcome Str
  origin_of client_origin =
      if str_eq client_origin (str "*")
      then ok (str "*")
      else (u.parse client_origin >>= λ p. ok (p.0 ++ p.1))

  or_internal_error : {A B : Type 0} → Outcome A → (A → Outcome (Start B)) → Outcome (Start B)
  or_internal_error (ok a) k = k a
  or_internal_error (err e) k = ok (answers internal_server_error)
  or_internal_error panic k = panic

  -- The connection, or the answer 500 for an origin or an upgrade that fails.
  unfoldable pub connect : Str → Outcome (Start u.Conn)
  unfolding origin_of or_internal_error
  connect client_origin =
      or_internal_error (origin_of client_origin)
        (λ origin. or_internal_error (u.accept origin) (λ c. ok (begins c)))
