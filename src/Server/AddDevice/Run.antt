-- ===== src/Server/AddDevice/Run.antt =====
-- The two handlers of server/tss_add.go together, with the library: every order of their steps.
use meemaw.Prelude.{ℕ, List, [], ◌∷◌, Str, Outcome, ok, ◌>>=◌}
use meemaw.Tss.PeerManager.{Payload}
use meemaw.Tss.Service.{MainState}
use meemaw.Ws.Endpoint.{Turn}
use meemaw.Server.Database.{Db}
use meemaw.Server.AddDevice.Shared.{Setting, Shared, fresh, at_place, adder_changes, adder_sends}
use meemaw.Server.AddDevice.Register.{Register, register_turn}
use meemaw.Server.AddDevice.Accept.{Accept, accept_turn}

pub record State (e : Setting) : Type 0 where
  pub register : Register
  pub accept : Accept
  pub shared : Shared e

-- A step of one handler, or what the library does with the object at a place.
pub data Event (e : Setting) : Type 0 where
  registering accepting : Turn → Event e
  tss_sends : ℕ → Str → Payload e.lib.M → Event e
  tss_changes : ℕ → MainState → MainState → Event e

module _ (e : Setting) (user_id user_agent : Str) where
  unfoldable pub step : State e → Event e → Outcome (State e)
  unfolding register_turn accept_turn adder_changes adder_sends at_place
  step s (registering t) = register_turn e user_id user_agent s.register s.shared t >>= λ r.
      ok (record s { register = r.0; shared = r.1 })
  step s (accepting t) = accept_turn e user_id s.accept s.shared t >>= λ r.
      ok (record s { accept = r.0; shared = r.1 })
  step s (tss_sends n to message) =
      ok (record s { shared = adder_sends e n (at_place n s.shared.adders) to message s.shared })
  step s (tss_changes n old_state new_state) =
      adder_changes e n (at_place n s.shared.adders) old_state new_state s.shared >>= λ sh.
      ok (record s { shared = sh })

  unfoldable pub run : State e → List (Event e) → Outcome (State e)
  unfolding step
  run s [] = ok s
  run s (x ∷ xs) = step s x >>= λ s'. run s' xs

abbrev pub initial : (e : Setting) → Db → e.crypto.Random → State e
initial e db random = record {
  register = meemaw.Server.AddDevice.Register.initial;
  accept = meemaw.Server.AddDevice.Accept.initial;
  shared = fresh e db random;
}
