-- ===== src/Client/Session.antt =====
-- Sign (client/client.go) once its goroutines run: the process, the error that ends the connection, and what
-- is returned.
pub mod Signed
use meemaw.Prelude.{
  Bool, true, false, List, [], ◌∷◌, Option, none, some, Str, str, if◌then◌else◌, Outcome, ok, err,
  panic, ◌>>=◌, GoError,
}
use meemaw.Encoding.Hex.{Bytes}
use meemaw.Tss.Alice.{Alice}
use meemaw.Tss.Signature.{Ecdsa, Signature}
use meemaw.Tss.PeerManager.{Payload}
use meemaw.Tss.Service.{Library, MainState}
use meemaw.Tss.Actors.{Party}
use meemaw.Tss.Actors.Signer.{
  SignerConfig, SignerOutput, SignerLibrary, client_signer_next, client_signer_process,
}
use meemaw.Tss.Actors.Signer.Endpoint.{endpoint, process_sends, process_changes}
use meemaw.Tss.Connection.{GenericTss, Messages, Connection, Turn, receives, sends, turn, opened}

pub record Setting : Type 1 where
  pub a : Alice
  pub lib : Library SignerOutput
  pub signers : SignerLibrary a lib
  pub ecdsa : Ecdsa
  pub messages : Messages lib.M

-- Where Sign stands: in signer.Process, at `<-errs`, or it has returned.
pub data Main : Type 0 where
  processes : Main
  waits_errs : Signature → Main
  returned : Outcome Signature → Main

pub record State (e : Setting) : Type 0 where
  pub connection : Connection (Party SignerConfig e.lib)
  pub main : Main
  pub cancelled : Bool  -- ctx.Err() == context.Canceled

pub data Event (e : Setting) : Type 0 where
  reads : Outcome Str → Event e
  writes : Outcome (Unit {0}) → Event e
  main_runs : Event e
  tss_sends : Str → Payload e.lib.M → Event e
  tss_changes : MainState → MainState → Event e

module _ (e : Setting) where
  open e use {a, lib, ecdsa, messages}

  -- The signer as Send and Receive see it.
  abbrev pub client_tss : GenericTss (Party SignerConfig lib) lib.M
  client_tss = endpoint a lib e.signers (client_signer_next a lib e.signers)

  processed : State e → Option (Outcome Signature) → Outcome (State e)
  processed s none = ok s
  processed s (some (ok signature)) = ok (record s { main = waits_errs signature })
  processed s (some (err x)) =
      ok (record s { main = returned (err GoError.tss_process_failed); cancelled = true })
  processed s (some panic) = panic

  -- The first error on the channel ends the wait, however the connection was closed.
  ended : State e → Signature → List GoError → Outcome (State e)
  ended s signature [] = ok s
  ended s signature (x ∷ errs) = ok (record s {
    connection = record s.connection { errs = errs };
    main = returned (if s.cancelled then err x else ok signature);
    cancelled = true;
  })

  main_turn : Main → State e → Outcome (State e)
  unfolding processed client_signer_process ended
  main_turn processes s = processed s (client_signer_process a lib e.signers ecdsa s.connection.tss)
  main_turn (waits_errs signature) s = ended s signature s.connection.errs
  main_turn (returned r) s = ok s

  with_connection : State e → Outcome (Connection (Party SignerConfig lib)) → Outcome (State e)
  with_connection s r = r >>= λ c. ok (record s { connection = c })

  unfoldable pub step : State e → Event e → Outcome (State e)
  unfolding main_turn with_connection endpoint turn process_sends process_changes client_signer_next
  step s (reads read) =
      with_connection s (turn messages client_tss s.connection (receives s.cancelled read))
  step s (writes write) =
      with_connection s (turn messages client_tss s.connection (sends s.cancelled write))
  step s main_runs = main_turn s.main s
  step s (tss_sends to message) =
      ok (record s { connection = process_sends lib s.connection to message })
  step s (tss_changes old_state new_state) =
      with_connection s (process_changes lib s.connection old_state new_state)

  unfoldable pub run : State e → List (Event e) → Outcome (State e)
  run s [] = ok s
  run s (x ∷ xs) = step s x >>= λ s'. run s' xs

  abbrev pub initial : Party SignerConfig lib → State e
  initial signer = record { connection = opened signer; main = processes; cancelled = false }
