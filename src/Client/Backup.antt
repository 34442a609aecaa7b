-- ===== src/Client/Backup.antt =====
-- A device that is a backup (client/tss_add.go, from line 626): `backup` registers a new device and accepts
-- it, concurrently; Backup prints what the registration gave, and FromBackup reads it. RegisterDevice
-- and AcceptDevice show as what they return. encoding/json is a parameter.
pub mod Kept
pub mod Returns
pub mod Tests
use meemaw.Prelude.{
  List, [], ◌∷◌, Option, none, some, Str, str, Dict, lookup, Outcome, ok, err, ◌>>=◌, GoError,
}
use meemaw.Encoding.Hex.{encode, decode}
use meemaw.Tss.Wallet.{DkgResult}

-- What `backup` returns: the pointer to the new device's result, and its metadata.
abbrev pub Device : Type 0
Device = Option DkgResult × Str

-- The goroutine that registers the device.
pub data Registering : Type 0 where
  registers checks_registered signals gone : Registering

-- Where `backup` itself stands.
pub data Accepting : Type 0 where
  accepts checks_accepted waits : Accepting
  returned : Outcome Device → Accepting

-- Both use the variable `error`; newClientDone is a channel without a buffer.
pub record State : Type 0 where
  pub registering : Registering
  pub accepting : Accepting
  pub dkg_result : Option DkgResult
  pub metadata : Str
  pub error : Option GoError

-- RegisterDevice or AcceptDevice returns, or one of the two goes on. A check of the variable and the
-- return of its error are one step.
pub data Event : Type 0 where
  register_returns : Option DkgResult → Str → Option GoError → Event
  accept_returns : Option GoError → Event
  goroutine_runs main_runs : Event

unfoldable pub initial : State
initial = record {
  registering = registers;
  accepting = accepts;
  dkg_result = none;
  metadata = [];
  error = none;
}

unfoldable pub after_register :
    Registering → State → Option DkgResult → Str → Option GoError → State
after_register registers s result metadata e = record s {
  registering = checks_registered;
  dkg_result = result;
  metadata = metadata;
  error = e;
}
after_register _ s result metadata e = s

unfoldable pub after_accept : Accepting → State → Option GoError → State
after_accept accepts s e = record s { accepting = checks_accepted; error = e }
after_accept _ s e = s

unfoldable pub goroutine_turn : Registering → Option GoError → State → State
goroutine_turn checks_registered none s = record s { registering = signals }
goroutine_turn checks_registered (some e) s = record s { registering = gone }
goroutine_turn _ _ s = s

-- The other side of newClientDone has to be there.
unfoldable pub receives : Registering → State → State
receives signals s = record s {
  registering = gone;
  accepting = returned (ok (s.dkg_result, s.metadata));
}
receives _ s = s

unfoldable pub accepted : Option GoError → State → State
accepted none s = record s { accepting = waits }
accepted (some e) s = record s { accepting = returned (err e) }

unfoldable pub main_turn : Accepting → State → State
unfolding receives accepted
main_turn checks_accepted s = accepted s.error s
main_turn waits s = receives s.registering s
main_turn _ s = s

unfoldable pub step : State → Event → State
unfolding after_register after_accept goroutine_turn main_turn
step s (register_returns result metadata e) = after_register s.registering s result metadata e
step s (accept_returns e) = after_accept s.accepting s e
step s goroutine_runs = goroutine_turn s.registering s.error s
step s main_runs = main_turn s.accepting s

unfoldable pub run : State → List Event → State
unfolding step
run s [] = s
run s (x ∷ xs) = run (step s x) xs

pub record Json : Type 0 where
  pub marshal_result : Option DkgResult → Outcome Str
  pub marshal_map : Dict Str → Outcome Str
  pub unmarshal_map : Str → Outcome (Dict Str)

-- A key that a Go map does not have reads as the empty string.
unfoldable pub or_empty : Option Str → Str
or_empty none = []
or_empty (some s) = s

abbrev pub backup_map : Str → Str → Dict Str
backup_map result metadata = (str "DkgResult", result) ∷ (str "Metadata", metadata) ∷ []

module _ (j : Json) where
  -- Backup, on what `backup` has returned.
  unfoldable pub print_backup : Outcome Device → Outcome Str
  print_backup device = do
    d ← device
    result ← j.marshal_result d.0
    json ← j.marshal_map (backup_map result d.1)
    ok (encode json)

  -- FromBackup; `backup` is what the function `backup` makes of a result and its metadata.
  unfoldable pub from_backup : (Str → Str → Outcome Device) → Str → Outcome Device
  unfolding or_empty
  from_backup backup s = do
    json ← decode s
    m ← j.unmarshal_map json
    backup (or_empty (lookup (str "DkgResult") m)) (or_empty (lookup (str "Metadata") m))
