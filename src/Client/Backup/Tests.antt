-- ===== src/Client/Backup/Tests.antt =====
-- Runs of `backup`, and a backup that is printed and read.
use meemaw.Prelude.{
  ℕ, zero, suc, ◌%◌, ◌≡◌, refl, arith, List, [], ◌∷◌, Option, none, some, Str, str, Dict, lookup,
  All, Outcome, ok, err, GoError, ◌⊎◌,
}
use meemaw.Encoding.Hex.{IsBytes, encode}
use meemaw.Tss.Wallet.{DkgResult}
use meemaw.Tss.Tests.{phone}
use meemaw.Server.Tests.Dkg.{with_share}
use meemaw.Client.Backup.{
  Device, State, Event, register_returns, accept_returns, goroutine_runs, main_runs,
  checks_registered, accepts, waits, initial, after_register, after_accept, goroutine_turn,
  receives, accepted, main_turn, step, run, Json, backup_map, or_empty, print_backup, from_backup,
}
use meemaw.Client.Backup.Kept.{JsonLaws, from_backup-print_backup}
use meemaw.Client.Backup.Returns.{Gives, OfError, run-Returned, failed_registration_waits}

abbrev wallet : DkgResult
wallet = with_share phone (b'9' ∷ [])

abbrev events : List Event
events =
    register_returns (some wallet) (str "device") none
    ∷ goroutine_runs
    ∷ accept_returns none
    ∷ main_runs
    ∷ main_runs
    ∷ []

-- The device of `events` and no error.
abbrev IsWallet : Device → Type 0
IsWallet d = (d.0 ≡ some wallet) × (d.1 ≡ str "device")

abbrev device : Outcome Device
device = ok (some wallet, str "device")

run-Returned_example :
    ((d : Device) × (device ≡ ok d) × IsWallet d)
    ⊎ ((x : GoError) × (device ≡ err x) × (x ≡ GoError.time_out))
unfolding initial run step after_register after_accept goroutine_turn main_turn receives accepted
    Gives OfError
run-Returned_example =
    run-Returned IsWallet (λ x. x ≡ GoError.time_out) events device
      (((refl, refl), tt), (tt, (tt, (tt, (tt, tt))))) refl

-- RegisterDevice has returned an error.
abbrev refused : State
refused = record {
  registering = checks_registered;
  accepting = accepts;
  dkg_result = none;
  metadata = [];
  error = some GoError.time_out;
}

failed_registration_waits_example :
    (run refused (goroutine_runs ∷ accept_returns none ∷ main_runs ∷ main_runs ∷ [])).accepting
    ≡ waits
failed_registration_waits_example =
    failed_registration_waits refused (main_runs ∷ []) GoError.time_out refl refl refl

-- A stand-in for encoding/json, which marks each byte of the first text.
pack : Str → Str → Str
pack [] metadata = 0 ∷ metadata
pack (c ∷ result) metadata = 1 ∷ c ∷ pack result metadata

unpack : Str → Str × Str
unpack [] = ([], [])
unpack (zero ∷ s) = ([], s)
unpack (suc b ∷ []) = ([], [])
unpack (suc b ∷ c ∷ s) = (c ∷ (unpack s).0, (unpack s).1)

bytes_of : Str → Str
bytes_of [] = []
bytes_of (c ∷ s) = c % 256 ∷ bytes_of s

bytes_of-IsBytes : (s : Str) → IsBytes (bytes_of s)
unfolding bytes_of
bytes_of-IsBytes [] = tt
bytes_of-IsBytes (c ∷ s) = (omega arith, bytes_of-IsBytes s)

pack-IsBytes : (r m : Str) → IsBytes r → IsBytes m → IsBytes (pack r m)
unfolding pack
pack-IsBytes [] m h k = (omega arith, k)
pack-IsBytes (c ∷ r) m h k = (omega arith, (h.0, pack-IsBytes r m h.1 k))

unpack-pack : (r m : Str) → unpack (pack r m) ≡ (r, m)
unfolding unpack pack
unpack-pack [] m = refl
unpack-pack (c ∷ r) m = rw (unpack-pack r m) refl

json_of : Option DkgResult → Str
unfolding bytes_of
json_of none = bytes_of (str "null")
json_of (some d) = bytes_of d.share

json_of-IsBytes : (r : Option DkgResult) → IsBytes (json_of r)
unfolding json_of
json_of-IsBytes none = bytes_of-IsBytes (str "null")
json_of-IsBytes (some d) = bytes_of-IsBytes d.share

abbrev json : Json
json = record {
  marshal_result = λ r. ok (json_of r);
  marshal_map =
      λ m. ok (pack (or_empty (lookup (str "DkgResult") m)) (or_empty (lookup (str "Metadata") m)));
  unmarshal_map = λ s. ok (backup_map (unpack s).0 (unpack s).1);
}

ok_inj : {a b : Str} → ok a ≡ ok b → a ≡ b
ok_inj h = cc

json_map :
    (result metadata s : Str)
    → json.marshal_map (backup_map result metadata) ≡ ok s
    → pack result metadata ≡ s
unfolding or_empty lookup str meemaw.Prelude.str_eq
json_map result metadata s h = ok_inj h

json_read :
    (result metadata : Str)
    → json.unmarshal_map (pack result metadata) ≡ ok (backup_map result metadata)
json_read result metadata = rw (unpack-pack result metadata) refl

json_first :
    (result metadata : Str) → lookup (str "DkgResult") (backup_map result metadata) ≡ some result
unfolding lookup str meemaw.Prelude.str_eq
json_first result metadata = refl

json_second :
    (result metadata : Str) → lookup (str "Metadata") (backup_map result metadata) ≡ some metadata
unfolding lookup str meemaw.Prelude.str_eq
json_second result metadata = refl

json_laws : JsonLaws json
json_laws = record {
  IsText = IsBytes;
  marshal_result-IsText = λ r s h. rw (← ok_inj h) (json_of-IsBytes r);
  unmarshal_map-marshal_map = λ result metadata s r m h.
      let p = json_map result metadata s h in
      rw (← p) (
        pack-IsBytes result metadata r m,
        backup_map result metadata,
        json_read result metadata,
        json_first result metadata,
        json_second result metadata,
      );
}

from_backup-print_backup_example :
    from_backup json
      (λ result metadata. ok (none, result))
      (encode (pack (b'9' ∷ []) (str "device")))
    ≡ ok (none, b'9' ∷ [])
unfolding json_laws print_backup json_of bytes_of or_empty lookup str meemaw.Prelude.str_eq
from_backup-print_backup_example =
    from_backup-print_backup json json_laws (λ result metadata. ok (none, result)) (some wallet)
      (str "device") (b'9' ∷ []) (encode (pack (b'9' ∷ []) (str "device")))
      (bytes_of-IsBytes (str "device")) refl refl
