-- ===== src/Client/Backup/Kept.antt =====
-- What FromBackup reads of what Backup printed (client/tss_add.go).
use meemaw.Prelude.{◌≡◌, refl, Option, some, Str, str, Dict, lookup, Outcome, ok, >>=-eq-ok}
use meemaw.Encoding.Hex.{IsBytes, encode, decode-encode}
use meemaw.Tss.Wallet.{DkgResult}
use meemaw.Client.Backup.{Device, Json, backup_map, print_backup, from_backup, or_empty}

-- What encoding/json does: text is kept (a string of other bytes is not, these are replaced), a
-- result prints as text, and JSON is bytes.
pub record JsonLaws (j : Json) : Type 1 where
  pub IsText : Str → Type 0
  pub marshal_result-IsText :
      (r : Option DkgResult) (s : Str) → j.marshal_result r ≡ ok s → IsText s
  pub unmarshal_map-marshal_map :
      (result metadata s : Str)
      → IsText result
      → IsText metadata
      → j.marshal_map (backup_map result metadata) ≡ ok s
      → IsBytes s
        × (m : Dict Str) × (j.unmarshal_map s ≡ ok m)
        × (lookup (str "DkgResult") m ≡ some result)
        × (lookup (str "Metadata") m ≡ some metadata)

module _ (j : Json) (laws : JsonLaws j) where
  -- From a backup that Backup printed, FromBackup calls `backup` with the JSON of the result that was
  -- backed up and with its metadata, if that is text, and returns what `backup` returns.
  pub from_backup-print_backup :
      (backup : Str → Str → Outcome Device) (r : Option DkgResult) (metadata result s : Str)
      → laws.IsText metadata
      → j.marshal_result r ≡ ok result
      → print_backup j (ok (r, metadata)) ≡ ok s
      → from_backup j backup s ≡ backup result metadata
  unfolding print_backup from_backup or_empty
  from_backup-print_backup backup r metadata result s text marshalled printed =
      let (d, hd, h) = >>=-eq-ok (j.marshal_result r) _ printed in
      let (json, hj, hs) = >>=-eq-ok (j.marshal_map (backup_map d metadata)) _ h in
      let d≡result : d ≡ result = cc in
      let hj' : j.marshal_map (backup_map result metadata) ≡ ok json = rw⁻¹ d≡result hj in
      let (bytes, m, hm, l, k) =
        laws.unmarshal_map-marshal_map result metadata json
          (laws.marshal_result-IsText r result marshalled) text hj' in
      let s≡ : s ≡ encode json = cc in rw (s≡, decode-encode json bytes, hm, l, k) refl
