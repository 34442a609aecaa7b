-- ===== src/Ws/Rounds.antt =====
-- What a round of the loop of TssSend sends (utils/ws/ws.go).
use meemaw.Prelude.{
  ◌≡◌, refl, Bool, true, false, str, is_empty, contains, if◌then◌else◌, Outcome, ok, err, panic,
}
use meemaw.Prelude.Errors.{error_text}
use meemaw.Encoding.Hex.{Bytes}
use meemaw.Tss.PeerManager.{Message}
use meemaw.Ws.{Round, sends, tss_message, is_nil, encoded, fetched, tss_send_round}

-- What is sent has the type of a TssMessage.
unfoldable pub SendsTss : {S : Type 0} → Round S → Type 0
SendsTss (sends msg s) = msg.msg_type ≡ tss_message
SendsTss _ = Unit

if-SendsTss :
    {S : Type 0} (b : Bool) (r₁ r₂ : Round S)
    → SendsTss r₁
    → SendsTss r₂
    → SendsTss (if b then r₁ else r₂)
if-SendsTss true r₁ r₂ h₁ h₂ = h₁
if-SendsTss false r₁ r₂ h₁ h₂ = h₂

module _ {M S : Type 0} (marshal_json : Message M → Outcome Bytes) where
  encoded-SendsTss :
      (m : Message M) (s : S) (json : Outcome Bytes) → SendsTss (encoded marshal_json m s json)
  unfolding encoded SendsTss
  encoded-SendsTss m s (ok json) = if-SendsTss (is_nil m.message) _ _ tt refl
  encoded-SendsTss m s (err x) = tt
  encoded-SendsTss m s panic = tt

  fetched-SendsTss :
      (s : S) (next : Outcome (Message M × S)) → SendsTss (fetched marshal_json s next)
  unfolding fetched SendsTss
  fetched-SendsTss s (ok (m, s')) =
      if-SendsTss (is_empty m.peer_id) _ _ tt (encoded-SendsTss m s' (marshal_json m))
  fetched-SendsTss s (err x) =
      if-SendsTss (contains (str "no message to be sent") (error_text x)) _ _ tt tt
  fetched-SendsTss s panic = tt

  pub tss_send_round-SendsTss :
      (done : Bool) (get_next : S → Outcome (Message M × S)) (s : S)
      → SendsTss (tss_send_round marshal_json done get_next s)
  unfolding tss_send_round SendsTss
  tss_send_round-SendsTss done get_next s =
      if-SendsTss done _ _ tt (fetched-SendsTss s (get_next s))
