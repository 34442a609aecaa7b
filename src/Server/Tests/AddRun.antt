-- ===== src/Server/Tests/AddRun.antt =====
-- A complete run of the two handlers that add a device, with stand-ins for the library, the vault and the
-- connections.
use meemaw.Prelude.{
  ◌≡◌, refl, ap, sym, ◌∙◌, true, false, List, [], ◌∷◌, ◌++◌, some, none, str, ok, err, conversion,
  Str, Bool, ◌||◌, str_eq, select, keep_keys, merge, map_values, insert, lookup, ◌>>=◌,
}
use meemaw.Prelude.Int.{pos}
use meemaw.Tss.PeerManager.{Message}
use meemaw.Tss.Service.{state_init, state_done, handle}
use meemaw.Encoding.Hex.{encode, decode}
use meemaw.Encoding.Decimal.{to_string, set_string}
use meemaw.Tss.Wallet.{new_pubkey, convert_dkg_result, get_address, post_process_result}
use meemaw.Tss.Actors.{server_id}
use meemaw.Tss.Tests.{alice, phone, laptop}
use meemaw.Ws.{
  peer_id_broadcast_message, device_message, metadata_message, tss_done_message,
  everything_stored_client_message, existing_device_done_message, metadata_ack_message,
  pubkey_message,
}
use meemaw.Ws.Endpoint.{reads, goes, starts, runs, reading, polling}
use meemaw.Ws.Written.{has_written}
use meemaw.Server.Database.{
  Db, dkg, add_peer, get_user_signing_parameters, GetUserSigningParametersRow,
}
use meemaw.Server.AddDevice.Shared.{Setting, Adder, fresh}
use meemaw.Server.AddDevice.Register.{of_type, awaits_done, finished as register_finished}
use meemaw.Server.AddDevice.Accept.{waits_done, finished, new_device_done}
use meemaw.Server.AddDevice.Run.{
  State, Event, registering, accepting, tss_sends, tss_changes, run, initial,
}
use meemaw.Server.AddDevice.Register.Safe.{OfWallet}
use meemaw.Server.AddDevice.Accept.Steps.{told, finishing}
use meemaw.Server.AddDevice.Accept.Stored.{At}
use meemaw.Server.AddDevice.Completed.{Gone, Honest, HonestRun, run-At_accept}
use meemaw.Server.AddDevice.Result.{Extended, run-Extended}
use meemaw.Server.Tests.{user, empty}
use meemaw.Server.Tests.Dkg.{
  json_of, exactly, without_bks, address_text, json_crypto_laws, library, json_crypto, wallet, key,
}

abbrev setting : Setting
setting = record {
  a = alice;
  lib = library;
  al = record { new_old_peer = λ pm p t x bks id. ok []; new_new_peer = λ pm p t r. [] };
  crypto = json_crypto server_id;
  marshal_json = λ m. ok [];
  unmarshal_json = λ bytes. err conversion;
  marshal_wallet = λ pubkey bks. ok [];
  is_normal_closure = λ x. false;
}

abbrev before : Db
before = (dkg wallet empty).1

abbrev device_goes : Event setting
device_goes = registering (goes (ok tt))

abbrev other_goes : Event setting
other_goes = accepting (goes (ok tt))

-- The peer ids, the metadata and the adder are exchanged.
abbrev meeting : List (Event setting)
meeting =
    registering (reads (of_type peer_id_broadcast_message laptop))
    ∷ device_goes
    ∷ accepting (reads (of_type peer_id_broadcast_message phone))
    ∷ other_goes
    ∷ other_goes
    ∷ other_goes
    ∷ device_goes
    ∷ device_goes
    ∷ device_goes
    ∷ accepting (reads (of_type metadata_message key))
    ∷ other_goes
    ∷ registering (reads (of_type device_message (str "laptop")))
    ∷ device_goes
    ∷ device_goes
    ∷ device_goes
    ∷ registering starts
    ∷ device_goes
    ∷ other_goes
    ∷ other_goes
    ∷ accepting starts
    ∷ other_goes
    ∷ []

-- The process ends, the wallet is stored, and both devices say so.
abbrev closing : List (Event setting)
closing =
    tss_changes 0 state_init state_done
    ∷ accepting (runs (ok tt))
    ∷ accepting (runs (ok tt))
    ∷ accepting (runs (ok tt))
    ∷ registering (runs (ok tt))
    ∷ accepting (reads (of_type tss_done_message []))
    ∷ other_goes
    ∷ registering (runs (ok tt))
    ∷ registering (runs (ok tt))
    ∷ registering (reads (of_type everything_stored_client_message []))
    ∷ device_goes
    ∷ accepting (runs (ok tt))
    ∷ accepting (runs (ok tt))
    ∷ []

abbrev after : List (Event setting)
after =
    accepting (reads (of_type existing_device_done_message []))
    ∷ other_goes
    ∷ registering (runs (ok tt))
    ∷ registering (runs (ok tt))
    ∷ accepting (runs (ok tt))
    ∷ []

abbrev agent : Str
agent = str "agent"

abbrev start : State setting
start = initial setting before tt

-- What AddPeer stores: the wallet as it was, with the new device's row.
abbrev stored : Db
stored =
    (add_peer
      (record {
        user_agent = agent;
        peer_id = laptop;
        foreign_key = user;
        encrypted_dkg_results = b'9' ∷ [];
        nonce = 0 ∷ 0 ∷ [];
      })
      before).1

abbrev adder : Adder setting
adder = record {
  service = record {
    config = record {
      pubkey = record { x = pos 5; y = pos 6 };
      share = b'9' ∷ [];
      threshold = 2;
      new_client_id = laptop;
      bks = [];
      original_bks = [];
    };
    pm = record {
      id = server_id;
      peers = (phone, true) ∷ [];
      handle_message_function = some (handle library);
      outward_messages = [];
    };
    actor = [];
    done = true;
    result = some (record { public_key = (pos 5, pos 6); share = pos 9; bks = [] });
    failure = none;
  };
  peer_id = server_id;
}

-- When AcceptDeviceHandler has told the existing device.
abbrev middle : State setting
middle = record {
  register = record {
    reader = reading;
    sender = polling;
    main = awaits_done;
    stage = 40;
    new_client_peer_id = laptop;
    existing_client_peer_id = phone;
    metadata = key;
    adder = some 0;
    server_done = false;
    cancelled = false;
    errs = [];
    written =
        of_type peer_id_broadcast_message phone
        ∷ of_type pubkey_message []
        ∷ of_type metadata_message key
        ∷ [];
  };
  accept = record {
    reader = reading;
    sender = polling;
    main = waits_done;
    stage = 40;
    new_client_peer_id = laptop;
    existing_client_peer_id = phone;
    metadata = key;
    adder = some 0;
    server_done = false;
    cancelled = false;
    errs = [];
    written =
        of_type peer_id_broadcast_message laptop
        ∷ of_type metadata_ack_message []
        ∷ new_device_done
        ∷ [];
  };
  shared = record (fresh setting stored tt) { adders = adder ∷ []; device = some (str "laptop") };
}

abbrev end : State setting
end = record middle {
  register = record middle.register {
    main = register_finished;
    server_done = true;
    cancelled = true;
    written = middle.register.written ++ of_type existing_device_done_message [] ∷ [];
  };
  accept = record middle.accept { main = finished; server_done = true; cancelled = true };
}

abbrev row : GetUserSigningParametersRow
row = record {
  id = some 1;
  user_id = some 1;
  public_address = some address_text;
  encrypted_dkg_results = b'9' ∷ [];
  nonce = 0 ∷ 0 ∷ [];
}

to_middle : run setting user agent start (meeting ++ closing) ≡ ok middle
unfolding run str_eq str get_user_signing_parameters select dkg decode encode new_pubkey set_string
    convert_dkg_result keep_keys get_address post_process_result to_string json_of merge map_values
    exactly without_bks insert lookup add_peer meemaw.Tss.PeerManager.register_handle_message
    meemaw.Tss.PeerManager.add_peer meemaw.Tss.PeerManager.new_peer_manager
to_middle = refl

to_end : run setting user agent start ((meeting ++ closing) ++ after) ≡ ok end
unfolding run str_eq str get_user_signing_parameters select dkg decode encode new_pubkey set_string
    convert_dkg_result keep_keys get_address post_process_result to_string json_of merge map_values
    exactly without_bks insert lookup add_peer meemaw.Tss.PeerManager.register_handle_message
    meemaw.Tss.PeerManager.add_peer meemaw.Tss.PeerManager.new_peer_manager
to_end = refl

is_finishing : Event setting → Bool
is_finishing (accepting t) = finishing t
is_finishing _ = false

finishes : List (Event setting) → Bool
unfolding is_finishing
finishes [] = false
finishes (x ∷ xs) = let rest = finishes xs in is_finishing x || rest

first : (a b : Bool) → (a || b) ≡ false → (a ≡ false) × (b ≡ false)
first true b h = cc h
first false b h = (refl, h)

abbrev IsHonest : State setting → List (Event setting) → Type 0
IsHonest = HonestRun setting user agent Unit

Honest-here :
    (s : State setting) (x : Event setting)
    → is_finishing x ≡ false
    → Honest setting user agent Unit s x
unfolding Honest is_finishing
Honest-here s (registering t) q = tt
Honest-here s (accepting t) q = λ w f. cc (q, f)
Honest-here s (tss_sends n to message) q = tt
Honest-here s (tss_changes n a b) q = tt

-- Before the existing device's last message a run is honest.
IsHonest-first :
    (s : State setting) (xs ys : List (Event setting))
    → finishes xs ≡ false
    → ((s' : State setting) → run setting user agent s xs ≡ ok s' → IsHonest s' ys)
    → IsHonest s (xs ++ ys)
unfolding HonestRun Honest run finishes is_finishing
IsHonest-first s [] ys q k = k s refl
IsHonest-first s (x ∷ xs) ys q k =
    let (here, later) = first (is_finishing x) (finishes xs) q in
    (
      Honest-here s x here,
      λ s' h.
          IsHonest-first s' xs ys later
            (λ s'' h'. k s'' (ap (λ r. r >>= λ t. run setting user agent t xs) h ∙ h')),
    )

IsHonest-last : (s : State setting) → told s.accept.written ≡ true → IsHonest s after
unfolding HonestRun Honest finishing
IsHonest-last s t = (
  λ w f. t,
  λ s₁ h₁. (λ w f. cc f, λ s₂ h₂. (tt, λ s₃ h₃. (tt, λ s₄ h₄. (λ w f. cc f, λ s₅ h₅. tt)))),
)

start-IsHonest : IsHonest start ((meeting ++ closing) ++ after)
unfolding finishes finishing str_eq str has_written
start-IsHonest = IsHonest-first start (meeting ++ closing) after refl (λ s h. IsHonest-last s (
    let same : middle ≡ s = cc (to_middle, h) in
    ap (λ (t : State setting). told t.accept.written) (sym same)))

run-At_accept_example :
    At setting user before tt
      (OfWallet setting user before)
      ⊥
      (Gone setting user agent before tt ((meeting ++ closing) ++ after))
      finished
      stored
      tt
run-At_accept_example =
    run-At_accept setting user agent before tt ((meeting ++ closing) ++ after) end to_end

run-Extended_example :
    Extended setting
      (json_crypto_laws server_id)
      user
      agent
      before
      tt
      ((meeting ++ closing) ++ after)
      stored
unfolding get_user_signing_parameters select dkg str_eq
run-Extended_example =
    run-Extended setting (json_crypto_laws server_id) user agent before tt
      ((meeting ++ closing) ++ after) end row 1 refl refl start-IsHonest to_end refl
