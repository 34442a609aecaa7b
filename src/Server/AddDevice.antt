-- ===== src/Server/AddDevice.antt =====
-- How the two handlers that add a device begin, and how they find each other (server/tss_add.go):
-- RegisterDeviceHandler puts eight channels into the cache, under the user, and AcceptDeviceHandler takes
-- them from there. A channel is known by a number. The cache is a parameter.
pub mod Pairing
pub mod Shared
pub mod Register
pub mod Accept
pub mod Run
pub mod Completed
pub mod Result
use meemaw.Prelude.{
  ℕ, List, [], ◌∷◌, ◌++◌, Option, none, some, Str, str, lookup, Outcome, ok, err, panic, ◌>>=◌,
  GoError,
}
use meemaw.Server.Auth.{Context, Response, http_error, no_authorization}
use meemaw.Server.Origin.{Upgrade, Start, answers, begins, connect}

-- chan string, chan *tss.ServerAdd and chan struct{}, and all that is in the cache besides.
pub data Entry : Type 0 where
  text_channel adder_channel unit_channel : ℕ → Entry
  other_entry : Entry

pub record ChannelCache : Type 1 where
  pub Store : Type 0
  pub set : Str → Entry → Store → Store
  pub get : Str → Store → Option Entry

pub record Channels : Type 0 where
  pub new_client_peer_id : ℕ
  pub existing_client_peer_id : ℕ
  pub useragent : ℕ
  pub metadata : ℕ
  pub adder : ℕ
  pub existing_device_tss_done : ℕ
  pub new_device_done : ℕ
  pub existing_device_done : ℕ

-- `userId + "-adderch"`, and so on.
abbrev pub channel_key : Str → Str → Str
channel_key user_id name = user_id ++ b'-' ∷ name

abbrev pub entries : Channels → List (Str × Entry)
entries ch =
    (str "newclientpeeridch", text_channel ch.new_client_peer_id)
    ∷ (str "existingclientpeeridch", text_channel ch.existing_client_peer_id)
    ∷ (str "useragentch", text_channel ch.useragent)
    ∷ (str "metadatach", text_channel ch.metadata)
    ∷ (str "adderch", adder_channel ch.adder)
    ∷ (str "existingdevicetssdonech", unit_channel ch.existing_device_tss_done)
    ∷ (str "newdevicedonech", unit_channel ch.new_device_done)
    ∷ (str "existingdevicedonech", unit_channel ch.existing_device_done)
    ∷ []

abbrev not_a_channel : GoError
not_a_channel = GoError.text (str "wrong channel")

as_text : Option Entry → Outcome ℕ
as_text none = err (GoError.text (str "channel not found"))
as_text (some (text_channel n)) = ok n
as_text (some _) = err not_a_channel

as_adder : Option Entry → Outcome ℕ
as_adder none = err (GoError.text (str "channel not found"))
as_adder (some (adder_channel n)) = ok n
as_adder (some _) = err not_a_channel

as_unit : Option Entry → Outcome ℕ
as_unit none = err (GoError.text (str "channel not found"))
as_unit (some (unit_channel n)) = ok n
as_unit (some _) = err not_a_channel

module _ (c : ChannelCache) where
  open c use {Store, set, get}

  unfoldable pub set_all : Str → List (Str × Entry) → Store → Store
  set_all user_id [] store = store
  set_all user_id ((name, entry) ∷ rest) store =
      set_all user_id rest (set (channel_key user_id name) entry store)

  unfoldable pub register_channels : Str → Channels → Store → Store
  unfolding set_all
  register_channels user_id ch store = set_all user_id (entries ch) store

  unfoldable pub get_inter_handlers_channels : Str → Store → Outcome Channels
  unfolding as_text as_adder as_unit
  get_inter_handlers_channels user_id store = do
    new_client_peer_id ← as_text (get (channel_key user_id (str "newclientpeeridch")) store)
    existing_client_peer_id ←
        as_text (get (channel_key user_id (str "existingclientpeeridch")) store)
    useragent ← as_text (get (channel_key user_id (str "useragentch")) store)
    metadata ← as_text (get (channel_key user_id (str "metadatach")) store)
    adder ← as_adder (get (channel_key user_id (str "adderch")) store)
    existing_device_tss_done ←
        as_unit (get (channel_key user_id (str "existingdevicetssdonech")) store)
    new_device_done ← as_unit (get (channel_key user_id (str "newdevicedonech")) store)
    existing_device_done ← as_unit (get (channel_key user_id (str "existingdevicedonech")) store)
    ok (record {
      new_client_peer_id = new_client_peer_id;
      existing_client_peer_id = existing_client_peer_id;
      useragent = useragent;
      metadata = metadata;
      adder = adder;
      existing_device_tss_done = existing_device_tss_done;
      new_device_done = new_device_done;
      existing_device_done = existing_device_done;
    })

  module _ (u : Upgrade) (client_origin : Str) where
    registered : Str → Channels → Store → Start u.Conn → Start Str × Store
    registered user_id ch store (answers response) = (answers response, store)
    registered user_id ch store (begins conn) = (begins user_id, register_channels user_id ch store)

    register_user : Option Str → Channels → Store → Outcome (Start Str × Store)
    unfolding registered
    register_user none ch store = ok (answers no_authorization, store)
    register_user (some user_id) ch store =
        connect u client_origin >>= λ r. ok (registered user_id ch store r)

    -- RegisterDeviceHandler, up to its goroutines; `ch` are the channels that it makes.
    unfoldable pub register_start : Context → Channels → Store → Outcome (Start Str × Store)
    unfolding register_user connect register_channels
    register_start ctx ch store = register_user (lookup (str "userId") ctx) ch store

    accepted : Str → Channels → Start u.Conn → Start (Str × Channels)
    accepted user_id ch (answers response) = answers response
    accepted user_id ch (begins conn) = begins (user_id, ch)

    with_channels : Str → Outcome Channels → Outcome (Start (Str × Channels))
    unfolding accepted
    with_channels user_id (ok ch) = connect u client_origin >>= λ r. ok (accepted user_id ch r)
    with_channels user_id (err x) = ok (answers (http_error (str "Channel not found") 401))
    with_channels user_id panic = panic

    accept_user : Option Str → Store → Outcome (Start (Str × Channels))
    unfolding with_channels
    accept_user none store = ok (answers no_authorization)
    accept_user (some user_id) store =
        with_channels user_id (get_inter_handlers_channels user_id store)

    -- AcceptDeviceHandler, up to its goroutines.
    unfoldable pub accept_start : Context → Store → Outcome (Start (Str × Channels))
    unfolding accept_user get_inter_handlers_channels connect
    accept_start ctx store = accept_user (lookup (str "userId") ctx) store
