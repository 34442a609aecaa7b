-- ===== src/Server/Tests/AddDevice.antt =====
-- Channels in a cache that is an association list, and the start of the two handlers that add a device.
use meemaw.Prelude.{
  ◌≡◌, ◌≢◌, refl, [], ◌∷◌, arith, Str, str, str_eq, lookup, insert, lookup-insert, Dict, ok,
}
use meemaw.Server.Origin.{Upgrade, begins}
use meemaw.Server.AddDevice.{
  Entry, ChannelCache, Channels, register_channels, get_inter_handlers_channels, accept_start,
}
use meemaw.Server.AddDevice.Pairing.{
  ChannelCacheLaws, get_inter_handlers_channels-register_channels,
}

abbrev cache : ChannelCache
cache = record { Store = Dict Entry; set = insert; get = lookup }

cache_laws : ChannelCacheLaws cache
cache_laws = record { get-set = λ k j e s. lookup-insert j k e s }

abbrev channels : Channels
channels = record {
  new_client_peer_id = 1;
  existing_client_peer_id = 2;
  useragent = 3;
  metadata = 4;
  adder = 5;
  existing_device_tss_done = 6;
  new_device_done = 7;
  existing_device_done = 8;
}

abbrev ann : Str
ann = b'a' ∷ []

abbrev bob : Str
bob = b'b' ∷ []

bob_not_ann : bob ≢ ann
bob_not_ann h = ground arith

get_inter_handlers_channels-register_channels_example :
    (get_inter_handlers_channels cache ann (register_channels cache ann channels []) ≡ ok channels)
    × (get_inter_handlers_channels cache bob (register_channels cache ann channels [])
        ≡ get_inter_handlers_channels cache bob [])
get_inter_handlers_channels-register_channels_example =
    get_inter_handlers_channels-register_channels cache cache_laws ann bob channels [] bob_not_ann

abbrev upgrade : Upgrade
upgrade = record { parse = λ s. ok (s, []); Conn = Unit {0}; accept = λ origin. ok tt }

-- The existing device of the same user begins with the channels of the new one.
meets :
    accept_start cache upgrade
      (str "*")
      ((str "userId", ann) ∷ [])
      (register_channels cache ann channels [])
    ≡ ok (begins (ann, channels))
unfolding accept_start lookup str_eq str register_channels insert
meets = refl
