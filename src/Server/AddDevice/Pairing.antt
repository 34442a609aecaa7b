-- ===== src/Server/AddDevice/Pairing.antt =====
-- The two devices of a user meet, and no others (server/tss_add.go).
use meemaw.Prelude.{
  ◌≡◌, ◌≢◌, refl, sym, ap, ◌∙◌, ◌==◌, ◌&&◌, not, Bool, true, false, List, [], ◌∷◌, Option, some,
  arith, All, Str, str, str_eq, str_eq_ne, if◌then◌else◌, ok,
}
use meemaw.Server.AddDevice.{
  Entry, ChannelCache, Channels, channel_key, entries, set_all, register_channels,
  get_inter_handlers_channels, as_text, as_adder, as_unit,
}

-- go-cache: what was set last under a key is what Get gives; entries that have expired are not there.
pub record ChannelCacheLaws (c : ChannelCache) : Type 0 where
  pub get-set :
      (k j : Str) (e : Entry) (s : c.Store)
      → c.get k (c.set j e s) ≡ (if str_eq j k then some e else c.get k s)

undashed : Str → Bool
undashed [] = true
undashed (c ∷ s) = not (c == b'-') && undashed s

undashed-channel_key : (u s : Str) → undashed (channel_key u s) ≡ false
unfolding undashed
undashed-channel_key [] s = refl
undashed-channel_key (c ∷ u) s = ground (arith, undashed-channel_key u s)

-- The user is what stands before the last dash of a key.
channel_key-eq :
    (u v s t : Str)
    → undashed s ≡ true
    → undashed t ≡ true
    → channel_key u s ≡ channel_key v t
    → u ≡ v
channel_key-eq [] [] s t hs ht h = refl
channel_key-eq [] (d ∷ v) s t hs ht h =
    let tail : s ≡ channel_key v t = cc h in
    absurd (cc (hs, ap undashed tail, undashed-channel_key v t))
channel_key-eq (c ∷ u) [] s t hs ht h =
    let tail : channel_key u s ≡ t = cc h in
    absurd (cc (ht, ap undashed tail, undashed-channel_key u s))
channel_key-eq (c ∷ u) (d ∷ v) s t hs ht h =
    let head : c ≡ d = cc h in
    let tail : channel_key u s ≡ channel_key v t = cc h in
    cc (head, channel_key-eq u v s t hs ht tail)

str_eq-channel_key : (u s t : Str) → str_eq (channel_key u s) (channel_key u t) ≡ str_eq s t
unfolding str_eq
str_eq-channel_key [] s t = refl
str_eq-channel_key (c ∷ u) s t = ground (arith, str_eq-channel_key u s t)

latest : Str → List (Str × Entry) → Option Entry → Option Entry
latest k [] d = d
latest k ((j, e) ∷ es) d = latest k es (if str_eq j k then some e else d)

module _ (c : ChannelCache) (laws : ChannelCacheLaws c) where
  get-set_all :
      (u k : Str) (es : List (Str × Entry)) (s : c.Store)
      → c.get (channel_key u k) (set_all c u es s) ≡ latest k es (c.get (channel_key u k) s)
  unfolding set_all latest
  get-set_all u k [] s = refl
  get-set_all u k ((j, e) ∷ es) s =
      get-set_all u k es (c.set (channel_key u j) e s)
      ∙ ap (latest k es) (
          laws.get-set (channel_key u k) (channel_key u j) e s
          ∙ ap (λ b. if b then some e else c.get (channel_key u k) s) (str_eq-channel_key u j k))

  get-set_all_other :
      (u v k : Str) (es : List (Str × Entry)) (s : c.Store)
      → v ≢ u
      → undashed k ≡ true
      → All (λ (x : Str × Entry). undashed x.0 ≡ true) es
      → c.get (channel_key v k) (set_all c u es s) ≡ c.get (channel_key v k) s
  unfolding set_all
  get-set_all_other u v k [] s ne hk hs = refl
  get-set_all_other u v k ((j, e) ∷ es) s ne hk (hj, hs) =
      get-set_all_other u v k es (c.set (channel_key u j) e s) ne hk hs
      ∙ laws.get-set (channel_key v k) (channel_key u j) e s
      ∙ ap (λ b. if b then some e else c.get (channel_key v k) s)
          (str_eq_ne (channel_key u j) (channel_key v k)
            (λ same. ne (sym (channel_key-eq u v j k hj hk same))))

  entries-undashed : (ch : Channels) → All (λ (x : Str × Entry). undashed x.0 ≡ true) (entries ch)
  unfolding undashed str
  entries-undashed ch = (refl, (refl, (refl, (refl, (refl, (refl, (refl, (refl, tt))))))))

  unchanged :
      (u v k : Str) (ch : Channels) (s : c.Store)
      → v ≢ u
      → undashed k ≡ true
      → c.get (channel_key v k) (set_all c u (entries ch) s) ≡ c.get (channel_key v k) s
  unchanged u v k ch s ne h = get-set_all_other u v k (entries ch) s ne h (entries-undashed ch)

  found_own :
      (u : Str) (ch : Channels) (s : c.Store)
      → get_inter_handlers_channels c u (register_channels c u ch s) ≡ ok ch
  unfolding get_inter_handlers_channels register_channels latest str str_eq as_text as_adder as_unit
  found_own u ch s =
      rw
        (
          get-set_all u (str "newclientpeeridch") (entries ch) s,
          get-set_all u (str "existingclientpeeridch") (entries ch) s,
          get-set_all u (str "useragentch") (entries ch) s,
          get-set_all u (str "metadatach") (entries ch) s,
          get-set_all u (str "adderch") (entries ch) s,
          get-set_all u (str "existingdevicetssdonech") (entries ch) s,
          get-set_all u (str "newdevicedonech") (entries ch) s,
          get-set_all u (str "existingdevicedonech") (entries ch) s,
        )
        refl

  found_others :
      (u v : Str) (ch : Channels) (s : c.Store)
      → v ≢ u
      → get_inter_handlers_channels c v (register_channels c u ch s)
        ≡ get_inter_handlers_channels c v s
  unfolding get_inter_handlers_channels register_channels undashed str
  found_others u v ch s ne =
      rw
        (
          unchanged u v (str "newclientpeeridch") ch s ne refl,
          unchanged u v (str "existingclientpeeridch") ch s ne refl,
          unchanged u v (str "useragentch") ch s ne refl,
          unchanged u v (str "metadatach") ch s ne refl,
          unchanged u v (str "adderch") ch s ne refl,
          unchanged u v (str "existingdevicetssdonech") ch s ne refl,
          unchanged u v (str "newdevicedonech") ch s ne refl,
          unchanged u v (str "existingdevicedonech") ch s ne refl,
        )
        refl

  -- AcceptDeviceHandler finds the channels that RegisterDeviceHandler made last for the same user, all
  -- eight of them; what it finds for any other user is what was there before.
  pub get_inter_handlers_channels-register_channels :
      (u v : Str) (ch : Channels) (s : c.Store)
      → v ≢ u
      → (get_inter_handlers_channels c u (register_channels c u ch s) ≡ ok ch)
        × (get_inter_handlers_channels c v (register_channels c u ch s)
            ≡ get_inter_handlers_channels c v s)
  get_inter_handlers_channels-register_channels u v ch s ne =
      (found_own u ch s, found_others u v ch s ne)
