-- ===== src/Tss/Tests.antt =====
-- Runs of utils/tss on small inputs, with a library of small stand-ins.
pub mod Signing
pub mod Actors
pub mod Connection
use meemaw.Prelude.{
  ◌≡◌, ◌≢◌, ◌↔◌, ◌⊎◌, refl, ◌∙◌, ℕ, ◌+◌, ◌/◌, ◌≤◌, ◌<◌, List, [], ◌∷◌, ◌++◌, none, some, Str, str,
  str_eq, lookup, or_else, replicate, if◌then◌else◌, ok, err, GoError,
}
use meemaw.Prelude.Int.{ℤ, pos, negsuc, ◌-ℤ◌, ◌≤ℤ◌}
use meemaw.Encoding.Hex.{Bytes, encode}
use meemaw.Tss.Alice.{Alice, AliceLaws}
use meemaw.Tss.Wallet.{
  Pubkey, Bk, DkgResult, ProcessResult, Output, new_pubkey, get_str, merge_dkg_results,
  post_process_result, convert_dkg_result,
}
use meemaw.Tss.Wallet.Merge.{SameWallet, merge_same_wallet}
use meemaw.Tss.Wallet.RoundTrip.{SameOutput, new_pubkey-get_str, post_process_round_trip}
use meemaw.Tss.PeerManager.{
  proto, hex_text, nothing, PeerManager, must_send, marshal_payload, get_next_message_to_send_peer,
}
use meemaw.Tss.PeerManager.Queue.{pending, pending-must_send}
use meemaw.Tss.PeerManager.Fifo.{Took, next_peer_takes_oldest, next_peer_blocked}

abbrev pub phone : Str
phone = b'p' ∷ []

abbrev pub laptop : Str
laptop = b'l' ∷ []

abbrev pub alice : Alice
alice = record {
  Point = ℤ × ℤ;
  new_ec_point = λ x y. ok (x, y);
  get_x = λ p. p.0;
  get_y = λ p. p.1;
  Bk = ℤ × ℕ;
  new_bk_parameter = λ x r. (x, r);
  bk_x = λ b. b.0;
  bk_rank = λ b. b.1;
  marshal_point = λ x y. 4 ∷ [];
  keccak256 = λ bs. replicate 12 0 ++ 7 ∷ bs;
  address_hex = encode;
}

abbrev alice_laws : AliceLaws alice
alice_laws = record { point_of_coordinates = λ p. refl; bk_of_parts = λ b. refl }

-- The queue of a manager with two messages for the phone and one for the laptop between them.
abbrev busy : PeerManager Bytes (List Bytes)
busy = record {
  id = str "server";
  peers = [];
  handle_message_function = none;
  outward_messages =
      record { peer_id = phone; message = proto (1 ∷ []) }
      ∷ record { peer_id = laptop; message = proto (2 ∷ []) }
      ∷ record { peer_id = phone; message = proto (3 ∷ []) }
      ∷ [];
}

next_peer_takes_oldest_example :
    (p' : PeerManager Bytes (List Bytes)) × (get_next_message_to_send_peer ok busy phone
      ≡ ok (record { peer_id = phone; message = hex_text (encode (1 ∷ [])) }, p'))
    × Took phone busy p' (record { peer_id = phone; message = proto (3 ∷ []) } ∷ [])
unfolding pending str_eq marshal_payload
next_peer_takes_oldest_example =
    next_peer_takes_oldest ok busy phone (record { peer_id = phone; message = proto (1 ∷ []) })
      (record { peer_id = phone; message = proto (3 ∷ []) } ∷ []) (1 ∷ []) refl refl refl

abbrev poisoned : PeerManager Bytes (List Bytes)
poisoned = record busy {
  outward_messages = record { peer_id = phone; message = nothing } ∷ busy.outward_messages;
}

next_peer_blocked_example :
    (get_next_message_to_send_peer ok poisoned phone
      ≡ err (GoError.text (str "invalid proto message")))
    × (get_next_message_to_send_peer ok (must_send poisoned phone (proto (4 ∷ []))) phone
        ≡ err (GoError.text (str "invalid proto message")))
unfolding pending str_eq marshal_payload
next_peer_blocked_example =
    next_peer_blocked ok poisoned phone (record { peer_id = phone; message = nothing })
      (record { peer_id = phone; message = proto (1 ∷ []) }
        ∷ record { peer_id = phone; message = proto (3 ∷ []) }
        ∷ [])
      (GoError.text (str "invalid proto message")) (proto (4 ∷ [])) refl refl refl

abbrev first_view : DkgResult
first_view = record {
  pubkey = record { x = str "5"; y = str "6" };
  bks = (phone, record { x = str "1"; rank = 0 }) ∷ [];
  share = str "9";
  address = str "0x7";
  peer_id = str "server";
}

abbrev second_view : DkgResult
second_view = record first_view { bks = (laptop, record { x = str "2"; rank = 0 }) ∷ [] }

abbrev same_views : SameWallet first_view second_view
same_views = record { address = refl; peer_id = refl; share = refl; pubkey = refl }

merge_same_wallet_example :
    (merged : DkgResult) × (merge_dkg_results first_view second_view ≡ some merged)
    × SameWallet first_view merged
    × ((peer_id : Str)
        → lookup peer_id merged.bks
          ≡ or_else (lookup peer_id second_view.bks) (lookup peer_id first_view.bks))
merge_same_wallet_example = merge_same_wallet first_view second_view same_views

abbrev pub pubkey : Pubkey
pubkey = record { x = pos 5; y = negsuc 5 }

abbrev processed : ProcessResult alice
processed = record {
  public_key = (pos 5, pos 6);
  share = pos 9;
  bks = (str "server", (pos 1, 0)) ∷ (phone, (pos 2, 0)) ∷ [];
  peer_id = phone;
}

post_process_round_trip_example :
    (k : Pubkey) × (out : Output alice) × (new_pubkey (post_process_result alice processed).pubkey
      ≡ ok k)
    × (convert_dkg_result alice k
          (post_process_result alice processed).share
          (post_process_result alice processed).bks
        ≡ ok out)
    × SameOutput alice processed out
post_process_round_trip_example = post_process_round_trip alice alice_laws processed
