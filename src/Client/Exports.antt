-- ===== src/Client/Exports.antt =====
-- Export (client/client.go) against the server's ExportHandler (server/tss_recover.go).
use meemaw.Prelude.{
  ◌≡◌, ◌⊎◌, inl, inr, refl, ap, ◌∙◌, ◌++◌, some, Str, str, lookup, Dict, ℕ, Outcome, ok, err, panic,
}
use meemaw.Encoding.Hex.{encode}
use meemaw.Tss.Wallet.{DkgResult, PubkeyStr, Bk}
use meemaw.Server.Auth.{Context, Request, Response, Cache}
use meemaw.Server.Export.{Form, number_bytes, export_handler}
use meemaw.Server.Export.Tokens.{Exported, Refused, export_handler-cases}
use meemaw.Client.{Web, Reply, url_to_http, get_access_token, export}

-- The reply that a response of the server is.
abbrev pub reply_of : Response → Reply
reply_of r = record { status = r.status; body = ok r.body }

-- The form that Export sends: the share and the peer of the client's wallet.
abbrev form_of : DkgResult → Form
form_of result = record { share = result.share; client_peer_id = result.peer_id }

abbrev form_from : Form → Outcome Form → Form
form_from f (ok form) = form
form_from f (err x) = f
form_from f panic = f

module _ (w : Web) (c : Cache) (retrieve : Context → Str → Outcome DkgResult)
    (recover : Str → PubkeyStr → Str → Str → Dict Bk → Outcome ℕ) where
  -- Export returned the key that the shares of the client's wallet and of the user's wallet in the
  -- vault give, and the token is used up.
  pub record IsExport (result : DkgResult) (ctx : Context) (store : c.Store)
      (out : Response × c.Store) (returned : Outcome Str) : Type 0 where
    pub user_id : Str
    pub used_token : Str
    pub wallet : DkgResult
    pub d : ℕ
    pub user : lookup (str "userId") ctx ≡ some user_id
    pub access_token : lookup (str "token") ctx ≡ some used_token
    pub retrieved : retrieve ctx user_id ≡ ok wallet
    pub recovered : recover result.peer_id wallet.pubkey wallet.share result.share wallet.bks ≡ ok d
    pub key : returned ≡ ok (encode (number_bytes d))
    pub used : out.1 ≡ c.delete used_token store

  export-returns :
      (host dkg_result_str metadata auth_data token http_host : Str) (result : DkgResult)
      (response : Response)
      → get_access_token w host metadata auth_data ≡ ok token
      → url_to_http w host ≡ ok http_host
      → w.unmarshal_json dkg_result_str ≡ ok result
      → w.post_form (http_host ++ (str "/export?token=" ++ token)) result.share result.peer_id
        ≡ ok (reply_of response)
      → export w host dkg_result_str metadata auth_data ≡ ok response.body
  unfolding export
  export-returns host dkg_result_str metadata auth_data token http_host result response t h j p =
      rw (t, h, j, p) refl

  Exported-IsExport :
      (result : DkgResult) (ctx : Context) (store : c.Store) (out : Response × c.Store)
      (returned : Outcome Str)
      → returned ≡ ok out.0.body
      → Exported c retrieve recover ctx (ok (form_of result)) store out
      → IsExport result ctx store out returned
  Exported-IsExport result ctx store out returned r x =
      let same : form_of result ≡ x.input = ap (form_from (form_of result)) x.parsed in
      record {
        user_id = x.user_id;
        used_token = x.token;
        wallet = x.wallet;
        d = x.d;
        user = x.user;
        access_token = x.access_token;
        retrieved = x.retrieved;
        recovered =
            ap
              (λ (f : Form).
                recover f.client_peer_id x.wallet.pubkey x.wallet.share f.share x.wallet.bks)
              same
            ∙ x.recovered;
        key = r ∙ ap ok x.key_text;
        used = x.used;
      }

  -- Export of the client, with an accepted token, against ExportHandler, which answers its form. Either
  -- the handler answers with status 200, Export returns the hexadecimal of the private key that the
  -- client's share and the share of the user's wallet in the vault give, and the token is deleted; or
  -- the handler refuses, the token stays, and Export returns the text of the refusal without an error.
  pub export-export_handler :
      (host dkg_result_str metadata auth_data token http_host : Str) (result : DkgResult)
      (r : Request) (ctx : Context) (store : c.Store) (out : Response × c.Store)
      → get_access_token w host metadata auth_data ≡ ok token
      → url_to_http w host ≡ ok http_host
      → w.unmarshal_json dkg_result_str ≡ ok result
      → export_handler c retrieve recover r ctx (ok (form_of result)) store ≡ ok out
      → w.post_form (http_host ++ (str "/export?token=" ++ token)) result.share result.peer_id
        ≡ ok (reply_of out.0)
      → IsExport result ctx store out (export w host dkg_result_str metadata auth_data)
        ⊎ (Refused c retrieve recover store out
            × (export w host dkg_result_str metadata auth_data ≡ ok out.0.body))
  export-export_handler host dkg_result_str metadata auth_data token http_host result r ctx store
        out t h j answered p =
      let returned =
        export-returns host dkg_result_str metadata auth_data token http_host result out.0 t h j
          p in
      elim (export_handler-cases c retrieve recover r ctx (ok (form_of result)) store out
        answered) [
          | inl x ↦ inl (Exported-IsExport result ctx store out _ returned x)
          | inr refusal ↦ inr (refusal, returned)
        ]
