-- ===== src/Tss/Actors/Signer/Signed.antt =====
-- What Process of a signer returns (utils/tss/tssManager.go).
use meemaw.Prelude.{
  ◌≡◌, Bool, true, false, ℕ, ◌<◌, Option, none, some, Str, str, if◌then◌else◌, Outcome, ok, err,
  GoError,
}
use meemaw.Tss.Alice.{Alice}
use meemaw.Tss.Signature.{Ecdsa, Signature}
use meemaw.Tss.Signature.Layout.{IsLayout, post_process-IsLayout}
use meemaw.Tss.Service.{Library, Service}
use meemaw.Tss.Actors.{Party, process}
use meemaw.Tss.Actors.Signer.{
  SignerConfig, SignerOutput, SignerLibrary, finish_signature, server_signer_process,
  client_signer_process,
}

if_done :
    {R : Type 0} (done : Bool) (x : Outcome R) (r : R)
    → (if done then some x else none) ≡ some (ok r)
    → x ≡ ok r
if_done true x r h = cc h
if_done false x r h = cc h

found_result :
    {Out R : Type 0} (missing : Str) (finish : Out → Outcome R) (result : Option Out) (r : R)
    → (elim result [ none ↦ err (GoError.text missing) | some out ↦ finish out ]) ≡ ok r
    → (out : Out) × (finish out ≡ ok r)
found_result missing finish none r h = cc h
found_result missing finish (some out) r h = (out, h)

process-ok :
    {C Out R : Type 0} (lib : Library Out) (missing : Str) (finish : Out → Outcome R)
    (p : Service C lib) (r : R)
    → process lib missing p finish ≡ some (ok r)
    → (out : Out) × (finish out ≡ ok r)
unfolding process
process-ok lib missing finish p r h = found_result missing finish p.result r (if_done p.done _ r h)

module _ (a : Alice) (lib : Library SignerOutput) (sl : SignerLibrary a lib) (c : Ecdsa) where
  finished-IsLayout :
      (p : Party SignerConfig lib) (missing : Str) (out : Signature)
      → process lib missing p.service (finish_signature a lib sl c p.service) ≡ some (ok out)
      → (v : ℕ) × (v < 2)
        × IsLayout out.r out.s v out.signature
        × (c.verify p.service.config.pubkey p.service.config.message out.r out.s ≡ true)
  unfolding finish_signature
  finished-IsLayout p missing out h =
      let (o, made) =
        process-ok lib missing (finish_signature a lib sl c p.service) p.service out h in
      post_process-IsLayout a c o.r o.s p.service.config.pubkey p.service.config.message out made

  -- The 65 bytes of the numbers with a recovery id of 0 or 1, which verification accepts.
  pub server_signer_process-IsLayout :
      (p : Party SignerConfig lib) (out : Signature)
      → server_signer_process a lib sl c p ≡ some (ok out)
      → (v : ℕ) × (v < 2)
        × IsLayout out.r out.s v out.signature
        × (c.verify p.service.config.pubkey p.service.config.message out.r out.s ≡ true)
  unfolding server_signer_process
  server_signer_process-IsLayout p out h =
      finished-IsLayout p (str "could not get server signer results") out h

  -- The same of the client's signer.
  pub client_signer_process-IsLayout :
      (p : Party SignerConfig lib) (out : Signature)
      → client_signer_process a lib sl c p ≡ some (ok out)
      → (v : ℕ) × (v < 2)
        × IsLayout out.r out.s v out.signature
        × (c.verify p.service.config.pubkey p.service.config.message out.r out.s ≡ true)
  unfolding client_signer_process
  client_signer_process-IsLayout p out h =
      finished-IsLayout p (str "could not get client signer results") out h
