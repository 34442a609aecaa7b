-- ===== src/Tss/Service/Config.antt =====
-- A service keeps what it was made from (utils/tss/serviceSigner.go, serviceDkg.go, serviceAdd.go).
use meemaw.Prelude.{
  ◌≡◌, refl, true, Option, some, Str, Outcome, ok, err, panic, Ends, if-Ends, GoError,
}
use meemaw.Tss.PeerManager.{handle_message}
use meemaw.Tss.Service.{
  Library, Service, MainState, state_init, state_done, state_failed, on_state_changed, keep_result,
  close, with_actor, receive,
}

module _ {C Out : Type 0} (lib : Library Out) where
  with_actor-Same :
      (p : Service C lib) (r : Outcome lib.Actor)
      → Ends (λ (q : Service C lib). q.config ≡ p.config) (with_actor lib p r)
  unfolding with_actor Ends
  with_actor-Same p (ok actor) = refl
  with_actor-Same p (err e) = tt
  with_actor-Same p panic = tt

  pub receive-Same :
      (p : Service C lib) (m : lib.M)
      → Ends (λ (q : Service C lib). q.config ≡ p.config) (receive lib p m)
  unfolding receive
  receive-Same p m = with_actor-Same p (handle_message p.pm p.actor m)

  close-Same :
      (p q : Service C lib)
      → q.config ≡ p.config
      → Ends (λ (q' : Service C lib). q'.config ≡ p.config) (close lib q)
  unfolding close Ends
  close-Same p q h =
      if-Ends (λ (q' : Service C lib). q'.config ≡ p.config) q.done panic
        (ok (record q { done = true })) tt h

  keep_result-Same :
      (p : Service C lib) (r : Outcome Out) (fail : GoError → Option GoError)
      → Ends (λ (q : Service C lib). q.config ≡ p.config) (keep_result lib p r fail)
  unfolding keep_result Ends
  keep_result-Same p (ok result) fail = close-Same p (record p { result = some result }) refl
  keep_result-Same p (err e) fail = close-Same p (record p { failure = fail e }) refl
  keep_result-Same p panic fail = tt

  pub on_state_changed-Same :
      (failed : Str) (p : Service C lib) (old_state new_state : MainState)
      → Ends
          (λ (q : Service C lib). q.config ≡ p.config)
          (on_state_changed lib failed p old_state new_state)
  unfolding on_state_changed Ends
  on_state_changed-Same failed p old_state state_failed =
      close-Same p (record p { failure = some (GoError.text failed) }) refl
  on_state_changed-Same failed p old_state state_done =
      keep_result-Same p (lib.get_result p.actor) some
  on_state_changed-Same failed p old_state state_init = refl
