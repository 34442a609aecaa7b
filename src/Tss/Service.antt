-- ===== src/Tss/Service.antt =====
-- The services that run one TSS process each: serviceDkg (utils/tss/serviceDkg.go), serviceSigner
-- (serviceSigner.go), serviceAddExisting and serviceAddNew (serviceAdd.go). The process itself is a
-- library object, `Actor`, which sends through the PeerManager and reports its state changes.
-- `C` is what the service was made from, and `Out` what the process yields.
pub mod Lifecycle
pub mod Config
use meemaw.Prelude.{
  Bool, true, List, [], ◌∷◌, Option, some, Str, if◌then◌else◌, Outcome, ok, err, panic, GoError,
}
use meemaw.Encoding.Hex.{Bytes}
use meemaw.Tss.PeerManager.{PeerManager, Payload, must_send, handle_message}

-- types.MainState: the states that the services tell apart.
pub data MainState : Type 0 where
  state_init state_done state_failed : MainState

pub record Library (Out : Type 0) : Type 1 where
  pub M : Type 0
  pub Actor : Type 0
  pub marshal : M → Outcome Bytes
  pub unmarshal : Bytes → Outcome M
  pub add_message : Actor → M → Outcome Actor
  pub get_result : Actor → Outcome Out

-- The service after Init. `done` says that the channel is closed.
pub record Service (C : Type 0) {Out : Type 0} (lib : Library Out) : Type 0 where
  pub config : C
  pub pm : PeerManager lib.M lib.Actor
  pub actor : lib.Actor
  pub done : Bool
  pub result : Option Out
  pub failure : Option GoError

-- Handle, which every constructor registers as the manager's handler.
unfoldable pub handle : {Out : Type 0} (lib : Library Out) → lib.Actor → lib.M → Outcome lib.Actor
handle lib actor msg = lib.add_message actor msg

module _ {C Out : Type 0} (lib : Library Out) where
  -- `close(p.done)`: closing a closed channel panics.
  unfoldable pub close : Service C lib → Outcome (Service C lib)
  close p = if p.done then panic else ok (record p { done = true })

  -- What GetResult gives, put into the service, before the channel is closed.
  pub keep_result :
      Service C lib → Outcome Out → (GoError → Option GoError) → Outcome (Service C lib)
  unfolding close
  keep_result p (ok result) fail = close (record p { result = some result })
  keep_result p (err e) fail = close (record p { failure = fail e })
  keep_result p panic fail = panic

  -- OnStateChanged of the services with an `err` field; `failed` is the text for a failed process.
  unfoldable pub on_state_changed :
      Str → Service C lib → MainState → MainState → Outcome (Service C lib)
  unfolding keep_result close
  on_state_changed failed p old_state state_failed =
      close (record p { failure = some (GoError.text failed) })
  on_state_changed failed p old_state state_done = keep_result p (lib.get_result p.actor) some
  on_state_changed failed p old_state state_init = ok p

  -- OnStateChanged of serviceDkg, which keeps no error.
  unfoldable pub on_state_changed_dkg :
      Service C lib → MainState → MainState → Outcome (Service C lib)
  unfolding keep_result close
  on_state_changed_dkg p old_state state_failed = close p
  on_state_changed_dkg p old_state state_done =
      keep_result p (lib.get_result p.actor) (λ e. p.failure)
  on_state_changed_dkg p old_state state_init = ok p

  with_actor : Service C lib → Outcome lib.Actor → Outcome (Service C lib)
  with_actor p (ok actor) = ok (record p { actor = actor })
  with_actor p (err e) = err e
  with_actor p panic = panic

  -- A message that the service's manager hands to its handler.
  unfoldable pub receive : Service C lib → lib.M → Outcome (Service C lib)
  unfolding with_actor
  receive p msg = with_actor p (handle_message p.pm p.actor msg)

-- What can happen to a service: a message comes in, the process sends one, or it changes state.
pub data Event (M : Type 0) : Type 0 where
  received : M → Event M
  sends : Str → Payload M → Event M
  changed : MainState → MainState → Event M

module _ {C Out : Type 0} (lib : Library Out) (failed : Str) where
  -- An error of the handler is reported to the connection and leaves the service as it was.
  pub carry_on : Service C lib → Outcome (Service C lib) → Outcome (Service C lib)
  carry_on p (ok p') = ok p'
  carry_on p (err e) = ok p
  carry_on p panic = panic

  unfoldable pub step : Service C lib → Event lib.M → Outcome (Service C lib)
  unfolding carry_on
  step p (received msg) = carry_on p (receive lib p msg)
  step p (sends peer_id message) = ok (record p { pm = must_send p.pm peer_id message })
  step p (changed old_state new_state) = on_state_changed lib failed p old_state new_state

  unfoldable pub run : Service C lib → List (Event lib.M) → Outcome (Service C lib)
  run p [] = ok p
  run p (e ∷ es) = elim (step p e) [ ok p' ↦ run p' es | err x ↦ err x | panic ↦ panic ]
