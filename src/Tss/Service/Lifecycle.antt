-- ===== src/Tss/Service/Lifecycle.antt =====
-- How a service ends (OnStateChanged and Process of utils/tss/service*.go).
use meemaw.Prelude.{
  ℕ, ◌+◌, ◌≤◌, ◌≡◌, ◌≢◌, refl, sym, ◌∙◌, inl, inr, Bool-cases, leb, leb→le, Bool, true, false, ◌&&◌,
  ◌||◌, List, [], ◌∷◌, Option, none, some, arith, Str, Outcome, ok, panic, Outcome-cases, GoError,
}
use meemaw.Tss.PeerManager.{must_send, handle_message}
use meemaw.Tss.Service.{
  state_init, state_done, state_failed, Library, Service, Event, received, sends, changed,
  on_state_changed, handle, receive, step, run,
}

abbrev pub is_some {ℓ} : {A : Type ℓ} → Option A → Bool
is_some none = false
is_some (some a) = true

-- A service is finished exactly if it has an outcome, and it never has both a result and an error.
pub record IsConsistent {C Out : Type 0} (lib : Library Out) (p : Service C lib) : Type 0 where
  pub finished : p.done ≡ (is_some p.result || is_some p.failure)
  pub one_outcome : (is_some p.result && is_some p.failure) ≡ false

module _ {C Out : Type 0} (lib : Library Out) (failed : Str) where
  run-cons :
      (p q : Service C lib) (e : Event lib.M) (es : List (Event lib.M))
      → step lib failed p e ≡ ok q
      → run lib failed q es ≡ run lib failed p (e ∷ es)
  unfolding run
  run-cons p q e es s = ground arith

  run-cons_panic :
      (p : Service C lib) (e : Event lib.M) (es : List (Event lib.M))
      → step lib failed p e ≡ panic
      → run lib failed p (e ∷ es) ≡ panic
  unfolding run
  run-cons_panic p e es s = ground arith

-- Whether an event reports the end of the process.
unfoldable pub ending : {M : Type 0} → Event M → ℕ
ending (changed old_state state_done) = 1
ending (changed old_state state_failed) = 1
ending e = 0

unfoldable pub endings : {M : Type 0} → List (Event M) → ℕ
unfolding ending
endings [] = 0
endings (e ∷ es) = ending e + endings es

-- The library's functions return.
pub record NeverPanics {Out : Type 0} (lib : Library Out) : Type 0 where
  pub add_message_returns : (actor : lib.Actor) (msg : lib.M) → lib.add_message actor msg ≢ panic
  pub get_result_returns : (actor : lib.Actor) → lib.get_result actor ≢ panic

-- The handler that the constructors register.
abbrev pub Registered : {C Out : Type 0} (lib : Library Out) → Service C lib → Type 0
Registered lib p = p.pm.handle_message_function ≡ some (handle lib)

abbrev pub already : Bool → ℕ
already true = 1
already false = 0

module _ {C Out : Type 0} (lib : Library Out) (failed : Str) (returns : NeverPanics lib) where
  -- The service goes on, `n` ends later.
  record GoesOn (p : Service C lib) (r : Outcome (Service C lib)) (n : ℕ) : Type 0 where
    next : Service C lib
    returned : r ≡ ok next
    ends : already next.done ≡ already p.done + n
    registered : Registered lib next

  handler_returns :
      (p : Service C lib) (msg : lib.M)
      → Registered lib p
      → handle_message p.pm p.actor msg ≡ lib.add_message p.actor msg
  unfolding handle_message handle
  handler_returns p msg reg = rw (reg, handle_message) refl

  step-received :
      (p : Service C lib) (msg : lib.M)
      → Registered lib p
      → GoesOn p (step lib failed p (received msg)) 0
  unfolding step receive
  step-received p msg reg = elim (Outcome-cases (lib.add_message p.actor msg)) [
    | inl (actor, e) ↦ record {
      next = record p { actor = actor };
      returned = ground (arith, handler_returns p msg reg);
      ends = omega arith;
      registered = reg;
    }
    | inr (inl (x, e)) ↦ record {
      next = p;
      returned = ground (arith, handler_returns p msg reg);
      ends = omega arith;
      registered = reg;
    }
    | inr (inr e) ↦ absurd (returns.add_message_returns p.actor msg e)
  ]

  step-GoesOn :
      (p : Service C lib) (e : Event lib.M)
      → Registered lib p
      → already p.done + ending e ≤ 1
      → GoesOn p (step lib failed p e) (ending e)
  unfolding step ending on_state_changed
  step-GoesOn p (received msg) reg h = step-received p msg reg
  step-GoesOn p (sends peer_id message) reg h = record {
    next = record p { pm = must_send p.pm peer_id message };
    returned = refl;
    ends = omega arith;
    registered = unfold must_send in reg;
  }
  step-GoesOn p (changed old_state state_init) reg h = record {
    next = p;
    returned = refl;
    ends = omega arith;
    registered = reg;
  }
  step-GoesOn p (changed old_state state_failed) reg h = record {
    next = record p { failure = some (GoError.text failed); done = true };
    returned = ground arith;
    ends = ground arith;
    registered = reg;
  }
  step-GoesOn p (changed old_state state_done) reg h =
      elim (Outcome-cases (lib.get_result p.actor)) [
        | inl (out, e) ↦ record {
          next = record p { result = some out; done = true };
          returned = ground arith;
          ends = ground arith;
          registered = reg;
        }
        | inr (inl (x, e)) ↦ record {
          next = record p { failure = some x; done = true };
          returned = ground arith;
          ends = ground arith;
          registered = reg;
        }
        | inr (inr e) ↦ absurd (returns.get_result_returns p.actor e)
      ]

  step_twice :
      (p : Service C lib) (e : Event lib.M)
      → 2 ≤ already p.done + ending e
      → step lib failed p e ≡ panic
  unfolding step ending on_state_changed
  step_twice p (received msg) h = ground arith
  step_twice p (sends peer_id message) h = ground arith
  step_twice p (changed old_state state_init) h = ground arith
  step_twice p (changed old_state state_failed) h = ground arith
  step_twice p (changed old_state state_done) h = ground arith

  -- If the process reports its end at most once, counting an end that was reported before, no event
  -- panics, and afterwards the channel is closed exactly if the end was reported.
  pub run_returns :
      (p : Service C lib) (es : List (Event lib.M))
      → Registered lib p
      → already p.done + endings es ≤ 1
      → (p' : Service C lib) × (run lib failed p es ≡ ok p')
        × (already p'.done ≡ already p.done + endings es)
  unfolding endings
  run_returns p [] reg h = (p, unfold run in refl, omega arith)
  run_returns p (e ∷ es) reg h =
      let g = step-GoesOn p e reg (omega arith) in
      let (p', r, d) = run_returns g.next es g.registered (omega (arith, g.ends)) in
      (p', sym (run-cons lib failed p g.next e es g.returned) ∙ r, omega (arith, g.ends, d))

  -- If the process reports its end a second time, the service panics: it closes a closed channel.
  run_panics :
      (p : Service C lib) (es : List (Event lib.M))
      → Registered lib p
      → 2 ≤ already p.done + endings es
      → run lib failed p es ≡ panic
  unfolding endings
  run_panics p [] reg h = absurd (ground arith)
  run_panics p (e ∷ es) reg h = elim (Bool-cases (leb 2 (already p.done + ending e))) [
    | inl now ↦ run-cons_panic lib failed p e es (step_twice p e (leb→le _ _ now))
    | inr later ↦
        let g = step-GoesOn p e reg (ground arith) in
        sym (run-cons lib failed p g.next e es g.returned)
        ∙ run_panics g.next es g.registered (omega (arith, g.ends))
  ]
