-- ===== src/Ws/Written.antt =====
-- Whether a message of a given type is among those that were written (utils/ws/ws.go).
use meemaw.Prelude.{
  Bool-cases, ◌≡◌, refl, ap, ◌∙◌, ◌⊎◌, inl, inr, Bool, true, false, ◌||◌, List, [], ◌∷◌, ◌++◌,
}
use meemaw.Ws.{WsMessage, MessageType, tss_message, same_type}

unfoldable pub has_written : MessageType → List WsMessage → Bool
has_written t [] = false
has_written t (m ∷ ms) = let rest = has_written t ms in same_type m.msg_type t || rest

pub has_written-snoc :
    (t : MessageType) (ms : List WsMessage) (m : WsMessage)
    → same_type m.msg_type t ≡ false
    → has_written t (ms ++ m ∷ []) ≡ has_written t ms
unfolding has_written
has_written-snoc t [] m h = rw h refl
has_written-snoc t (x ∷ ms) m h = rw (has_written-snoc t ms m h) refl

-- A message of the process changes nothing for the other types.
pub has_written-tss :
    (t : MessageType) (ms ms' : List WsMessage)
    → same_type tss_message t ≡ false
    → (ms' ≡ ms) ⊎ ((m : WsMessage) × (m.msg_type ≡ tss_message) × (ms' ≡ ms ++ m ∷ []))
    → has_written t ms' ≡ has_written t ms
has_written-tss t ms ms' other (inl same) = ap (has_written t) same
has_written-tss t ms ms' other (inr (m, tss, snoc)) =
    ap (has_written t) snoc ∙ has_written-snoc t ms m (ap (λ u. same_type u t) tss ∙ other)

pub has_written-here :
    (t : MessageType) (ms : List WsMessage) (m : WsMessage)
    → same_type m.msg_type t ≡ true
    → has_written t (ms ++ m ∷ []) ≡ true
unfolding has_written
has_written-here t [] m h = rw h refl
has_written-here t (x ∷ ms) m h = elim (Bool-cases (same_type x.msg_type t)) [
  | inl yes_it_is ↦ rw (yes_it_is) refl
  | inr no_it_is ↦ rw (no_it_is, has_written-here t ms m h) refl
]
