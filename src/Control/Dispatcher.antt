-- ===== src/Control/Dispatcher.antt =====
-- src/app/control/services/dispatcher and src/app/control/ports/handler.hpp. A handler acts on a
-- world `W`, and returns a response or throws a `std::exception`.
use strixcam.Prelude.{
  ℕ, String, Option, none, some, List, [], ◌∷◌, ◌≡◌, refl, arith, nat_eq, ◌==◌, inl, inr,
  if◌then◌else◌, nat_keys, Bool-cases,
}
use strixcam.Prelude.Assoc.{Assoc, lookup, insert, contains, lookup-insert}
use strixcam.Control.Message.{Command, CommandResponse, unsupported, failed, refused}

pub data Outcome {ℓ} (P : Type ℓ) : Type ℓ where
  returned : CommandResponse P → Outcome P
  threw : String → Outcome P

pub record CommandHandler {ℓ} (C P W : Type ℓ) : Type ℓ where
  pub handled_cases : List ℕ
  pub handle : Command C → W → W × Outcome P

abbrev pub Handlers {ℓ} : Type ℓ → Type ℓ → Type ℓ → Type ℓ
Handlers C P W = Assoc ℕ (CommandHandler C P W)

abbrev echo {ℓ} : {C P : Type ℓ} → Command C → CommandResponse P → CommandResponse P
echo cmd resp = record resp { correlation_id = cmd.correlation_id }

abbrev answer {ℓ} : {C P : Type ℓ} → Command C → Outcome P → CommandResponse P
answer cmd (returned resp) = echo cmd resp
answer cmd (threw what) = echo cmd (failed what)

abbrev pub or_else {ℓ} : {A : Type ℓ} → Option A → Option A → Option A
or_else none other = other
or_else (some a) other = some a

module _ {ℓ} {C P W : Type ℓ} where
  -- `try_emplace`: the first registration of a case stays.
  abbrev pub try_emplace : ℕ → CommandHandler C P W → Handlers C P W → Handlers C P W
  try_emplace key handler handlers = elim (lookup key handlers) [
    | none ↦ insert key handler handlers
    | some _ ↦ handlers
  ]

  unfoldable pub register_cases : List ℕ → CommandHandler C P W → Handlers C P W → Handlers C P W
  register_cases [] handler handlers = handlers
  register_cases (key ∷ rest) handler handlers =
      register_cases rest handler (try_emplace key handler handlers)

  -- A null handler is ignored.
  unfoldable pub register : Option (CommandHandler C P W) → Handlers C P W → Handlers C P W
  unfolding register_cases
  register none handlers = handlers
  register (some handler) handlers = register_cases handler.handled_cases handler handlers

  unfoldable pub dispatch : Handlers C P W → Command C → W → W × CommandResponse P
  dispatch handlers cmd w =
      if nat_eq cmd.payload_case 0
      then (w, echo cmd (refused "empty command: no payload set"))
      else elim (lookup cmd.payload_case handlers) [
        | none ↦ (w, echo cmd (refused "command not supported on this firmware"))
        | some handler ↦ let (w', outcome) = handler.handle cmd w in (w', answer cmd outcome)
      ]

  -- Every response carries the id of its command, whatever the handler put there or threw.
  pub dispatch-echo :
      (handlers : Handlers C P W) (cmd : Command C) (w : W)
      → (dispatch handlers cmd w).1.correlation_id ≡ cmd.correlation_id
  unfolding dispatch
  dispatch-echo handlers cmd w = ground arith

  -- A command with no payload or with no handler changes nothing, and is answered UNSUPPORTED.
  pub dispatch_unhandled :
      (handlers : Handlers C P W) (cmd : Command C) (w : W)
      → lookup cmd.payload_case handlers ≡ none
      → ((dispatch handlers cmd w).0 ≡ w) × ((dispatch handlers cmd w).1.status ≡ unsupported)
  unfolding dispatch
  dispatch_unhandled handlers cmd w h = elim (Bool-cases (nat_eq cmd.payload_case 0)) [
    | inl empty ↦ rw empty (refl, refl)
    | inr set ↦ rw (set, h, dispatch) (refl, refl)
  ]

  lookup-try_emplace :
      (key case : ℕ) (handler : CommandHandler C P W) (handlers : Handlers C P W)
      → lookup case (try_emplace key handler handlers)
        ≡ or_else (lookup case handlers) (if key == case then some handler else none)
  lookup-try_emplace key case handler handlers =
      ground (arith, lookup-insert key case handler handlers)

  -- Registration routes each of the handler's cases to it, unless an earlier registration has the
  -- case; the routes of other cases stay.
  pub lookup-register_cases :
      (cases : List ℕ) (case : ℕ) (handler : CommandHandler C P W) (handlers : Handlers C P W)
      → lookup case (register_cases cases handler handlers)
        ≡ or_else (lookup case handlers) (if contains case cases then some handler else none)
  unfolding register_cases contains
  lookup-register_cases [] case handler handlers = ground arith
  lookup-register_cases (key ∷ rest) case handler handlers = ground (
    arith,
    lookup-register_cases rest case handler (try_emplace key handler handlers),
    lookup-try_emplace key case handler handlers,
  )
