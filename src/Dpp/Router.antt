-- ===== src/Dpp/Router.antt =====
-- The routers of D++, through which the program receives its events (`event_router_t`): a parameter, with
-- what their header documents as laws. Listeners act on a state that is passed on, and the listeners of
-- this program never cancel an event.
pub mod Listed
use tintemp_plus_plus.Base.{◌≡◌}

pub record Routers : Type 1 where
  -- A router for listeners of a type.
  pub EventRouter : Type 0 → Type 0
  pub router : {L : Type 0} → EventRouter L
  -- `operator()`, which attaches a listener.
  pub attach : {L : Type 0} → EventRouter L → L → EventRouter L
  -- `call`, with what a listener does to the state.
  pub call : {E S L : Type 0} → (L → E → S → S) → EventRouter L → E → S → S
  -- A new router has no listener.
  pub call-router :
      {E S L : Type 0} (run : L → E → S → S) (event : E) (s : S)
      → call run (router {L = L}) event s ≡ s
  -- Listeners are called in the order in which they were attached.
  pub call-attach :
      {E S L : Type 0} (run : L → E → S → S) (r : EventRouter L) (func : L) (event : E) (s : S)
      → call run (attach r func) event s ≡ run func event (call run r event s)
