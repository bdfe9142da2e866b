-- ===== src/Dpp/Router/Listed.antt =====
-- Routers that are lists of their listeners, the last one first.
use tintemp_plus_plus.Base.{refl, List, [], ◌∷◌}
use tintemp_plus_plus.Dpp.Router.{Routers}

abbrev call_list : {E S L : Type 0} → (L → E → S → S) → List L → E → S → S
call_list run [] event s = s
call_list run (f ∷ fs) event s = run f event (call_list run fs event s)

instance abbrev pub listed : Routers
listed = record {
  EventRouter = λ L. List L;
  router = [];
  attach = λ r f. f ∷ r;
  call = λ run r event s. call_list run r event s;
  call-router = λ run event s. refl;
  call-attach = λ run r func event s. refl;
}
