-- ===== src/Http/Serving.antt =====
-- How the API's router answers.
use text.Mathlib.Text.{◌==◌ as str_eq}
use text.Mathlib.TextEquality.{eq_iff}
use casino_transaction_syste.Prelude.{
  ℕ, ◌≡◌, ◌≢◌, refl, sym, subst, Bool, true, false, String, Bool-cases, inl, inr, Option, none,
  some, [], if◌then◌else◌,
}
use casino_transaction_syste.Http.{Body, Answer, Backend, get_transactions}
use casino_transaction_syste.Http.Requests.{IsCounted, get_transactions-IsCounted}
use casino_transaction_syste.Http.Router.{
  Reading, Mux, health_handler, page, new_router, patterns, handler_of, dispatch, serve,
}

module _ {W : Type 0} where
  -- The request leaves the state alone and the sink uncalled.
  pub record IsQuiet (w : W) (a : Answer W) : Type 0 where
    pub world : a.world ≡ w
    pub reports : a.reports ≡ []

  page-IsQuiet : (p : ℕ × Body) (w : W) → IsQuiet w (page p w)
  page-IsQuiet p w = record { world = refl; reports = refl }

module _ {R W : Type 0} (reading : Reading R) (backend : Backend W) (r : R) (w : W)
    (a : Answer W) where
  -- The answer to a request, by the pattern it has matched.
  pub data Routed : Option String → Type 0 where
    transactions_routed :
        a ≡ get_transactions backend (reading.user_id r) (reading.transaction_type r) w
        → IsCounted a
        → Routed (some "GET /transactions")
    health_routed : IsQuiet w a → a.status ≡ 200 → Routed (some "GET /health")
    elsewhere :
        {p : Option String}
        → p ≢ some "GET /transactions"
        → p ≢ some "GET /health"
        → IsQuiet w a
        → Routed p

module _ {R W : Type 0} (reading : Reading R) (backend : Backend W) (r : R) where
  health_handler-Routed :
      (b : Bool) (w : W) → Routed reading backend r w (health_handler b w) (some "GET /health")
  unfolding health_handler
  health_handler-Routed true w = health_routed (record { world = refl; reports = refl }) refl
  health_handler-Routed false w = health_routed (record { world = refl; reports = refl }) refl

apart_of : (s t : String) → str_eq s t ≡ false → some s ≢ some t
apart_of s t e same = let equal = (eq_iff s t).1 (cc) in cc

module _ {R W : Type 0} (reading : Reading R) (mux : Mux R) (backend : Backend W) (r : R)
    (w : W) where
  matched-Routed :
      (s : String)
      → Routed reading backend r w (handler_of mux (new_router reading mux backend) s r w) (some s)
  unfolding new_router
  matched-Routed s = elim (Bool-cases (str_eq s "GET /transactions")) [
    | inl e ↦
        subst
          (λ p.
            Routed reading backend r w (handler_of mux (new_router reading mux backend) p r w)
              (some p))
          (sym ((eq_iff s "GET /transactions").0 e))
          (transactions_routed refl
            (get_transactions-IsCounted backend (reading.user_id r) (reading.transaction_type r) w))
    | inr d ↦ elim (Bool-cases (str_eq s "GET /health")) [
      | inl e ↦
          subst
            (λ p.
              Routed reading backend r w (handler_of mux (new_router reading mux backend) p r w)
                (some p))
            (sym ((eq_iff s "GET /health").0 e))
            (health_handler-Routed reading backend r (reading.takes r) w)
      | inr d' ↦
          rw (d, d')
            (elsewhere (apart_of s "GET /transactions" d) (apart_of s "GET /health" d')
              (rest (str_eq s "/swagger/")))
    ]
  ]
    where
      rest : (b : Bool) → IsQuiet w ((if b then page (mux.swagger r) else page (mux.no_route r)) w)
      rest true = page-IsQuiet (mux.swagger r) w
      rest false = page-IsQuiet (mux.no_route r) w

  dispatch-Routed :
      (p : Option String) → Routed reading backend r w (dispatch reading mux backend p r w) p
  dispatch-Routed none = elsewhere (λ e. cc) (λ e. cc) (page-IsQuiet (mux.no_route r) w)
  dispatch-Routed (some s) = matched-Routed s

-- Whatever the mux finds, a request of GET /transactions is counted once with the status that the client
-- gets, and every other one leaves the database and the metrics alone, the health check with status 200.
pub serve-Routed :
    {R W : Type 0} (reading : Reading R) (mux : Mux R) (backend : Backend W) (r : R) (w : W)
    → Routed reading backend r w
        (serve reading mux backend r w)
        (mux.find (patterns (new_router reading mux backend)) r)
unfolding serve
serve-Routed reading mux backend r w =
    dispatch-Routed reading mux backend r w (mux.find (patterns (new_router reading mux backend)) r)
