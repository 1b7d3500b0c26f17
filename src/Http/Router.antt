-- ===== src/Http/Router.antt =====
-- internal/transport/http/router.go: the route table and the health check. Which of the registered
-- patterns a request matches, and the pages of the Swagger UI and of ServeMux itself, are parameters.
use text.Mathlib.Text.{◌==◌ as str_eq}
use casino_transaction_syste.Prelude.{
  ℕ, Bool, true, false, String, if◌then◌else◌, Option, none, some, List, [], ◌∷◌, Bytes,
}
use casino_transaction_syste.Http.{Body, message, cut_off, Answer, Backend, get_transactions}

-- What the handlers read of a request, and whether the client takes what is written to it.
pub record Reading (R : Type 0) : Type 0 where
  pub user_id : R → Bytes
  pub transaction_type : R → String
  pub takes : R → Bool

-- A page has a status and a body.
pub record Mux (R : Type 0) : Type 0 where
  pub find : List String → R → Option String
  pub swagger : R → ℕ × Body
  pub no_route : R → ℕ × Body

module _ {W : Type 0} where
  unfoldable pub health_handler : Bool → W → Answer W
  health_handler true w = record { world = w; status = 200; body = message "OK"; reports = [] }
  health_handler false w = record { world = w; status = 200; body = cut_off; reports = [] }

  abbrev pub page : ℕ × Body → W → Answer W
  page (status, body) w = record { world = w; status = status; body = body; reports = [] }

abbrev pub patterns : {H : Type 0} → List (String × H) → List String
patterns [] = []
patterns ((p, h) ∷ routes) = p ∷ patterns routes

module _ {R W : Type 0} (mux : Mux R) where
  abbrev pub handler_of : List (String × (R → W → Answer W)) → String → R → W → Answer W
  handler_of [] s r = page (mux.no_route r)
  handler_of ((p, h) ∷ routes) s r = if str_eq s p then h r else handler_of routes s r

module _ {R W : Type 0} (reading : Reading R) (mux : Mux R) (backend : Backend W) where
  -- The registrations in their order.
  unfoldable pub new_router : List (String × (R → W → Answer W))
  new_router =
      (
        "GET /transactions",
        λ r. get_transactions backend (reading.user_id r) (reading.transaction_type r),
      )
      ∷ ("GET /health", λ r. health_handler (reading.takes r))
      ∷ ("/swagger/", λ r. page (mux.swagger r))
      ∷ []

  -- ServeMux calls the handler that is registered for the pattern it has found.
  abbrev pub dispatch : Option String → R → W → Answer W
  dispatch none r = page (mux.no_route r)
  dispatch (some s) r = handler_of mux new_router s r

  unfoldable pub serve : R → W → Answer W
  serve r = dispatch (mux.find (patterns new_router) r) r
