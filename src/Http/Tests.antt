-- ===== src/Http/Tests.antt =====
-- Requests from internal/transport/http/handler_test.go.
use Prim.Native.String.{◌++◌ as append}
use text.Mathlib.Text.{◌==◌ as str_eq}
use casino_transaction_syste.Prelude.{
  String, List, if◌then◌else◌, Bytes, Option, none, ◌∷◌, ℕ, suc, ◌≡◌, refl, true, some, [], codes,
  err,
}
use casino_transaction_syste.Prelude.Int.{pos}
use casino_transaction_syste.Go.Strconv.{parse_int}
use casino_transaction_syste.Errors.{db_unavailable, root}
use casino_transaction_syste.Boundary.{classify, meta_of}
use casino_transaction_syste.Domain.{check_type}
use casino_transaction_syste.Http.{message, Backend, user_of, type_of, get_transactions}
use casino_transaction_syste.Kafka.Dto.{Json, RawTransaction}
use casino_transaction_syste.Http.Create.Agreement.{
  through_request, through_message, through_request-through_message,
}
use casino_transaction_syste.Http.Router.{Reading, Mux, health_handler, new_router, patterns, serve}
use casino_transaction_syste.Http.Serving.{Routed, serve-Routed}

-- The state counts the calls; the database is down.
abbrev down : Backend ℕ
down = record {
  get_transactions = λ user filter calls. (err db_unavailable, suc calls);
  encodes = λ rs. true;
}

get_transactions_runs :
    ((get_transactions down (codes "7") "bet" 0).status ≡ 503)
    × ((get_transactions down (codes "0") "bet" 0).status ≡ 400)
    × ((get_transactions down (codes "x") "" 0).status ≡ 400)
    × ((get_transactions down [] "refund" 0).status ≡ 400)
    × ((get_transactions down [] "refund" 0).world ≡ 0)
unfolding get_transactions user_of type_of parse_int check_type classify meta_of root
get_transactions_runs = (refl, refl, refl, refl, refl)

seven_parses : parse_int (codes "7") ≡ some (pos 7)
unfolding parse_int
seven_parses = refl

-- Requests known by their path, for bets of user 7, and a mux of whole paths.
abbrev bets_of_seven : Reading String
bets_of_seven = record {
  user_id = λ r. codes "7";
  transaction_type = λ r. "bet";
  takes = λ r. true;
}

abbrev found_in : List String → String → Option String
found_in [] path = none
found_in (p ∷ ps) path = if str_eq p (append "GET " path) then some p else found_in ps path

abbrev whole_paths : Mux String
whole_paths = record {
  find = found_in;
  swagger = λ r. (200, message "Swagger UI");
  no_route = λ r. (404, message "404 page not found");
}

serve_runs :
    ((serve bets_of_seven whole_paths down "/transactions" 0).status ≡ 503)
    × ((serve bets_of_seven whole_paths down "/transactions" 0).world ≡ 1)
    × ((serve bets_of_seven whole_paths down "/health" 0).body ≡ message "OK")
    × ((serve bets_of_seven whole_paths down "/health" 0).world ≡ 0)
    × ((serve bets_of_seven whole_paths down "/users" 0).status ≡ 404)
unfolding serve new_router health_handler get_transactions user_of type_of parse_int check_type
    classify meta_of root
serve_runs = (refl, refl, refl, refl, refl)

serve-Routed_example :
    Routed bets_of_seven down "/transactions" 0
      (serve bets_of_seven whole_paths down "/transactions" 0)
      (whole_paths.find (patterns (new_router bets_of_seven whole_paths down)) "/transactions")
serve-Routed_example = serve-Routed bets_of_seven whole_paths down "/transactions" 0

-- A decoder that takes every payload but the empty one for a bet of user 1.
abbrev bet_of : Bytes → Option RawTransaction
bet_of [] = none
bet_of (d ∷ s) = some (record { user_id = pos 1; type = "bet"; amount = d ∷ s; timestamp = [] })

abbrev bet_json : Json
bet_json = record { decode_raw = bet_of; decode_string = λ s. some s; decode_number = λ s. some s }

through_request-through_message_example :
    through_request bet_json (λ l s. none) (codes "5.25")
    ≡ through_message bet_json (λ l s. none) (codes "5.25")
through_request-through_message_example =
    through_request-through_message bet_json (λ l s. none) (codes "5.25")
