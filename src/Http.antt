-- ===== src/Http.antt =====
-- internal/transport/http: GET /transactions, over a service with a state of its own. What it logs
-- is left out.
pub mod Requests
pub mod Create
pub mod Router
pub mod Serving
mod Tests
use text.Mathlib.Text.{◌==◌ as str_eq}
use casino_transaction_syste.Prelude.{
  ℕ, Bool, true, false, String, if◌then◌else◌, Option, none, some, List, [], ◌∷◌, Bytes, Result, ok,
  err,
}
use casino_transaction_syste.Prelude.Int.{ℤ, pos, leb_ℤ}
use casino_transaction_syste.Go.Strconv.{parse_int}
use casino_transaction_syste.TimeUtil.{Time}
use casino_transaction_syste.Domain.{TransactionType, Transaction, DomainError, check_type}
use casino_transaction_syste.Errors.{GoError}
use casino_transaction_syste.Boundary.{classify}

pub record TransactionResponse : Type 0 where
  pub user_id : ℤ
  pub transaction_type : TransactionType
  pub amount : ℤ
  pub timestamp : Time

unfoldable pub response_of : Transaction → TransactionResponse
response_of t = record {
  user_id = t.user_id;
  transaction_type = t.type;
  amount = t.amount;
  timestamp = t.timestamp;
}

-- The loop that builds `resp`.
unfoldable pub responses : List Transaction → List TransactionResponse
responses [] = []
responses (t ∷ ts) = response_of t ∷ responses ts

pub data Body : Type 0 where
  message : String → Body
  transactions : List TransactionResponse → Body
  -- what is left of an encoding that failed
  cut_off : Body

-- The calls of the metrics sink: the request counter with its status and reason, `Flush`, and the
-- duration. The two that are deferred run in this order.
pub data Report : Type 0 where
  counted : ℕ → String → Report
  flushed timed : Report

pub record Answer (W : Type 0) : Type 0 where
  pub world : W
  pub status : ℕ
  pub body : Body
  pub reports : List Report

-- `GetTransactions` of the service, and whether the JSON encoder can write its argument.
pub record Backend (W : Type 0) : Type 0 where
  pub get_transactions : ℤ → Option TransactionType → W → Result GoError (List Transaction) × W
  pub encodes : List TransactionResponse → Bool

-- The user, or the reason for the refusal.
abbrev pub user_of_parsed : Option ℤ → Result String ℤ
user_of_parsed none = err "invalid_user_id"
user_of_parsed (some i) = if leb_ℤ i (pos 0) then err "non_positive_user_id" else ok i

unfoldable pub user_of : Bytes → Result String ℤ
user_of [] = ok (pos 0)
user_of (c ∷ s) = user_of_parsed (parse_int (c ∷ s))

abbrev pub type_of_checked :
    TransactionType → Option DomainError → Result String (Option TransactionType)
type_of_checked t none = ok (some t)
type_of_checked t (some e) = err "invalid_transaction_type"

unfoldable pub type_of : String → Result String (Option TransactionType)
type_of t = if str_eq t "" then ok none else type_of_checked t (check_type t)

abbrev pub reported : ℕ → String → List Report
reported status reason = counted status reason ∷ flushed ∷ timed ∷ []

module _ {W : Type 0} where
  -- http.Error after the request counter.
  abbrev pub refuse : ℕ → String → String → W → Answer W
  refuse status reason text w = record {
    world = w;
    status = status;
    body = message text;
    reports = reported status reason;
  }

  abbrev pub encoded : Bool → List TransactionResponse → W → Answer W
  encoded true resp w = record {
    world = w;
    status = 200;
    body = transactions resp;
    reports = reported 200 "ok";
  }
  encoded false resp w = record {
    world = w;
    status = 200;
    body = cut_off;
    reports = reported 500 "encode_error";
  }

  module _ (backend : Backend W) where
    abbrev pub served : Result GoError (List Transaction) → W → Answer W
    served (err e) w =
        refuse (classify e).http_status "service_error" "failed to get transactions" w
    served (ok ts) w = encoded (backend.encodes (responses ts)) (responses ts) w

    abbrev pub with_filters :
        Result String ℤ → Result String (Option TransactionType) → W → Answer W
    with_filters (err reason) t w = refuse 400 reason "invalid user_id" w
    with_filters (ok user) (err reason) w = refuse 400 reason "invalid transaction type" w
    with_filters (ok user) (ok filter) w =
        let (r, w') = backend.get_transactions user filter w in served r w'

    -- The arguments are the query's `user_id` and `transaction_type`, empty where they are missing.
    unfoldable pub get_transactions : Bytes → String → W → Answer W
    get_transactions user_id transaction_type w =
        with_filters (user_of user_id) (type_of transaction_type) w
