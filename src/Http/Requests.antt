-- ===== src/Http/Requests.antt =====
-- How GET /transactions answers.
use casino_transaction_syste.Prelude.{
  ℕ, ◌≡◌, ◌⊎◌, inl, inr, refl, Bool, true, false, String, Option, none, some, List, [], ◌∷◌, Bytes,
  Result, ok, err, arith,
}
use casino_transaction_syste.Prelude.Int.{ℤ, pos, ◌≤ℤ◌}
use casino_transaction_syste.Go.Strconv.{parse_int}
use casino_transaction_syste.Domain.{TransactionType, bet, win, Transaction, check_type}
use casino_transaction_syste.Errors.{GoError}
use casino_transaction_syste.Boundary.{classify}
use casino_transaction_syste.Http.{
  cut_off, counted, flushed, timed, Answer, Backend, user_of, type_of, responses, refuse, encoded,
  served, with_filters, get_transactions, TransactionResponse,
}

-- A `user_id` that the handler takes, and the user that the service is asked for: 0 is all users.
pub data UserFilter : Bytes → ℤ → Type 0 where
  all_users : UserFilter [] (pos 0)
  one_user :
      {c : ℕ} {s : Bytes} {i : ℤ} → parse_int (c ∷ s) ≡ some i → pos 1 ≤ℤ i → UserFilter (c ∷ s) i

-- The same for a `transaction_type`.
pub data TypeFilter : String → Option TransactionType → Type 0 where
  all_types : TypeFilter "" none
  bets : TypeFilter bet (some bet)
  wins : TypeFilter win (some win)

user_of-UserFilter : {q : Bytes} {i : ℤ} → UserFilter q i → user_of q ≡ ok i
unfolding user_of
user_of-UserFilter all_users = refl
user_of-UserFilter (one_user p h) = rw p (ground arith)

type_of-TypeFilter : {q : String} {f : Option TransactionType} → TypeFilter q f → type_of q ≡ ok f
unfolding type_of check_type
type_of-TypeFilter all_types = refl
type_of-TypeFilter bets = refl
type_of-TypeFilter wins = refl

module _ {W : Type 0} where
  -- The counter shows the status that the client gets, unless the encoder has failed, which the client
  -- cannot be told any more.
  pub record IsCounted (a : Answer W) : Type 0 where
    pub shown : ℕ
    pub reason : String
    pub reports : a.reports ≡ counted shown reason ∷ flushed ∷ timed ∷ []
    pub agrees : (shown ≡ a.status) ⊎ ((a.body ≡ cut_off) × (a.status ≡ 200) × (shown ≡ 500))

  module _ (backend : Backend W) where
    encoded-IsCounted :
        (b : Bool) (rs : List TransactionResponse) (w : W) → IsCounted (encoded b rs w)
    encoded-IsCounted true rs w = record {
      shown = 200;
      reason = "ok";
      reports = refl;
      agrees = inl refl;
    }
    encoded-IsCounted false rs w = record {
      shown = 500;
      reason = "encode_error";
      reports = refl;
      agrees = inr (refl, refl, refl);
    }

    refuse-IsCounted : (n : ℕ) (r text : String) (w : W) → IsCounted (refuse n r text w)
    refuse-IsCounted n r text w = record {
      shown = n;
      reason = r;
      reports = refl;
      agrees = inl refl;
    }

    served-IsCounted :
        (r : Result GoError (List Transaction)) (w : W) → IsCounted (served backend r w)
    served-IsCounted (err e) w = refuse-IsCounted (classify e).http_status _ _ w
    served-IsCounted (ok ts) w = encoded-IsCounted (backend.encodes (responses ts)) (responses ts) w

    with_filters-IsCounted :
        (u : Result String ℤ) (t : Result String (Option TransactionType)) (w : W)
        → IsCounted (with_filters backend u t w)
    with_filters-IsCounted (err r) t w = refuse-IsCounted 400 r _ w
    with_filters-IsCounted (ok i) (err r) w = refuse-IsCounted 400 r _ w
    with_filters-IsCounted (ok i) (ok f) w =
        let (r, w') = backend.get_transactions i f w in served-IsCounted r w'

-- Every request is counted once, before the sink is flushed and the duration is observed, with the
-- status that the client gets; only where the JSON encoder fails, the counter shows 500 and the client
-- 200.
pub get_transactions-IsCounted :
    {W : Type 0} (backend : Backend W) (user_id : Bytes) (transaction_type : String) (w : W)
    → IsCounted (get_transactions backend user_id transaction_type w)
unfolding get_transactions
get_transactions-IsCounted backend user_id transaction_type w =
    with_filters-IsCounted backend (user_of user_id) (type_of transaction_type) w

-- For a `user_id` that is missing or a positive int64 and a type that is missing, "bet" or "win", the
-- answer is the one to the service's result for these filters.
pub get_transactions_filtered :
    {W : Type 0} (backend : Backend W) (user_id : Bytes) (transaction_type : String) (w : W) (i : ℤ)
    (f : Option TransactionType)
    → UserFilter user_id i
    → TypeFilter transaction_type f
    → get_transactions backend user_id transaction_type w
      ≡ served backend (backend.get_transactions i f w).0 (backend.get_transactions i f w).1
unfolding get_transactions
get_transactions_filtered backend user_id transaction_type w i f hu ht =
    rw (user_of-UserFilter hu, type_of-TypeFilter ht)
