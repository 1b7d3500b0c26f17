-- ===== src/Service/Table/Tests.antt =====
-- Deliveries of two bets to a table, also where an insert fails, and a query.
use casino_transaction_syste.Prelude.{
  ◌≡◌, ◌⊎◌, ◌↔◌, absurd, refl, false, true, Bool-cases, if◌then◌else◌, none, some, List, [], ◌∷◌,
  ok, inl, inr,
}
use casino_transaction_syste.Prelude.Int.{pos}
use casino_transaction_syste.TimeUtil.{zero_time, is_zero}
use casino_transaction_syste.Domain.{Transaction}
use casino_transaction_syste.Kafka.Trace.{Has}
use casino_transaction_syste.Go.Strconv.Itoa.{itoa}
use casino_transaction_syste.Errors.{deadline_exceeded}
use casino_transaction_syste.Repository.{
  Database, transaction_of, scan_all, save, save_bulk, get, get_statement, join,
}
use casino_transaction_syste.Service.{register_transaction, register_transactions, get_transactions}
use casino_transaction_syste.Service.Table.{Key, key_of, keys_of, IsSelected, IsPostgres}
use casino_transaction_syste.Service.Table.Shop.{Shop, shop, shop-IsPostgres}
use casino_transaction_syste.Service.Table.Histories.{
  Call, one, many, requested, run, AllAccepted, run-Writes, run-agrees,
}
use casino_transaction_syste.Service.Table.Reading.{
  user_filter, EachListed, Listed, get_transactions-Selected,
}

abbrev bet_of : Transaction
bet_of = record {
  id = pos 0;
  user_id = pos 1;
  type = "bet";
  amount = pos 525;
  timestamp = record { seconds = pos 1700000000; nanos = 0 };
  created_at = zero_time;
}

abbrev win_of : Transaction
win_of = record bet_of { user_id = pos 2; type = "win" }

abbrev closed : Shop
closed = record { rows = []; cancelled = false }

-- In bulk; and one by one, in another order, with a redelivery.
abbrev in_bulk : List Call
in_bulk = many (bet_of ∷ win_of ∷ []) ∷ []

abbrev redelivered : List Call
redelivered = one win_of ∷ one bet_of ∷ many (bet_of ∷ []) ∷ []

abbrev bet_key : Key
bet_key = key_of shop-IsPostgres.column bet_of

run-Writes_example :
    (shop-IsPostgres.IsRow bet_key closed
        ⊎ Has bet_key (keys_of shop-IsPostgres.column (run shop redelivered closed).0)
      → shop-IsPostgres.IsRow bet_key (run shop redelivered closed).1)
    × (shop-IsPostgres.IsRow bet_key (run shop redelivered closed).1
        → shop-IsPostgres.IsRow bet_key closed
          ⊎ Has bet_key (keys_of shop-IsPostgres.column (requested redelivered)))
run-Writes_example = run-Writes shop shop-IsPostgres redelivered closed bet_key

-- The same table behind a connection on which the next insert times out where the context is cancelled.
abbrev unsteady : Database Shop
unsteady = record {
  exec = λ st w.
      if w.cancelled
      then (some deadline_exceeded, record w { cancelled = false })
      else shop.exec st w;
  query = shop.query;
}

unsteady-IsPostgres : IsPostgres unsteady
unfolding shop-IsPostgres
unsteady-IsPostgres = record {
  IsRow = λ k w. Has k w.rows;
  column = λ t. t;
  insert_keeps = λ ts w k h. elim (Bool-cases w.cancelled) [
    | inl e ↦ rw e h
    | inr e ↦ rw e (shop-IsPostgres.insert_keeps ts w k h)
  ];
  insert_only = λ ts w k h. elim (Bool-cases w.cancelled) [
    | inl e ↦ inl (rw e at h)
    | inr e ↦ shop-IsPostgres.insert_only ts w k (rw e at h)
  ];
  insert_adds = λ ts w k e h. elim (Bool-cases w.cancelled) [
    | inl late ↦ absurd (cc (rw late at e))
    | inr up ↦ rw up (shop-IsPostgres.insert_adds ts w k refl h)
  ];
  select_keeps = shop-IsPostgres.select_keeps;
  select_only = shop-IsPostgres.select_only;
  select_all = shop-IsPostgres.select_all;
}

-- The first call fails in both histories.
abbrev late : Shop
late = record closed { cancelled = true }

abbrev retried : List Call
retried = many (bet_of ∷ win_of ∷ []) ∷ in_bulk

abbrev mixed : List Call
mixed = one bet_of ∷ redelivered

abbrev IsKey : List Call → Key → Type 0
IsKey calls k = Has k (keys_of (λ t. t) (requested calls))

same_keys : (k : Key) → IsKey retried k ↔ IsKey mixed k
same_keys k = (
  (λ h. elim h [
    | inl a ↦ inl a
    | inr (inl a) ↦ inr (inl a)
    | inr (inr (inl a)) ↦ inl a
    | inr (inr (inr (inl a))) ↦ inr (inl a)
    | inr (inr (inr (inr x))) ↦ absurd x
  ]),
  (λ h. elim h [
    | inl a ↦ inl a
    | inr (inl a) ↦ inr (inl a)
    | inr (inr (inl a)) ↦ inl a
    | inr (inr (inr (inl a))) ↦ inl a
    | inr (inr (inr (inr x))) ↦ absurd x
  ]),
)

retried-all : AllAccepted unsteady unsteady-IsPostgres retried late
unfolding run register_transactions save_bulk
retried-all k h = elim h [
  | inl a ↦ inl a
  | inr (inl a) ↦ inr (inl a)
  | inr (inr (inl a)) ↦ inl a
  | inr (inr (inr (inl a))) ↦ inr (inl a)
  | inr (inr (inr (inr x))) ↦ absurd x
]

mixed-all : AllAccepted unsteady unsteady-IsPostgres mixed late
unfolding run register_transaction register_transactions save save_bulk
mixed-all k h = elim h [
  | inl a ↦ inr (inl a)
  | inr (inl a) ↦ inl a
  | inr (inr (inl a)) ↦ inr (inl a)
  | inr (inr (inr (inl a))) ↦ inr (inl a)
  | inr (inr (inr (inr x))) ↦ absurd x
]

run-agrees_example :
    Has bet_key (run unsteady retried late).1.rows ↔ Has bet_key (run unsteady mixed late).1.rows
unfolding unsteady-IsPostgres
run-agrees_example =
    run-agrees unsteady unsteady-IsPostgres retried mixed late retried-all mixed-all same_keys
      bet_key

abbrev filled_shop : Shop
filled_shop = record closed { rows = keys_of (λ t. t) (bet_of ∷ win_of ∷ []) }

-- The query of user 1.
selected : (get_transactions (some shop) (pos 1) none filled_shop).0 ≡ ok (bet_of ∷ [])
unfolding get_transactions get scan_all transaction_of get_statement join itoa is_zero
selected = refl

get_transactions-Selected_example :
    EachListed
      (λ k. shop-IsPostgres.IsRow k filled_shop × IsSelected (user_filter (pos 1)) none k)
      (bet_of ∷ [])
    × ((k : Key)
        → shop-IsPostgres.IsRow k filled_shop
        → IsSelected (user_filter (pos 1)) none k
        → Listed k (bet_of ∷ []))
get_transactions-Selected_example =
    get_transactions-Selected shop shop-IsPostgres (pos 1) none filled_shop (bet_of ∷ []) selected
