-- ===== src/Service/Tests.antt =====
-- A consumer over a database that is down.
use casino_transaction_syste.Prelude.{
  ◌≢◌, String, ℕ, true, ◌+◌, true, none, some, [], Bytes, codes, ok, err, Option,
}
use casino_transaction_syste.Prelude.Int.{pos}
use casino_transaction_syste.TimeUtil.{zero_time}
use casino_transaction_syste.Domain.{Transaction}
use casino_transaction_syste.Errors.{deadline_exceeded, root}
use casino_transaction_syste.Repository.{Database}
use casino_transaction_syste.Service.Answers.{IsReader, backend_over, get_transactions-status}
use casino_transaction_syste.Service.ReadOnly.{Reads, new_api, new_api-Reads}
use casino_transaction_syste.Http.{message as text_body, get_transactions}
use casino_transaction_syste.Http.Router.{Reading, Mux}
use casino_transaction_syste.Kafka.Message.{Message}
use casino_transaction_syste.Kafka.Outside.{Outside}
use casino_transaction_syste.Kafka.Dto.{RawTransaction}
use casino_transaction_syste.Kafka.Consumer.State.{State}
use casino_transaction_syste.Kafka.Consumer.Config.{Consumer}

-- Every insert times out; the world counts them.
abbrev database : Database ℕ
database = record {
  exec = λ st w. (some deadline_exceeded, w + 1);
  query = λ st w. (err deadline_exceeded, w);
}

abbrev quiet : Outside ℕ
quiet = record {
  register = λ t w. (none, w);
  register_all = λ ts w. (none, w);
  write_messages = λ k v w. (none, w);
  commit_messages = λ ms w. (none, w);
  app_err = λ w. none;
  cancel = λ w. w;
  now = λ w. (zero_time, w);
  random = λ n w. (0, w);
  sleep = λ d w. w;
  wait = λ w. w;
  sha256_hex = λ b. b;
  marshal = λ p. ok p.key;
  beyond_int64 = λ n. pos 0;
}

abbrev bet_of : Bytes → Option RawTransaction
bet_of payload = some (record { user_id = pos 1; type = "bet"; amount = payload; timestamp = [] })

abbrev processor : Consumer ℕ
processor = record {
  outside = quiet;
  codec = record {
    json = record { decode_raw = bet_of; decode_string = λ s. some s; decode_number = λ s. some s };
    parse_in_utc = λ l s. none;
  };
  cfg = record {
    brokers = [];
    topic = "transactions";
    group_id = "processor";
    process_timeout_ms = pos 5000;
    retry_base_delay_ms = pos 100;
    retry_jitter_ms = pos 300;
    max_process_retries = pos 3;
    dlq_topic = "";
    metrics_flush_sec = pos 15;
    shutdown_drain_timeout_sec = pos 60;
    batch_size = pos 2;
    batch_flush_interval_sec = pos 5;
  };
  has_writer = true;
  fuel = 4;
}

abbrev message : Message
message = record {
  topic = "transactions";
  partition = 0;
  offset = 3;
  key = [];
  value = codes "5.25";
  headers = [];
  time = zero_time;
}

abbrev start : State ℕ
start = record { world = 0; inflight = pos 0; fatal = none; trace = []; metrics = [] }

abbrev paid : Transaction
paid = record {
  id = pos 0;
  user_id = pos 1;
  type = "bet";
  amount = pos 525;
  timestamp = zero_time;
  created_at = zero_time;
}

database-IsReader : IsReader database
unfolding root
database-IsReader st w = ((λ e. cc), (λ e. cc))

get_transactions-status_example :
    (get_transactions (backend_over database (λ rs. true)) (codes "7") "bet" 0).status ≢ 503
get_transactions-status_example =
    get_transactions-status database database-IsReader (λ rs. true) (codes "7") "bet" 0

-- Requests known by their path, for bets of user 7, and a mux that finds the transactions.
abbrev bets_of_seven : Reading String
bets_of_seven = record {
  user_id = λ r. codes "7";
  transaction_type = λ r. "bet";
  takes = λ r. true;
}

abbrev to_transactions : Mux String
to_transactions = record {
  find = λ ps r. some "GET /transactions";
  swagger = λ r. (200, text_body "Swagger UI");
  no_route = λ r. (404, text_body "404 page not found");
}

new_api-Reads_example :
    Reads database 5
      (new_api bets_of_seven to_transactions database (λ rs. true) "/transactions" 5).world
new_api-Reads_example =
    new_api-Reads bets_of_seven to_transactions database (λ rs. true) "/transactions" 5
