-- ===== src/Kafka/Tests/Stopping.antt =====
-- A site where the shutdown comes while the database works, so that its call fails.
use casino_transaction_syste.Prelude.{◌≡◌, refl, true, none, some, [], ◌∷◌, err, arith}
use casino_transaction_syste.Errors.{canceled, other, non_retryable}
use casino_transaction_syste.Kafka.Settings.{normalize}
use casino_transaction_syste.Kafka.Dto.{unmarshal}
use casino_transaction_syste.Kafka.Decode.{parse_and_validate}
use casino_transaction_syste.Kafka.Outside.{Outside, IsPatient}
use casino_transaction_syste.Kafka.Consumer.State.{Wt, stored, dead_lettered, committed}
use casino_transaction_syste.Kafka.Consumer.Config.{Consumer, parsed}
use casino_transaction_syste.Kafka.Consumer.Worker.{no_messages, take_parsed}
use casino_transaction_syste.Kafka.Shutdown.{take_parsed_overtakes}
use casino_transaction_syste.Kafka.Tests.{
  Site, site, processor, valid_message, empty_message, paid, start,
}

abbrev stopping : Outside Site
stopping = record site {
  register_all = λ ts w. (some canceled, record w { cancelled = true });
  write_messages = λ k v w. (none, w);
  commit_messages = λ ms w. (none, w);
}

abbrev stopping-IsPatient : IsPatient stopping
stopping-IsPatient = record {
  patience = λ w. 0;
  register_patience = λ t w. omega arith;
  register_all_patience = λ ts w. omega arith;
  write_patience = λ k v w. omega arith;
  write_fails = λ k v w e h. cc;
  commit_patience = λ ms w. omega arith;
  commit_fails = λ ms w e h. cc;
  now_patience = λ w. omega arith;
  random_patience = λ n w. omega arith;
  sleep_patience = λ d w. omega arith;
  wait_patience = λ w. omega arith;
  cancel_patience = λ w. omega arith;
  marshals = λ p. (p.key, refl);
}

abbrev last_processor : Consumer Site
last_processor = record processor { outside = stopping }

empty_message_refused : parsed last_processor empty_message ≡ err (non_retryable (other 0))
unfolding parse_and_validate unmarshal
empty_message_refused = refl

take_parsed_overtakes_example :
    Wt
      (take_parsed last_processor
        (record { msgs = valid_message ∷ []; domains = paid ∷ [] })
        empty_message
        (err (non_retryable (other 0)))
        start)
      (λ b s'.
        (b ≡ no_messages)
        × (s'.trace
            ≡ committed (empty_message ∷ []) none
              ∷ dead_lettered empty_message none
              ∷ stored (paid ∷ []) (some canceled)
              ∷ []))
unfolding normalize
take_parsed_overtakes_example =
    take_parsed_overtakes last_processor stopping-IsPatient valid_message [] (paid ∷ [])
      empty_message (other 0) canceled canceled start (omega arith) (omega arith) refl
      empty_message_refused refl refl (λ k v w. refl) (λ ms w. refl)
