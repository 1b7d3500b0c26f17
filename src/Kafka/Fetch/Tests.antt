-- ===== src/Kafka/Fetch/Tests.antt =====
-- Concrete runs of the fetch loop.
use casino_transaction_syste.Prelude.{ℕ, refl, arith, []}
use casino_transaction_syste.Errors.{deadline_exceeded}
use casino_transaction_syste.Kafka.Fetch.{
  Loop, start, load_or_store, on_message, leave, send, receive, fail, fetch, deliver, give_up, take,
  fail_fatally, Reach, here, next,
}
use casino_transaction_syste.Kafka.Fetch.Invariant.{IsOrderly}
use casino_transaction_syste.Kafka.Fetch.Reachable.{Reach-IsOrderly}
use casino_transaction_syste.Kafka.Fetch.Settled.{fatal_errors, IsSettled, Reach-IsSettled}
use casino_transaction_syste.Kafka.Fetch.Workers.{queue_of, has_channel, push, drop_first}
use casino_transaction_syste.Kafka.Message.{Message}
use casino_transaction_syste.Prelude.Int.{pos}

abbrev message : ℕ → Message
message p = record {
  topic = "transactions";
  partition = p;
  offset = 5;
  key = [];
  value = [];
  headers = [];
  time = record { seconds = pos 0; nanos = 0 };
}

-- Partition 0 gets a message that its worker receives and fails on; partition 1 gets a message that the
-- loop drops for it.
abbrev sent_once : Loop
sent_once = send (message 0) (on_message (message 0) start)

abbrev dropped : Loop
dropped = leave (fail deadline_exceeded (receive (message 0) (on_message (message 1) sent_once)))

abbrev run : Reach dropped
unfolding on_message send receive fail leave load_or_store queue_of has_channel push drop_first
run =
    next
      (next
        (next
          (next (next (next here (fetch (message 0) refl)) (deliver (message 0) refl (omega arith)))
            (fetch (message 1) refl))
          (take (message 0) [] refl))
        (fail_fatally deadline_exceeded))
      (give_up (message 1) refl refl)

Reach-IsOrderly_example : IsOrderly dropped
Reach-IsOrderly_example = Reach-IsOrderly run

Reach-IsSettled_example : IsSettled dropped (fatal_errors run)
Reach-IsSettled_example = Reach-IsSettled run
