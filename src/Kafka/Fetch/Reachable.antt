-- ===== src/Kafka/Fetch/Reachable.antt =====
-- The fetch loop in every state that it reaches.
use casino_transaction_syste.Kafka.Fetch.{Loop, Reach, here, next}
use casino_transaction_syste.Kafka.Fetch.Invariant.{IsOrderly}
use casino_transaction_syste.Kafka.Fetch.Steps.{start-IsOrderly, Step-IsOrderly}

-- In every state that the fetch loop of Start reaches, whatever the reader, the workers and the context
-- do: for each partition, the messages sent to it are those its worker received, then those its channel
-- holds, in that order; no channel holds more than partition_worker_queue_size messages; the messages
-- fetched are those sent, but for the one that waits at the `select`, and the one that a cancelled loop
-- dropped there when it returned; and each partition has one channel and one worker.
pub Reach-IsOrderly : {l : Loop} → Reach l → IsOrderly l
Reach-IsOrderly here = start-IsOrderly
Reach-IsOrderly (next before step) = Step-IsOrderly step (Reach-IsOrderly before)
