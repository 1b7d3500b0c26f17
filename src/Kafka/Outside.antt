-- ===== src/Kafka/Outside.antt =====
-- What the consumer calls: the transaction service, the Kafka reader and the dead letter writer, the
-- application's context, the clock and the timer. They share one world, which each call moves on.
use casino_transaction_syste.Prelude.{
  ℕ, ◌≤◌, ◌<◌, ◌≡◌, ◌≢◌, String, Option, none, some, List, Bytes, Result, ok,
}
use casino_transaction_syste.Prelude.Int.{ℤ}
use casino_transaction_syste.TimeUtil.{Time}
use casino_transaction_syste.Domain.{Transaction}
use casino_transaction_syste.Errors.{GoError}
use casino_transaction_syste.Kafka.Message.{Message}

-- The map that `routeToDLQ` encodes; its field "value" is a constant.
pub record DlqPayload : Type 0 where
  pub topic : String
  pub partition : ℕ
  pub offset : ℕ
  pub key : Bytes
  pub value_sha256 : Bytes
  pub value_size_bytes : ℕ
  pub error : GoError
  pub failed_at : Time
  pub headers : List (String × Bytes)
  pub source_time : Option Time

-- `none` is the nil error.
pub record Outside (W : Type 0) : Type 0 where
  -- svc.RegisterTransaction and svc.RegisterTransactions, under a timeout on the application's context
  pub register : Transaction → W → Option GoError × W
  pub register_all : List Transaction → W → Option GoError × W
  -- writer.WriteMessages with a key and a value, and reader.CommitMessages, under the detached context
  pub write_messages : Bytes → Bytes → W → Option GoError × W
  pub commit_messages : List Message → W → Option GoError × W
  -- appCtx.Err(), and the cancel function of Start
  pub app_err : W → Option GoError
  pub cancel : W → W
  -- time.Now; rand.Int63n; a timer of so many nanoseconds, or the end of the context
  pub now : W → Time × W
  pub random : ℕ → W → ℕ × W
  pub sleep : ℤ → W → W
  -- the wait of a worker for its next message or tick
  pub wait : W → W
  -- hex of sha256.Sum256, json.Marshal, and Go's conversion of a float64 beyond int64
  pub sha256_hex : Bytes → Bytes
  pub marshal : DlqPayload → Result GoError Bytes
  pub beyond_int64 : ℕ → ℤ

-- A cancelled context stays cancelled, `cancel` cancels it, and a random number is below its bound.
pub record IsLawful {W : Type 0} (o : Outside W) : Type 0 where
  pub register_cancelled :
      (t : Transaction) (w : W) → o.app_err w ≢ none → o.app_err (o.register t w).1 ≢ none
  pub register_all_cancelled :
      (ts : List Transaction) (w : W)
      → o.app_err w ≢ none
      → o.app_err (o.register_all ts w).1 ≢ none
  pub write_messages_cancelled :
      (k v : Bytes) (w : W) → o.app_err w ≢ none → o.app_err (o.write_messages k v w).1 ≢ none
  pub commit_messages_cancelled :
      (ms : List Message) (w : W) → o.app_err w ≢ none → o.app_err (o.commit_messages ms w).1 ≢ none
  pub now_cancelled : (w : W) → o.app_err w ≢ none → o.app_err (o.now w).1 ≢ none
  pub random_cancelled : (n : ℕ) (w : W) → o.app_err w ≢ none → o.app_err (o.random n w).1 ≢ none
  pub sleep_cancelled : (d : ℤ) (w : W) → o.app_err w ≢ none → o.app_err (o.sleep d w) ≢ none
  pub wait_cancelled : (w : W) → o.app_err w ≢ none → o.app_err (o.wait w) ≢ none
  pub cancel_cancels : (w : W) → o.app_err (o.cancel w) ≢ none

-- Outages end: so many more calls of the dead letter writer and of CommitMessages can fail, and no
-- other call raises that number. The payload, a map of texts, numbers and bytes, can be encoded.
pub record IsPatient {W : Type 0} (o : Outside W) : Type 0 where
  pub patience : W → ℕ
  pub register_patience : (t : Transaction) (w : W) → patience (o.register t w).1 ≤ patience w
  pub register_all_patience :
      (ts : List Transaction) (w : W) → patience (o.register_all ts w).1 ≤ patience w
  pub write_patience : (k v : Bytes) (w : W) → patience (o.write_messages k v w).1 ≤ patience w
  pub write_fails :
      (k v : Bytes) (w : W) (e : GoError)
      → (o.write_messages k v w).0 ≡ some e
      → patience (o.write_messages k v w).1 < patience w
  pub commit_patience :
      (ms : List Message) (w : W) → patience (o.commit_messages ms w).1 ≤ patience w
  pub commit_fails :
      (ms : List Message) (w : W) (e : GoError)
      → (o.commit_messages ms w).0 ≡ some e
      → patience (o.commit_messages ms w).1 < patience w
  pub now_patience : (w : W) → patience (o.now w).1 ≤ patience w
  pub random_patience : (n : ℕ) (w : W) → patience (o.random n w).1 ≤ patience w
  pub sleep_patience : (d : ℤ) (w : W) → patience (o.sleep d w) ≤ patience w
  pub wait_patience : (w : W) → patience (o.wait w) ≤ patience w
  pub cancel_patience : (w : W) → patience (o.cancel w) ≤ patience w
  pub marshals : (p : DlqPayload) → (raw : Bytes) × (o.marshal p ≡ ok raw)
