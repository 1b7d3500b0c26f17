-- ===== src/App/Wiring/Topics.antt =====
-- The topic of the dead letters.
use Prim.Native.String.{◌++◌ as append, count}
use text.Mathlib.Text.{◌==◌ as str_eq}
use text.Mathlib.TextEquality.{eq_iff}
use text.Mathlib.TextLemmas.{length-append}
use casino_transaction_syste.Prelude.{
  ◌≡◌, ◌≢◌, refl, sym, ◌∙◌, ap, subst, true, false, String, Bool-cases, inl, inr, arith,
}
use casino_transaction_syste.Config.{Kafka, dlq_topic_or, default_kafka}
use casino_transaction_syste.Kafka.Settings.{normalize, normalize_idem}
use casino_transaction_syste.App.Wiring.{processor_consumer, new_consumer_with_metrics}

suffixed-apart : (topic : String) → append topic ".dlq" ≢ topic
suffixed-apart topic e =
    let longer = length-append topic ".dlq" in let same = ap count e in omega (arith, longer, same)

-- A topic that is not empty and that is not this one.
pub record IsApart (topic dead : String) : Type 0 where
  pub named : dead ≢ ""
  pub apart : dead ≢ topic

suffixed-named : (topic : String) → append topic ".dlq" ≢ ""
suffixed-named topic e =
    let longer = length-append topic ".dlq" in let same = ap count e in omega (arith, longer, same)

unequal : (s t : String) → s ≢ t → str_eq s t ≡ false
unequal s t h = elim (Bool-cases (str_eq s t)) [ inl e ↦ absurd (h ((eq_iff s t).0 e)) | inr e ↦ e ]

dlq_topic_or-IsApart :
    (topic dlq : String) → topic ≢ "" → dlq ≢ topic → IsApart topic (dlq_topic_or topic dlq)
dlq_topic_or-IsApart topic dlq named apart = elim (Bool-cases (str_eq dlq "")) [
  | inl unset ↦
      rw (unset, unequal topic "" named)
        (record { named = suffixed-named topic; apart = suffixed-apart topic })
  | inr set ↦
      rw set (record { named = λ e. true_false (sym ((eq_iff dlq "").1 e) ∙ set); apart = apart })
]
  where
    true_false : true ≢ false
    true_false e = cc

-- The consumer that the processor builds from settings with a topic, after loadConfig has put in its
-- defaults, writes dead letters to a topic that has a name and that it does not read itself, unless the
-- settings name just that topic for them.
pub processor_consumer-IsApart :
    {S : Type 0} (fresh : S) (k : Kafka)
    → k.topic ≢ ""
    → k.dlq_topic ≢ k.topic
    → let c = processor_consumer fresh (default_kafka k) in
      (c.reader.topic ≡ k.topic) × IsApart c.reader.topic c.writer.topic
unfolding processor_consumer new_consumer_with_metrics default_kafka normalize
processor_consumer-IsApart fresh k named apart =
    let again = ap (λ (x : Kafka). x.dlq_topic) (normalize_idem k) in
    (
      refl,
      subst (IsApart k.topic) (sym again) (dlq_topic_or-IsApart k.topic k.dlq_topic named apart),
    )
