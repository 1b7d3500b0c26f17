-- ===== src/Kafka/Fetch/Workers.antt =====
-- `workers`, the map from partitions to channels, as an association list with what each channel holds.
use casino_transaction_syste.Prelude.{
  ℕ, ◌≡◌, ◌==◌, refl, Bool, true, false, if◌then◌else◌, List, [], ◌∷◌, ◌++◌, arith,
}
use casino_transaction_syste.Kafka.Message.{Message}

abbrev pub Channels : Type 0
Channels = List (ℕ × List Message)

unfoldable pub has_channel : ℕ → Channels → Bool
has_channel p [] = false
has_channel p ((q, ms) ∷ cs) = if q == p then true else has_channel p cs

-- What the channel of a partition holds, the oldest first; nothing where there is no channel.
unfoldable pub queue_of : ℕ → Channels → List Message
queue_of p [] = []
queue_of p ((q, ms) ∷ cs) = if q == p then ms else queue_of p cs

unfoldable pub push : ℕ → Message → Channels → Channels
push p msg [] = []
push p msg ((q, ms) ∷ cs) = if q == p then (q, ms ++ msg ∷ []) ∷ cs else (q, ms) ∷ push p msg cs

abbrev pub tail : List Message → List Message
tail [] = []
tail (m ∷ ms) = ms

unfoldable pub drop_first : ℕ → Channels → Channels
drop_first p [] = []
drop_first p ((q, ms) ∷ cs) = if q == p then (q, tail ms) ∷ cs else (q, ms) ∷ drop_first p cs

-- The partitions that have a channel.
abbrev pub partitions : Channels → List ℕ
partitions [] = []
partitions ((q, ms) ∷ cs) = q ∷ partitions cs

pub queue_of-push :
    (j p : ℕ) (msg : Message) (cs : Channels)
    → has_channel p cs ≡ true
    → queue_of j (push p msg cs) ≡ (if p == j then queue_of j cs ++ msg ∷ [] else queue_of j cs)
unfolding queue_of push has_channel
queue_of-push j p msg [] h = cc
queue_of-push j p msg ((q, ms) ∷ cs) h = ground (arith, queue_of-push j p msg cs)

pub queue_of-drop_first :
    (j p : ℕ) (cs : Channels)
    → queue_of j (drop_first p cs) ≡ (if p == j then tail (queue_of j cs) else queue_of j cs)
unfolding queue_of drop_first
queue_of-drop_first j p [] = ground arith
queue_of-drop_first j p ((q, ms) ∷ cs) = ground (arith, queue_of-drop_first j p cs)

pub partitions-push :
    (p : ℕ) (msg : Message) (cs : Channels) → partitions (push p msg cs) ≡ partitions cs
unfolding push
partitions-push p msg [] = refl
partitions-push p msg ((q, ms) ∷ cs) = ground (arith, partitions-push p msg cs)

pub partitions-drop_first : (p : ℕ) (cs : Channels) → partitions (drop_first p cs) ≡ partitions cs
unfolding drop_first
partitions-drop_first p [] = refl
partitions-drop_first p ((q, ms) ∷ cs) = ground (arith, partitions-drop_first p cs)

pub has_channel-push :
    (j p : ℕ) (msg : Message) (cs : Channels) → has_channel j (push p msg cs) ≡ has_channel j cs
unfolding push has_channel
has_channel-push j p msg [] = refl
has_channel-push j p msg ((q, ms) ∷ cs) = ground (arith, has_channel-push j p msg cs)

pub has_channel-drop_first :
    (j p : ℕ) (cs : Channels) → has_channel j (drop_first p cs) ≡ has_channel j cs
unfolding drop_first has_channel
has_channel-drop_first j p [] = refl
has_channel-drop_first j p ((q, ms) ∷ cs) = ground (arith, has_channel-drop_first j p cs)

pub queue_of-no_channel : (p : ℕ) (cs : Channels) → has_channel p cs ≡ false → queue_of p cs ≡ []
unfolding queue_of has_channel
queue_of-no_channel p [] h = refl
queue_of-no_channel p ((q, ms) ∷ cs) h = ground (arith, queue_of-no_channel p cs)

pub queue_of-new :
    (j p : ℕ) (cs : Channels) → has_channel p cs ≡ false → queue_of j ((p, []) ∷ cs) ≡ queue_of j cs
unfolding queue_of
queue_of-new j p cs h = ground (arith, queue_of-no_channel p cs h)

pub has_channel-new :
    (p : ℕ) (ms : List Message) (cs : Channels) → has_channel p ((p, ms) ∷ cs) ≡ true
unfolding has_channel
has_channel-new p ms cs = ground arith
