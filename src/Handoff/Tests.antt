-- ===== src/Handoff/Tests.antt =====
-- The ring and the ladder on small inputs.
use hi_perf_cmp.Prelude.{
  ◌+◌, ◌≤◌, ◌≡◌, refl, arith, List, [], ◌∷◌, length, take, replicate, get_or, ◌<◌, ◌++◌, ◌≢◌,
}
use hi_perf_cmp.Handoff.Spsc.{new, channel, push, pop, Turn, produce, consume, turn, run}
use hi_perf_cmp.Handoff.Spsc.Order.{run-Fifo, channel-IsRing}
use hi_perf_cmp.Handoff.Spsc.Progress.{Takes, Sends, pop-Takes, push-Sends}
use hi_perf_cmp.Handoff.Mpsc
use hi_perf_cmp.Handoff.Batch
use hi_perf_cmp.Handoff.Batch.Order.{run-BatchFifo}
use hi_perf_cmp.Handoff.Mpsc.Order.{run-Delivers}
use hi_perf_cmp.Handoff.Backoff.{with_parker, parks, idle}
use hi_perf_cmp.Handoff.Backoff.Ladder.{rung, climb, doubled, idle-rung}

-- Two tokens go in around the first that comes out, over a ring of one slot.
abbrev turns : List Turn
turns =
    produce 7
    ∷ produce 0
    ∷ produce 0
    ∷ consume
    ∷ produce 9
    ∷ consume
    ∷ produce 0
    ∷ consume
    ∷ consume
    ∷ produce 0
    ∷ produce 0
    ∷ []

sent_and_got : ((run turns (channel 1)).sent ≡ 7 ∷ 9 ∷ []) × ((run turns (channel 1)).got ≡ 7 ∷ [])
unfolding run turn push pop channel new
sent_and_got = (refl, refl)

run-Fifo_example :
    ((run turns (channel 1)).got
      ≡ take (length (run turns (channel 1)).got) (run turns (channel 1)).sent)
    × (length (run turns (channel 1)).got ≤ length (run turns (channel 1)).sent)
    × (length (run turns (channel 1)).sent ≤ length (run turns (channel 1)).got + 1)
run-Fifo_example = run-Fifo turns 1 (omega arith) (rw sent_and_got.0 (omega arith))

idle-rung_example : (idle 0 (climb 31 (idle 4 with_parker).1)).0 ≡ rung 31
idle-rung_example = idle-rung with_parker 4 31 (omega arith)

second_park : rung 31 ≡ parks 2000
unfolding rung doubled
second_park = refl

-- Token 7 is published, and the consumer has not begun.
published_7 :
    (run (produce 7 ∷ produce 0 ∷ produce 0 ∷ []) (channel 2)).consumer.head
    ≢ (run (produce 7 ∷ produce 0 ∷ produce 0 ∷ []) (channel 2)).shared.tail
unfolding run turn push channel new
published_7 = omega arith

pop-Takes_example :
    Takes (replicate 4 consume) (run (produce 7 ∷ produce 0 ∷ produce 0 ∷ []) (channel 2))
pop-Takes_example = pop-Takes (run (produce 7 ∷ produce 0 ∷ produce 0 ∷ []) (channel 2)) published_7

push-Sends_example : Sends (replicate 4 (produce 5)) (channel 2)
unfolding channel new
push-Sends_example =
    push-Sends 5 (channel 2) (channel-IsRing 2 (omega arith)) (omega arith) (omega arith)

-- Producer 1 claims two sequences of a ring of two, and producer 2 a third, which has to wait for the
-- consumer.
abbrev bursts : List Mpsc.Turn
bursts =
    Mpsc.produce 1 2 (λ k. 10 + k)
      ∷ Mpsc.produce 2 1 (λ k. 20)
      ∷ Mpsc.produce 2 1 (λ k. 20)
      ∷ replicate 4 (Mpsc.produce 1 0 (λ k. 0))
    ++ (replicate 4 (Mpsc.consume 1) ++ replicate 3 (Mpsc.produce 2 1 (λ k. 20)))
    ++ replicate 6 (Mpsc.consume 9)

drained : (Mpsc.run bursts (Mpsc.ring 2)).got ≡ 10 ∷ 11 ∷ 20 ∷ []
unfolding Mpsc.run Mpsc.turn Mpsc.publish Mpsc.drain Mpsc.ring Mpsc.new
drained = refl

run-Delivers_example :
    (get_or (Mpsc.run bursts (Mpsc.ring 2)).got 2 0 ≡ (Mpsc.run bursts (Mpsc.ring 2)).token 2)
    × (2 < (Mpsc.run bursts (Mpsc.ring 2)).shared.claim)
run-Delivers_example =
    run-Delivers bursts 2 2 (omega arith) (omega arith) (rw drained (omega arith))

-- A burst of two fills a ring of two slots, a drain takes it, and a push goes in after.
abbrev drained_turns : List Batch.Turn
drained_turns =
    Batch.produces (Batch.batch_publish 2 (λ k. k + 5))
    ∷ Batch.produces (Batch.push 0)
    ∷ Batch.consumes (Batch.drain 9)
    ∷ Batch.produces (Batch.push 0)
    ∷ Batch.produces (Batch.push 0)
    ∷ Batch.consumes (Batch.drain 9)
    ∷ Batch.consumes (Batch.drain 9)
    ∷ Batch.consumes (Batch.drain 9)
    ∷ Batch.produces (Batch.push 8)
    ∷ Batch.consumes (Batch.drain 9)
    ∷ Batch.consumes (Batch.drain 9)
    ∷ Batch.produces (Batch.push 8)
    ∷ Batch.produces (Batch.push 8)
    ∷ []

burst_sent :
    ((Batch.run drained_turns (Batch.channel 2)).sent ≡ 5 ∷ 6 ∷ 8 ∷ [])
    × ((Batch.run drained_turns (Batch.channel 2)).got ≡ 5 ∷ 6 ∷ [])
unfolding Batch.run Batch.turn Batch.produce Batch.consume Batch.start_push Batch.start_pop
    Batch.from_k Batch.drain_k Batch.channel Batch.new
burst_sent = (refl, refl)

run-BatchFifo_example :
    ((Batch.run drained_turns (Batch.channel 2)).got
      ≡ take
          (length (Batch.run drained_turns (Batch.channel 2)).got)
          (Batch.run drained_turns (Batch.channel 2)).sent)
    × (length (Batch.run drained_turns (Batch.channel 2)).got
        ≤ length (Batch.run drained_turns (Batch.channel 2)).sent)
    × (length (Batch.run drained_turns (Batch.channel 2)).sent
        ≤ length (Batch.run drained_turns (Batch.channel 2)).got + 2)
run-BatchFifo_example = run-BatchFifo drained_turns 2 (omega arith) (rw burst_sent.0 (omega arith))
