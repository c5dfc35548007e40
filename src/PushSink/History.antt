-- ===== src/PushSink/History.antt =====
-- The buffer over any sequence of its operations.
use smokeping_go.Common.{ℕ, refl, Bool, List, [], ◌∷◌, arith}
use smokeping_go.Cycle.{Cycle}
use smokeping_go.Cluster.{CyclePayload}
use smokeping_go.PushSink.{
  PushSink, new_push_sink, set_hop_markers, on_cycle, drain, requeue, read, heap_of,
}
use smokeping_go.PushSink.Store.{Ready, on_cycle-Stored}
use smokeping_go.PushSink.Drain.{drain-Drained}
use smokeping_go.PushSink.Requeue.{requeue-Requeued}

pub data Op : Type 0 where
  cycling : Cycle → Op
  draining : ℕ → Op
  requeuing : List CyclePayload → Op
  marking : Bool → Op

abbrev pub step : PushSink → Op → PushSink
step p (cycling c) = (on_cycle p c).0
step p (draining limit) = (drain p limit).0
step p (requeuing batch) = (requeue p batch).0
step p (marking ok) = set_hop_markers p ok

abbrev pub steps : PushSink → List Op → PushSink
steps p [] = p
steps p (op ∷ later) = steps (step p op) later

new_push_sink-Ready : (budget : ℕ) → Ready (new_push_sink budget)
unfolding new_push_sink read heap_of
new_push_sink-Ready budget = record {
  inv = record {
    room = omega arith;
    within = omega arith;
    headed = omega arith;
    counted = refl;
    shed = tt;
  };
  placed = omega arith;
}

set_hop_markers-Ready : (p : PushSink) (ok : Bool) → Ready p → Ready (set_hop_markers p ok)
unfolding set_hop_markers
set_hop_markers-Ready p ok r = record {
  inv = record {
    room = r.inv.room;
    within = r.inv.within;
    headed = r.inv.headed;
    counted = r.inv.counted;
    shed = r.inv.shed;
  };
  placed = r.placed;
}

step-Ready : (p : PushSink) (op : Op) → Ready p → Ready (step p op)
unfolding requeue
step-Ready p (cycling c) r = (on_cycle-Stored p c r).2.ready
step-Ready p (draining limit) r = (drain-Drained p limit r).ready
step-Ready p (requeuing []) r = r
step-Ready p (requeuing (e ∷ es)) r = (requeue-Requeued p e es r).ready
step-Ready p (marking ok) r = set_hop_markers-Ready p ok r

steps-Ready : (ops : List Op) (p : PushSink) → Ready p → Ready (steps p ops)
steps-Ready [] p r = r
steps-Ready (op ∷ later) p r = steps-Ready later (step p op) (step-Ready p op r)

-- After any sequence of operations on a new buffer, the byte counter is the sum of what the buffered
-- cycles hold, the ring has room for its entries, and the cycles before the walk's place have no hops.
pub any_history_ready : (budget : ℕ) (ops : List Op) → Ready (steps (new_push_sink budget) ops)
any_history_ready budget ops = steps-Ready ops (new_push_sink budget) (new_push_sink-Ready budget)
