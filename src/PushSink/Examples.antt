-- ===== src/PushSink/Examples.antt =====
-- Runs of the buffer at concrete cycles.
use smokeping_go.Common.{ℕ, true, [], ◌∷◌, bytes}
use smokeping_go.Cycle.{TargetRef, Hop, Cycle, no_items}
use smokeping_go.Cluster.{CyclePayload, from_cycle}
use smokeping_go.PushSink.{
  PushSink, new_push_sink, on_cycle, drain, requeue, make_room, drop_oldest,
}
use smokeping_go.PushSink.Cuts.{from_front}
use smokeping_go.PushSink.Room.{Made, make_room_front}
use smokeping_go.PushSink.Store.{Ready, Stored, Withheld, on_cycle-Stored}
use smokeping_go.PushSink.Drain.{Drained, batch_size, drain-Drained}
use smokeping_go.PushSink.Requeue.{Requeued, requeue-Requeued}
use smokeping_go.PushSink.History.{cycling, draining, requeuing, marking, steps, any_history_ready}

abbrev a_target : TargetRef
a_target = record {
  group = bytes "web";
  target = record {
    name = bytes "one";
    title = [];
    host = bytes "192.0.2.1";
    url = [];
    probe = bytes "icmp";
    alerts = [];
    family = [];
    slaves = [];
  };
}

abbrev a_hop : Hop
a_hop = record {
  index = 1;
  ip = bytes "192.0.2.9";
  target_reply = true;
  unreach = [];
  rtts = record { items = 5 ∷ []; cap = 1 };
  sent = 1;
  lost = 0;
}

abbrev a_cycle : ℕ → Cycle
a_cycle t = record {
  time = t;
  target = a_target;
  probe_name = bytes "icmp";
  source = bytes "s1";
  rtts = record { items = 5 ∷ 6 ∷ []; cap = 2 };
  sent = 2;
  loss_count = 0;
  summary = record { low = 5; high = 6; mean = 5; median = 5; std_dev = 0; percentiles = [] };
  hops = record { items = a_hop ∷ []; cap = 1 };
  http_samples = no_items;
}

-- A budget that the second cycle exceeds.
abbrev small : ℕ
small = 23200

abbrev two_cycles : PushSink
two_cycles = steps (new_push_sink small) (cycling (a_cycle 1) ∷ cycling (a_cycle 2) ∷ [])

two_cycles-Ready : Ready two_cycles
two_cycles-Ready = any_history_ready small (cycling (a_cycle 1) ∷ cycling (a_cycle 2) ∷ [])

make_room_front_example : Made from_front two_cycles (make_room two_cycles 500 1 drop_oldest) 500 1
make_room_front_example = make_room_front two_cycles 500 1 two_cycles-Ready.inv

on_cycle-Stored_example :
    (e : CyclePayload) × Withheld two_cycles.hop_markers (from_cycle (a_cycle 3)) e
    × Stored two_cycles (on_cycle two_cycles (a_cycle 3)).0 e
on_cycle-Stored_example = on_cycle-Stored two_cycles (a_cycle 3) two_cycles-Ready

drain-Drained_example :
    Drained (batch_size two_cycles 1) two_cycles (drain two_cycles 1).0 (drain two_cycles 1).1
drain-Drained_example = drain-Drained two_cycles 1 two_cycles-Ready

requeue-Requeued_example :
    Requeued two_cycles
      (requeue two_cycles (from_cycle (a_cycle 0) ∷ [])).0
      (from_cycle (a_cycle 0) ∷ [])
requeue-Requeued_example = requeue-Requeued two_cycles (from_cycle (a_cycle 0)) [] two_cycles-Ready

any_history_ready_example : Ready (
    steps (new_push_sink small) (
      marking true
      ∷ cycling (a_cycle 1)
      ∷ draining 1
      ∷ requeuing (from_cycle (a_cycle 1) ∷ [])
      ∷ []))
any_history_ready_example =
    any_history_ready small (
      marking true
      ∷ cycling (a_cycle 1)
      ∷ draining 1
      ∷ requeuing (from_cycle (a_cycle 1) ∷ [])
      ∷ [])
