-- ===== src/SlaveClient/Examples.antt =====
-- A slave with one buffered cycle, and a master that does not know it.
use smokeping_go.Common.{
  Pairwise, ◌≡◌, ◌≢◌, refl, true, false, List, [], ◌∷◌, bytes, take, drop, nat_eq,
}
use smokeping_go.Common.Map
use smokeping_go.Config.{valid_slave_name, has_control}
use smokeping_go.Registry.{has}
use smokeping_go.Cluster.{CyclePayload, from_cycle}
use smokeping_go.SlaveHealth.{is_health_group}
use smokeping_go.Cluster.Examples.{a_payload}
use smokeping_go.PushSink.{
  PushSink, new_push_sink, drain, drain_loop, outgoing, requeue, requeue_batch, report, make_room,
  make_room_loop, grow_for, entries_for, double_until, fits, prepend, heap_of, payload_heap_bytes,
  hop_bytes, resize, read, shrink_if_idle,
}
use smokeping_go.PushSink.Entries.{entries}
use smokeping_go.PushSink.Store.{Ready, Withheld}
use smokeping_go.PushSink.Drain.{batch_size}
use smokeping_go.PushSink.Requeue.{Requeued}
use smokeping_go.PushSink.History.{requeuing, steps, any_history_ready}
use smokeping_go.Server.{Headers}
use smokeping_go.Server.Examples.{platform, calm, world, empty_server}
use smokeping_go.SlaveClient.{Answer, answered, unanswered, flush_once}
use smokeping_go.SlaveClient.Flushes.{Settled, flush_once-Settled}
use smokeping_go.SlaveClient.Master.{master_answer, lost_registry_keeps_batch}

abbrev one_cycle : PushSink
one_cycle = steps (new_push_sink 100000) (requeuing (a_payload ∷ []) ∷ [])

one_cycle-Ready : Ready one_cycle
one_cycle-Ready = any_history_ready 100000 (requeuing (a_payload ∷ []) ∷ [])

drained : (drain one_cycle 100).1 ≡ a_payload ∷ []
unfolding drain drain_loop outgoing requeue requeue_batch report make_room make_room_loop grow_for
    entries_for double_until fits prepend heap_of payload_heap_bytes hop_bytes resize read
    shrink_if_idle new_push_sink from_cycle is_health_group
drained = refl

abbrev proxy_down : List CyclePayload → Answer
proxy_down batch = answered 502 false

flush_once-Settled_example :
    let (q, batch) = drain one_cycle 100 in
    let n = batch_size one_cycle 100 in
    Pairwise (Withheld one_cycle.hop_markers) (take n (entries one_cycle)) (a_payload ∷ [])
    × (entries q ≡ drop n (entries one_cycle))
    × Settled
        (answered 502 false)
        q
        (flush_once proxy_down unanswered 100 one_cycle).sink
        (a_payload ∷ [])
flush_once-Settled_example =
    flush_once-Settled proxy_down unanswered 100 one_cycle a_payload [] one_cycle-Ready drained

abbrev headers : Headers
headers = record { slave_name = bytes "s1"; slave_version = bytes "v1"; advertise = [] }

valid : valid_slave_name headers.slave_name ≡ true
unfolding valid_slave_name has_control
valid = refl

unknown : has empty_server.registry headers.slave_name ≡ false
unfolding has Map.has
unknown = refl

named : headers.slave_name ≢ []
named e = absurd (cc)

lost_registry_keeps_batch_example :
    Requeued
      (drain one_cycle 100).0
      (flush_once
        (master_answer platform calm world (bytes "4") headers empty_server (bytes "s1"))
        (answered 200 false)
        100
        one_cycle).sink
      (a_payload ∷ [])
lost_registry_keeps_batch_example =
    lost_registry_keeps_batch platform calm world (bytes "4") headers empty_server
      (answered 200 false) 100 one_cycle a_payload [] one_cycle-Ready drained named valid unknown
