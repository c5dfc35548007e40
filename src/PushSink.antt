-- ===== src/PushSink.antt =====
-- internal/cluster/slave/pushsink.go: the slave's ring of cycles that wait to be pushed, bounded in
-- bytes. Counters and byte counts are numbers: by the invariant `heap` is never below what is taken
-- from it, and sizes of live memory are far below 2 ^ 63. The mutex makes each operation one step; the
-- logger is left out, so `report` gives the counters and the reports that `emit` would log.
pub mod Ring
pub mod Entries
pub mod Strip
pub mod Cuts
pub mod Evict
pub mod Room
pub mod Grow
pub mod Store
pub mod Drain
pub mod Requeue
pub mod History
pub mod Examples
use smokeping_go.Common.{
  pos, ℕ, zero, suc, ◌+◌, ◌-◌, ◌*◌, ◌%◌, Bool, true, false, not, ◌&&◌, Option, none, some, List, [],
  ◌∷◌, ◌++◌, ltb, leb, nat_beq, if◌then◌else◌, Str, bytes, str_beq, length, get_or, set, replicate,
}
use smokeping_go.Cycle.{Slice, Cycle, no_items}
use smokeping_go.Cluster.{HopDto, HttpSampleDto, CyclePayload, from_cycle}
use smokeping_go.SlaveHealth.{is_health_group}

-- unsafe.Sizeof of the buffered types, on a 64-bit platform.
abbrev pub payload_struct_bytes : ℕ
payload_struct_bytes = 360

abbrev pub hop_struct_bytes : ℕ
hop_struct_bytes = 88

abbrev pub http_struct_bytes : ℕ
http_struct_bytes = 56

abbrev pub duration_bytes : ℕ
duration_bytes = 8

abbrev pub initial_ring_entries : ℕ
initial_ring_entries = 64

abbrev pub default_buffer_bytes : ℕ
default_buffer_bytes = 268435456

abbrev pub zero_payload : CyclePayload
zero_payload = record {
  time = 0;
  group = [];
  name = [];
  probe_name = [];
  source = [];
  rtts = no_items;
  sent = pos 0;
  loss_count = pos 0;
  summary = record {
    low = pos 0;
    high = pos 0;
    mean = pos 0;
    median = pos 0;
    std_dev = pos 0;
    percentiles = [];
  };
  hops = no_items;
  http_samples = no_items;
}

pub record PushSink : Type 0 where
  pub buf : List CyclePayload
  pub head : ℕ
  pub size : ℕ
  pub budget : ℕ
  pub heap : ℕ
  pub strip_idx : ℕ
  pub dropped : ℕ
  pub stripped : ℕ
  pub last_strip_log : ℕ
  pub last_drop_log : ℕ
  pub hop_markers : Bool

unfoldable pub new_push_sink : ℕ → PushSink
new_push_sink budget = record {
  buf = replicate initial_ring_entries zero_payload;
  head = 0;
  size = 0;
  budget = if nat_beq budget 0 then default_buffer_bytes else budget;
  heap = 0;
  strip_idx = 0;
  dropped = 0;
  stripped = 0;
  last_strip_log = 0;
  last_drop_log = 0;
  hop_markers = false;
}

unfoldable pub set_hop_markers : PushSink → Bool → PushSink
set_hop_markers p ok = record p { hop_markers = ok }

unfoldable pub hop_contents : List HopDto → ℕ
hop_contents [] = 0
hop_contents (h ∷ hs) =
    length h.ip + length h.unreach + h.rtts.cap * duration_bytes + hop_contents hs

unfoldable pub hop_bytes : Slice HopDto → ℕ
unfolding hop_contents
hop_bytes hops = hops.cap * hop_struct_bytes + hop_contents hops.items

unfoldable pub sample_contents : List HttpSampleDto → ℕ
sample_contents [] = 0
sample_contents (s ∷ ss) = length s.err + sample_contents ss

unfoldable pub payload_heap_bytes : CyclePayload → ℕ
unfolding hop_bytes sample_contents
payload_heap_bytes p =
    length p.group
    + length p.name
    + length p.probe_name
    + length p.source
    + p.rtts.cap * duration_bytes
    + hop_bytes p.hops
    + p.http_samples.cap * http_struct_bytes
    + sample_contents p.http_samples.items

-- The slot of the entry at a logical offset from the head.
abbrev pub slot : PushSink → ℕ → ℕ
slot p i = (p.head + i) % length p.buf

abbrev pub at : PushSink → ℕ → CyclePayload
at p i = get_or p.buf (slot p i) zero_payload

-- The doublings of `entriesFor`, with fuel for as many as there are entries to hold.
unfoldable pub double_until : ℕ → ℕ → ℕ → ℕ
double_until zero have need = have
double_until (suc fuel) have need =
    let rest = double_until fuel (have * 2) need in if ltb have need then rest else have

unfoldable pub entries_for : ℕ → ℕ → ℕ → ℕ
unfolding double_until
entries_for have size n = double_until (size + n) have (size + n)

unfoldable pub fits : PushSink → ℕ → ℕ → Bool
fits p heap n =
    leb (entries_for (length p.buf) p.size n * payload_struct_bytes + p.heap + heap) p.budget

-- One entry loses its hops: the body of the loop of `stripOldestHops`.
unfoldable pub strip_at : PushSink → PushSink
strip_at p =
    let e = at p p.strip_idx in
    record p {
      heap = p.heap - hop_bytes e.hops;
      buf = set p.buf (slot p p.strip_idx) (record e { hops = no_items });
      strip_idx = p.strip_idx + 1;
      stripped = p.stripped + 1;
    }

-- The loop itself: at most `size - stripIdx` rounds.
unfoldable pub strip_walk : ℕ → PushSink → PushSink × Bool
unfolding strip_at
strip_walk zero p = (p, false)
strip_walk (suc fuel) p =
    let rest = strip_walk fuel (record p { strip_idx = p.strip_idx + 1 }) in
    if nat_beq (length (at p p.strip_idx).hops.items) 0 then rest else (strip_at p, true)

unfoldable pub strip_oldest_hops : PushSink → PushSink × Bool
unfolding strip_walk
strip_oldest_hops p = strip_walk (p.size - p.strip_idx) p

unfoldable pub drop_oldest : PushSink → PushSink
drop_oldest p = record p {
  heap = p.heap - payload_heap_bytes (get_or p.buf p.head zero_payload);
  buf = set p.buf p.head zero_payload;
  head = (p.head + 1) % length p.buf;
  size = p.size - 1;
  strip_idx = p.strip_idx - 1;
  dropped = p.dropped + 1;
}

unfoldable pub drop_newest : PushSink → PushSink
drop_newest p = record p {
  heap = p.heap - payload_heap_bytes (at p (p.size - 1));
  buf = set p.buf (slot p (p.size - 1)) zero_payload;
  size = p.size - 1;
  dropped = p.dropped + 1;
}

-- Each pass strips one entry or removes one, so that twice the live entries are passes enough.
unfoldable pub make_room_loop : ℕ → PushSink → ℕ → ℕ → (PushSink → PushSink) → PushSink
make_room_loop zero p heap n evict = p
make_room_loop (suc fuel) p heap n evict =
    let (q, done) = strip_oldest_hops p in
    let rest = make_room_loop fuel (if done then q else evict q) heap n evict in
    if ltb 0 p.size && not (fits p heap n) then rest else p

unfoldable pub make_room : PushSink → ℕ → ℕ → (PushSink → PushSink) → PushSink
unfolding make_room_loop
make_room p heap n evict = make_room_loop (p.size + p.size) p heap n evict

-- The first `n` entries from a position of the ring.
unfoldable pub read : List CyclePayload → ℕ → ℕ → List CyclePayload
read buf h zero = []
read buf h (suc n) = get_or buf (h % length buf) zero_payload ∷ read buf (h + 1) n

unfoldable pub resize : PushSink → ℕ → PushSink
unfolding read
resize p entries = record p {
  buf = read p.buf p.head p.size ++ replicate (entries - p.size) zero_payload;
  head = 0;
}

unfoldable pub grow_for : PushSink → ℕ → PushSink
unfolding resize
grow_for p n =
    let entries = entries_for (length p.buf) p.size n in
    if nat_beq entries (length p.buf) then p else resize p entries

unfoldable pub shrink_if_idle : PushSink → PushSink
unfolding resize
shrink_if_idle p =
    let entries = double_until (p.size * 2) initial_ring_entries (p.size * 2) in
    if leb (length p.buf) initial_ring_entries
    then p
    else if leb (length p.buf) (p.size * 4)
    then p
    else if ltb entries (length p.buf)
    then resize p entries
    else p

abbrev pub total : PushSink → ℕ
total p = length p.buf * payload_struct_bytes + p.heap

-- One warning that `emit` logs: its key, and the counter that it shows.
pub data Report : Type 0 where
  stripping dropping : ℕ → Report

abbrev pub shed_log_every : ℕ
shed_log_every = 100

-- reportLocked: which warnings are due, by the counters at the last one.
unfoldable pub report : PushSink → PushSink × List Report
report p =
    let strip_due = leb shed_log_every (p.stripped - p.last_strip_log) in
    let drop_due = leb shed_log_every (p.dropped - p.last_drop_log) in
    (
      record p {
        last_strip_log = if strip_due then p.stripped else p.last_strip_log;
        last_drop_log = if drop_due then p.dropped else p.last_drop_log;
      },
      (if strip_due then stripping p.stripped ∷ [] else [])
          ++ (if drop_due then dropping p.dropped ∷ [] else []),
    )

-- A health target's hops are withheld from a master that does not advertise hop markers.
unfoldable pub withhold : PushSink → Cycle → Cycle
withhold p c =
    if is_health_group c.target.group && not p.hop_markers then record c { hops = no_items } else c

-- The part of OnCycle under the lock, before its reports.
unfoldable pub store : PushSink → CyclePayload → PushSink
store p payload =
    let new_heap = payload_heap_bytes payload in
    let q = grow_for (make_room p new_heap 1 drop_oldest) 1 in
    record q {
      buf = set q.buf (slot q q.size) payload;
      size = q.size + 1;
      heap = q.heap + new_heap;
    }

unfoldable pub on_cycle : PushSink → Cycle → PushSink × List Report
unfolding store withhold
on_cycle p c = report (store p (from_cycle (withhold p c)))

-- What Drain puts on the wire for a buffered cycle.
unfoldable pub outgoing : Bool → CyclePayload → CyclePayload
outgoing markers e =
    if not markers && is_health_group e.group then record e { hops = no_items } else e

-- The loop of Drain: copy out, release and clear the entries at offsets `i` to `i + n`.
unfoldable pub drain_loop : ℕ → ℕ → PushSink → PushSink × List CyclePayload
unfolding outgoing
drain_loop zero i p = (p, [])
drain_loop (suc n) i p =
    let e = at p i in
    let (q, out) = drain_loop n (i + 1) (record p {
      heap = p.heap - payload_heap_bytes e;
      buf = set p.buf (slot p i) zero_payload;
    }) in
    (q, outgoing p.hop_markers e ∷ out)

unfoldable pub drain : PushSink → ℕ → PushSink × List CyclePayload
unfolding drain_loop
drain p limit =
    let n = if ltb 0 limit && ltb limit p.size then limit else p.size in
    let (q, out) = drain_loop n 0 p in
    if nat_beq p.size 0 then (p, []) else (
      shrink_if_idle (record q {
        head = (q.head + n) % length q.buf;
        size = q.size - n;
        strip_idx = q.strip_idx - n;
      }),
      out,
    )

unfoldable pub heap_of : List CyclePayload → ℕ
heap_of [] = 0
heap_of (e ∷ es) = payload_heap_bytes e + heap_of es

-- The loop of Requeue walks the batch from its last payload to its first.
unfoldable pub prepend : List CyclePayload → PushSink → PushSink
prepend [] p = p
prepend (e ∷ es) p =
    let q = prepend es p in
    let before = (q.head + length q.buf - 1) % length q.buf in
    record q { head = before; buf = set q.buf before e; size = q.size + 1 }

unfoldable pub requeue_batch : PushSink → List CyclePayload → PushSink
unfolding prepend heap_of
requeue_batch p payloads =
    let q =
      prepend payloads (
        grow_for (make_room p (heap_of payloads) (length payloads) drop_newest)
          (length payloads)) in
    record q { heap = q.heap + heap_of payloads; strip_idx = 0 }

unfoldable pub requeue : PushSink → List CyclePayload → PushSink × List Report
requeue p [] = (p, [])
requeue p (e ∷ es) = report (requeue_batch p (e ∷ es))
