-- ===== src/Alert/Window.antt =====
-- internal/alert/evaluator.go: the time windows that the evaluator derives from the interval. Times are
-- nanoseconds since Go's zero time, and `now.Sub(t) > w` is read as `w < now - t`, which agrees with it
-- for every window: a time ahead of `now` has no age.
use smokeping_go.Common.{ℕ, ◌-◌, ◌*◌, ◌≤◌, Bool, arith, max, ltb, nat_beq, if◌then◌else◌}
use smokeping_go.Limits.{minute, max_future_skew, max_probe_interval}

unfoldable pub staleness_window : ℕ → ℕ
staleness_window interval = 3 * (if nat_beq interval 0 then minute else interval)

unfoldable pub alert_freshness : ℕ → ℕ
unfolding staleness_window
alert_freshness interval = max (staleness_window interval) max_future_skew

unfoldable pub liveness_window : ℕ → ℕ
unfolding alert_freshness
liveness_window interval = alert_freshness interval

unfoldable pub alert_identity_retention : ℕ
unfolding alert_freshness
alert_identity_retention = alert_freshness max_probe_interval

-- `now.Sub(t) > window`
abbrev pub older : ℕ → ℕ → ℕ → Bool
older window now t = ltb window (now - t)

-- No interval that the config accepts has a freshness window above the retention of identities.
pub freshness-le-retention :
    (interval : ℕ)
    → interval ≤ max_probe_interval
    → alert_freshness interval ≤ alert_identity_retention
unfolding alert_freshness alert_identity_retention
freshness-le-retention interval h = ground arith

-- The windows are never tighter than the warm-up horizon, nor than the skew that ingest tolerates.
pub liveness_window-ge :
    (interval : ℕ)
    → (staleness_window interval ≤ liveness_window interval)
      × (max_future_skew ≤ liveness_window interval)
unfolding liveness_window staleness_window
liveness_window-ge interval = ground arith
