-- ===== src/Server/Runs.antt =====
-- internal/cluster/master: the requests and sweeps that a server sees, in any order.
use smokeping_go.Common.{ℕ, ◌⊎◌, Bool, List, [], ◌∷◌, arith, if_elim, not, str_beq, Str, str_eq, Eq}
use smokeping_go.Common.Map
use smokeping_go.Cycle.{Cycle}
use smokeping_go.Cluster.Validate.{CycleBatch}
use smokeping_go.Server.{
  Server, DecodeError, RegisterReq, Headers, World, Platform, new_server, handle_register,
  handle_cycles, sweep_slaves,
}
use smokeping_go.Server.Coupling.{
  Coupled, handle_register-Coupled, handle_cycles-Coupled, touch-Coupled,
}
use smokeping_go.Config.{valid_slave_name}
use smokeping_go.Server.Serving.{ClusterConfigResp, ConfigReply, handle_config}
use smokeping_go.Server.Leaving.{sweep_slaves-Coupled}

pub data Event (A : Type 0) : Type 0 where
  registering : World A → Str → DecodeError ⊎ RegisterReq → Event A
  pushing : World A → Str → Headers → DecodeError ⊎ CycleBatch → Event A
  fetching : World A → Str → Headers → Str → Event A
  sweeping : ℕ → ℕ → Event A

module _ {A F : Type 0} ⦃e : Eq A⦄ (platform : Platform A F) (panics : Cycle → Bool)
    (etag : ClusterConfigResp → Str) where
  unfoldable pub step : Server A → Event A → Server A
  unfolding handle_register handle_cycles handle_config sweep_slaves
  step s (registering w remote body) = (handle_register platform panics w remote body s).1
  step s (pushing w remote h body) = (handle_cycles platform panics w remote h body s).1
  step s (fetching w remote h tag) = (handle_config platform etag w remote h tag s).1
  step s (sweeping now age) = sweep_slaves now age s

  unfoldable pub run : Server A → List (Event A) → Server A
  unfolding step
  run s [] = s
  run s (x ∷ xs) = run (step s x) xs

  handle_config-Coupled :
      (w : World A) (remote : Str) (h : Headers) (tag : Str) (s : Server A)
      → Coupled s
      → Coupled (handle_config platform etag w remote h tag s).1
  unfolding handle_config
  handle_config-Coupled w remote h tag s c =
      if_elim (λ (t : ConfigReply × Server A). Coupled t.1) (str_beq h.slave_name []) _ _ c
        (if_elim (λ (t : ConfigReply × Server A). Coupled t.1) (not (valid_slave_name h.slave_name))
          _ _ c
          (touch-Coupled platform panics w s h.slave_name h.slave_version remote h.advertise c))

  step-Coupled : (s : Server A) (x : Event A) → Coupled s → Coupled (step s x)
  unfolding step
  step-Coupled s (registering w remote body) c =
      handle_register-Coupled platform panics w remote body s c
  step-Coupled s (pushing w remote h body) c =
      handle_cycles-Coupled platform panics w remote h body s c
  step-Coupled s (fetching w remote h tag) c = handle_config-Coupled w remote h tag s c
  step-Coupled s (sweeping now age) c = sweep_slaves-Coupled now age s c

  run-Coupled : (xs : List (Event A)) (s : Server A) → Coupled s → Coupled (run s xs)
  unfolding run
  run-Coupled [] s c = c
  run-Coupled (x ∷ xs) s c = run-Coupled xs (step s x) (step-Coupled s x c)

  new_server-Coupled : Coupled (new_server platform panics)
  unfolding Map.has
  new_server-Coupled = record { ceiling = omega arith; owned = λ n h. absurd (ground (arith, h)) }

  -- Whatever requests and sweeps a server has seen, at most 512 slaves are registered, and every dedup
  -- window belongs to one of them.
  pub reachable-Coupled : (xs : List (Event A)) → Coupled (run (new_server platform panics) xs)
  reachable-Coupled xs = run-Coupled xs (new_server platform panics) new_server-Coupled
