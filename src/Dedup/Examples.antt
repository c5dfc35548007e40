-- ===== src/Dedup/Examples.antt =====
-- Runs of the dedup at concrete identities.
use smokeping_go.Common.{◌≡◌, refl, false, [], ◌∷◌, arith, bytes, str_eq}
use smokeping_go.Common.Map
use smokeping_go.Dedup.{CycleId, cycle_id_eq, empty_window, admit_window, trim, intern, offer}
use smokeping_go.Dedup.Invariant.{empty-Inv}
use smokeping_go.Dedup.Retention.{admits, forgets, run, redelivery_refused}

abbrev one : CycleId
one = record { target = bytes "web/one"; nano = 7 }

abbrev two : CycleId
two = record { target = bytes "web/two"; nano = 7 }

redelivery_refused_example :
    (admit_window
      (run
        (admit_window empty_window one.target one.nano).0
        (admits two ∷ forgets two ∷ admits one ∷ []))
      one.target
      one.nano).1
    ≡ false
unfolding admit_window intern trim offer Map.lookup Map.has Map.insert
redelivery_refused_example =
    redelivery_refused empty_window one (admits two ∷ forgets two ∷ admits one ∷ []) empty-Inv
      (omega arith) (omega arith) ((λ p. cc p), ((λ p. ground (arith, p)), ((λ p. cc p), tt))) refl
