-- ===== src/Fingerprint/Examples.antt =====
-- Fingerprints of concrete configurations and meshes.
use smokeping_go.Common.{
  Bool, true, false, ℕ, zero, suc, ◌≡◌, ◌↔◌, refl, sym, ap, ◌∙◌, ℤ, pos, negsuc, Option, none, some,
  [], ◌∷◌, arith, Str, bytes, length, replicate, length-replicate,
}
use smokeping_go.SlaveHealth.Snapshot.{Snapshot}
use smokeping_go.Server.Examples.{config}
use smokeping_go.Fingerprint.{fingerprint}
use smokeping_go.Fingerprint.Segments.{Clean}
use smokeping_go.Fingerprint.Mesh.{AddrText}
use smokeping_go.Fingerprint.Lifecycle.{
  Lifecycle, Wakeup, full_fingerprint, begin, on_wakeup, run_lifecycle, restarts_iff,
  wakeup_catches_up,
}
use smokeping_go.Fingerprint.Schedule.{NumberText, SameSchedule, fingerprint_iff}

-- A number as so many strokes.
abbrev strokes : ℕ → Str
strokes n = replicate n b'x'

strokes_apart : (m n : ℕ) → strokes m ≡ strokes n → m ≡ n
strokes_apart m n h = sym (length-replicate m b'x') ∙ ap length h ∙ length-replicate n b'x'

strokes-Clean : (n : ℕ) → Clean (strokes n)
strokes-Clean zero = tt
strokes-Clean (suc n) = (refl, strokes-Clean n)

abbrev signed : ℤ → Str
signed (pos n) = b'+' ∷ strokes n
signed (negsuc n) = b'-' ∷ strokes n

signed_apart : (a b : ℤ) → signed a ≡ signed b → a ≡ b
signed_apart (pos m) (pos n) h = let e : strokes m ≡ strokes n = cc in ap pos (strokes_apart m n e)
signed_apart (pos m) (negsuc n) h = let e : ◌≡◌ {A = ℕ} b'+' b'-' = cc in absurd (ground (arith, e))
signed_apart (negsuc m) (pos n) h = let e : ◌≡◌ {A = ℕ} b'-' b'+' = cc in absurd (ground (arith, e))
signed_apart (negsuc m) (negsuc n) h =
    let e : strokes m ≡ strokes n = cc in ap negsuc (strokes_apart m n e)

signed-Clean : (a : ℤ) → Clean (signed a)
signed-Clean (pos n) = (refl, strokes-Clean n)
signed-Clean (negsuc n) = (refl, strokes-Clean n)

signed-NumberText : NumberText signed signed
signed-NumberText = record {
  durations_apart = signed_apart;
  numbers_apart = signed_apart;
  duration_clean = signed-Clean;
  number_clean = signed-Clean;
}

fingerprint_iff_example :
    (fingerprint signed signed config
      ≡ fingerprint signed signed (record config { listen = bytes ":80" }))
    ↔ SameSchedule signed signed config (record config { listen = bytes ":80" })
fingerprint_iff_example =
    fingerprint_iff signed signed config (record config { listen = bytes ":80" }) signed-NumberText

abbrev addr_text : Option ℕ → Str
addr_text none = []
addr_text (some a) = b'a' ∷ strokes a

addr_text_apart : (a b : Option ℕ) → addr_text a ≡ addr_text b → a ≡ b
addr_text_apart none none h = refl
addr_text_apart none (some b) h = absurd (cc)
addr_text_apart (some a) none h = absurd (cc)
addr_text_apart (some a) (some b) h =
    let e : strokes a ≡ strokes b = cc in ap some (strokes_apart a b e)

addr_text-Clean : (a : Option ℕ) → Clean (addr_text a)
addr_text-Clean none = tt
addr_text-Clean (some a) = (refl, strokes-Clean a)

addr_text-AddrText : AddrText addr_text
addr_text-AddrText = record { tells_apart = addr_text_apart; clean = addr_text-Clean }

abbrev a_mesh : Snapshot ℕ
a_mesh = record {
  peers =
      record { name = bytes "a"; addr = some 4 } ∷ record { name = bytes "b"; addr = some 5 } ∷ [];
  alerts = bytes "down" ∷ [];
}

abbrev waking : Bool → Wakeup ℕ
waking ok = record { config = config; mesh = a_mesh; builds = ok }

-- A slave joined.
abbrev grown : Wakeup ℕ
grown = record {
  config = config;
  mesh = record a_mesh { peers = record { name = bytes "c"; addr = some 6 } ∷ a_mesh.peers };
  builds = true;
}

abbrev begun : Lifecycle
begun = record {
  running = config;
  fp = full_fingerprint signed signed addr_text config a_mesh;
  reloaded = [];
  rebuilt = [];
}

restarts_iff_example :
    ((on_wakeup signed signed addr_text grown begun).rebuilt ≡ [])
    ↔ (SameSchedule signed signed config config × (grown.mesh ≡ a_mesh))
restarts_iff_example =
    restarts_iff signed signed addr_text grown begun a_mesh signed-NumberText addr_text-AddrText
      refl refl

starts : begin signed signed addr_text (waking true) ≡ some begun
unfolding begin
starts = refl

wakeup_catches_up_example :
    let now =
      on_wakeup signed signed addr_text grown
        (run_lifecycle signed signed addr_text (waking false ∷ []) begun) in
    SameSchedule signed signed config now.running
    × (now.fp ≡ full_fingerprint signed signed addr_text config grown.mesh)
wakeup_catches_up_example =
    wakeup_catches_up signed signed addr_text (waking true) grown (waking false ∷ []) begun
      signed-NumberText addr_text-AddrText starts refl
