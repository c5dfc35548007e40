-- ===== src/Fingerprint/Groups.antt =====
-- internal/scheduler/fingerprint.go: the text of the groups tells them apart, but for their titles.
use smokeping_go.Common.{
  ◌≡◌, ◌≢◌, refl, sym, ap, ap₂, ◌∙◌, List, [], ◌∷◌, ◌++◌, append_assoc, map, arith, Str,
}
use smokeping_go.Cycle.{Target}
use smokeping_go.SlaveHealth.Snapshot.{Group}
use smokeping_go.Fingerprint.{
  escape_separators, sep_field, sep_list, sep_entry, sep_block, field, fields, target_fields,
  targets_text, groups_text,
}
use smokeping_go.Fingerprint.Segments.{
  field_injective, field_apart, fields_injective, fields_as_many,
}

-- What the scheduler reads of a target and of a group: all but the titles.
abbrev pub untitled : Target → Target
untitled t = record t { title = [] }

abbrev pub untitled_group : Group → Group
untitled_group g = record { group = g.group; title = []; targets = map untitled g.targets }

pub head_same :
    (x y : Str) (xs ys : List Str) → ◌≡◌ {A = List Str} (x ∷ xs) (y ∷ ys) → (x ≡ y) × (xs ≡ ys)
head_same x y xs ys h = (cc, cc)

same_target :
    (t u : Target)
    → target_fields t ≡ target_fields u
    → t.alerts ≡ u.alerts
    → t.slaves ≡ u.slaves
    → untitled t ≡ untitled u
same_target t u f a s =
    let (n, f1) = head_same _ _ _ _ f in
    let (p, f2) = head_same _ _ _ _ f1 in
    let (h, f3) = head_same _ _ _ _ f2 in
    let (l, f4) = head_same _ _ _ _ f3 in
    let (m, _) = head_same _ _ _ _ f4 in rw (n, p, h, l, m, a, s) refl

pub not_field : sep_field ≢ sep_block
not_field e = ground (arith, e)

not_list : sep_field ≢ sep_list
not_list e = ground (arith, e)

not_entry : sep_field ≢ sep_entry
not_entry e = ground (arith, e)

targets_injective :
    (ts us : List Target) (r r' : Str)
    → targets_text ts (sep_block ∷ r) ≡ targets_text us (sep_block ∷ r')
    → (map untitled ts ≡ map untitled us) × (r ≡ r')
unfolding targets_text fields
targets_injective [] [] r r' h = (refl, cc)
targets_injective [] (u ∷ us) r r' h =
    absurd (field_apart u.name sep_block _ r refl not_field (sym h))
targets_injective (t ∷ ts) [] r r' h = absurd (field_apart t.name sep_block _ r' refl not_field h)
targets_injective (t ∷ ts) (u ∷ us) r r' h =
    let (own, after) = fields_as_many (target_fields t) (target_fields u) _ _ refl h in
    let (slaves, after') = fields_injective t.slaves u.slaves sep_list _ _ refl not_list after in
    let (alerts, rest) = fields_injective t.alerts u.alerts sep_entry _ _ refl not_entry after' in
    let (more, tail) = targets_injective ts us r r' rest in
    (ap₂ ◌∷◌ (same_target t u own alerts slaves) more, tail)

-- The groups before what follows them.
abbrev pub groups_before : List Group → Str → Str
groups_before gs rest = groups_text gs ++ sep_block ∷ rest

pub field-append : (s x t : Str) → field s x ++ t ≡ field s (x ++ t)
unfolding field
field-append s x t = append_assoc (escape_separators s) (sep_field ∷ x) t

pub fields-append : (ss : List Str) (x t : Str) → fields ss x ++ t ≡ fields ss (x ++ t)
unfolding fields
fields-append [] x t = refl
fields-append (s ∷ ss) x t = field-append s (fields ss x) t ∙ ap (field s) (fields-append ss x t)

targets_text-append :
    (ts : List Target) (x t : Str) → targets_text ts x ++ t ≡ targets_text ts (x ++ t)
unfolding targets_text
targets_text-append [] x t = refl
targets_text-append (u ∷ ts) x t =
    fields-append (target_fields u) _ t
    ∙ ap (fields (target_fields u)) (
        fields-append u.slaves _ t
        ∙ ap (λ y. fields u.slaves (sep_list ∷ y))
            (fields-append u.alerts _ t
              ∙ ap (λ y. fields u.alerts (sep_entry ∷ y)) (targets_text-append ts x t)))

pub groups_before-cons :
    (g : Group) (gs : List Group) (r : Str)
    → groups_before (g ∷ gs) r
      ≡ field g.group (targets_text g.targets (sep_block ∷ groups_before gs r))
unfolding groups_text
groups_before-cons g gs r =
    field-append g.group _ (sep_block ∷ r)
    ∙ ap (field g.group)
        (targets_text-append g.targets (sep_block ∷ groups_text gs) (sep_block ∷ r))

pub groups_injective :
    (gs hs : List Group) (r r' : Str)
    → groups_before gs r ≡ groups_before hs r'
    → (map untitled_group gs ≡ map untitled_group hs) × (r ≡ r')
unfolding groups_text
groups_injective [] [] r r' h = (refl, cc)
groups_injective [] (g ∷ hs) r r' h =
    absurd
      (field_apart g.group sep_block _ r refl not_field (sym (groups_before-cons g hs r') ∙ sym h))
groups_injective (g ∷ gs) [] r r' h =
    absurd (field_apart g.group sep_block _ r' refl not_field (sym (groups_before-cons g gs r) ∙ h))
groups_injective (g ∷ gs) (k ∷ hs) r r' h =
    let (names, after) =
      field_injective g.group k.group _ _
        (sym (groups_before-cons g gs r) ∙ h ∙ groups_before-cons k hs r') in
    let (targets, rest) = targets_injective g.targets k.targets _ _ after in
    let (more, tail) = groups_injective gs hs r r' rest in
    (
      ap₂ ◌∷◌ (ap₂ (λ n ts. record { group = n; title = []; targets = ts }) names targets) more,
      tail,
    )

targets_text-untitled :
    (ts : List Target) (r : Str) → targets_text (map untitled ts) r ≡ targets_text ts r
unfolding targets_text
targets_text-untitled [] r = refl
targets_text-untitled (t ∷ ts) r =
    ap
      (λ x. fields (target_fields t) (fields t.slaves (sep_list ∷ fields t.alerts (sep_entry ∷ x))))
      (targets_text-untitled ts r)

pub groups_text_untitled : (gs : List Group) → groups_text (map untitled_group gs) ≡ groups_text gs
unfolding groups_text
groups_text_untitled [] = refl
groups_text_untitled (g ∷ gs) = ap (field g.group) (
    targets_text-untitled g.targets _
    ∙ ap (λ x. targets_text g.targets (sep_block ∷ x)) (groups_text_untitled gs))
