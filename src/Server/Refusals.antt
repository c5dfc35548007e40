-- ===== src/Server/Refusals.antt =====
-- internal/cluster/master/server.go: what a refusal leaves behind, and when it is for good.
use smokeping_go.Common.{
  ◌≡◌, ◌≢◌, refl, sym, ◌∙◌, ◌⊎◌, inl, inr, Bool, true, false, not, ◌||◌, leb, length, some, [],
  arith, if_elim, Bool-cases, Option-cases, Str, str_eq, str_beq, Eq,
}
use smokeping_go.Common.Map
use smokeping_go.Cycle.{Cycle}
use smokeping_go.Config.{valid_slave_name}
use smokeping_go.Limits.{max_registered_slaves}
use smokeping_go.Registry.{Registry, Touched, TouchError, touch, admit, check_in, has, is_long}
use smokeping_go.Cluster.Validate.{CycleBatch}
use smokeping_go.Server.{
  Server, DecodeError, RegisterReq, Reply, Headers, World, Platform, refuse_decode,
  name_collides_with_master, touch_reply, handle_register, claimed, handle_batch, handle_cycles,
}

-- An answer that is not 200, of a handler that did not panic.
unfoldable pub refuses : Reply → Bool
refuses Reply.registered = false
refuses (Reply.ingested a d) = false
refuses Reply.aborted = false
refuses _ = true

refuse_decode-refuses : (err : DecodeError) → refuses (refuse_decode err) ≡ true
unfolding refuses refuse_decode
refuse_decode-refuses DecodeError.too_large = refl
refuse_decode-refuses DecodeError.malformed = refl
refuse_decode-refuses DecodeError.unread = refl

module _ {A F : Type 0} ⦃e : Eq A⦄ (platform : Platform A F) (panics : Cycle → Bool) where
  -- The request's body decodes, and names a registered slave.
  unfoldable pub identified : Server A → Headers → DecodeError ⊎ CycleBatch → Bool
  unfolding has
  identified s h (inl err) = false
  identified s h (inr b) = has s.registry (claimed h b).0

  abbrev Refused : Server A → Reply × Server A → Type 0
  Refused s (reply, s') = (refuses reply ≡ true) × (s' ≡ s)

  handle_batch-Refused :
      (w : World A) (remote : Str) (h : Headers) (name version : Str) (b : CycleBatch)
      (s : Server A)
      → has s.registry name ≡ false
      → Refused s (handle_batch platform panics w remote h name version b s)
  unfolding handle_batch refuses
  handle_batch-Refused w remote h name version b s unknown =
      if_elim (Refused s) (not (valid_slave_name name)) _ _ (refl, refl)
        (if_elim (Refused s) (name_collides_with_master w.config name) _ _ (refl, refl)
          (rw unknown (refl, refl)))

  -- A push that does not decode, or whose slave is not registered, is refused and changes nothing: no
  -- name is minted, no window is opened and no cycle is delivered.
  pub handle_cycles-refuses :
      (w : World A) (remote : Str) (h : Headers) (body : DecodeError ⊎ CycleBatch) (s : Server A)
      → identified s h body ≡ false
      → let (reply, s') = handle_cycles platform panics w remote h body s in
        (refuses reply ≡ true) × (s' ≡ s)
  unfolding handle_cycles identified
  handle_cycles-refuses w remote h (inl err) s unknown = (refuse_decode-refuses err, refl)
  handle_cycles-refuses w remote h (inr b) s unknown =
      let (name, version) = claimed h b in handle_batch-Refused w remote h name version b s unknown

  -- An over-long field is an error whatever the registry holds.
  touch_error-long :
      (w : World A) (r : Registry A) (name version remote advertise : Str)
      → str_beq name [] ≡ false
      → (is_long version || is_long advertise) ≡ true
      → (touch platform.parse_advertise platform.observed w.pins w.now r name version remote
          advertise).error
        ≡ some TouchError.slave_field_too_long
  unfolding touch admit check_in
  touch_error-long w r name version remote advertise named long =
      elim (Option-cases (Map.lookup name r.slaves)) [
        | inl new ↦ rw (named, new, long) refl
        | inr (info, known) ↦ rw (named, known, long) refl
      ]

  -- Without one, the registry may be full, or there is no error.
  touch_error-short :
      (w : World A) (r : Registry A) (name version remote advertise : Str)
      → str_beq name [] ≡ false
      → (is_long version || is_long advertise) ≡ false
      → touch_reply
          (touch platform.parse_advertise platform.observed w.pins w.now r name version remote
            advertise).error
        ≢ Reply.permanent
  unfolding touch admit check_in touch_reply
  touch_error-short w r name version remote advertise named short =
      elim (Option-cases (Map.lookup name r.slaves)) [
        | inl new ↦
            rw (named, new, short)
              (if_elim (λ (t : Touched A). touch_reply t.error ≢ Reply.permanent)
                (leb max_registered_slaves (length r.slaves)) _ _ (ground arith) (ground arith))
        | inr (info, known) ↦ rw (named, known, short) (ground arith)
      ]

  abbrev checked : World A → Str → RegisterReq → Server A → Reply
  checked w remote req s =
      touch_reply
        (touch platform.parse_advertise platform.observed w.pins w.now s.registry req.name
          req.version remote req.advertise).error

  collided :
      (w : World A) (remote : Str) (req : RegisterReq) (s : Server A)
      → valid_slave_name req.name ≡ true
      → name_collides_with_master w.config req.name ≡ true
      → (handle_register platform panics w remote (inr req) s).0 ≡ Reply.collision
  unfolding handle_register
  collided w remote req s valid here = rw (valid, here) refl

  touched :
      (w : World A) (remote : Str) (req : RegisterReq) (s : Server A)
      → valid_slave_name req.name ≡ true
      → name_collides_with_master w.config req.name ≡ false
      → (handle_register platform panics w remote (inr req) s).0 ≡ checked w remote req s
  unfolding handle_register
  touched w remote req s valid away = rw (valid, away) refl

  named : (name : Str) → valid_slave_name name ≡ true → str_beq name [] ≡ false
  unfolding valid_slave_name
  named name valid = ground (arith, valid)

  refused_long :
      (w : World A) (remote : Str) (req : RegisterReq) (s : Server A)
      → valid_slave_name req.name ≡ true
      → checked w remote req s ≡ Reply.permanent
      → (is_long req.version || is_long req.advertise) ≡ true
  refused_long w remote req s valid h =
      elim (Bool-cases (is_long req.version || is_long req.advertise)) [
        | inl long ↦ long
        | inr short ↦ absurd (
            touch_error-short w s.registry req.name req.version remote req.advertise
              (named req.name valid) short h)
      ]

  long_refused :
      (w : World A) (remote : Str) (req : RegisterReq) (s : Server A)
      → valid_slave_name req.name ≡ true
      → (is_long req.version || is_long req.advertise) ≡ true
      → checked w remote req s ≡ Reply.permanent
  unfolding touch_reply
  long_refused w remote req s valid long =
      rw
        (touch_error-long w s.registry req.name req.version remote req.advertise
          (named req.name valid) long)
        refl

  -- A valid name with fields that are short enough is not refused for good.
  pub short_accepted :
      (w : World A) (remote : Str) (req : RegisterReq) (s : Server A)
      → valid_slave_name req.name ≡ true
      → (is_long req.version || is_long req.advertise) ≡ false
      → (handle_register platform panics w remote (inr req) s).0 ≢ Reply.permanent
  short_accepted w remote req s valid short h =
      elim (Bool-cases (name_collides_with_master w.config req.name)) [
        | inl here ↦ apart (sym (collided w remote req s valid here) ∙ h)
        | inr away ↦
            touch_error-short w s.registry req.name req.version remote req.advertise
              (named req.name valid) short (sym (touched w remote req s valid away) ∙ h)
      ]
    where
      apart : Reply.collision ≢ Reply.permanent
      apart f = ground arith

  -- A registration that was refused for good is never accepted, whatever the registry holds and
  -- whatever the configuration says by then.
  pub permanent_refusal_stands :
      (w w' : World A) (remote remote' : Str) (body : DecodeError ⊎ RegisterReq) (s s' : Server A)
      → (handle_register platform panics w remote body s).0 ≡ Reply.permanent
      → ((handle_register platform panics w' remote' body s').0 ≡ Reply.permanent)
        ⊎ ((handle_register platform panics w' remote' body s').0 ≡ Reply.collision)
  unfolding handle_register
  permanent_refusal_stands w w' remote remote' (inl err) s s' h = inl h
  permanent_refusal_stands w w' remote remote' (inr req) s s' h =
      elim (Bool-cases (valid_slave_name req.name)) [
        | inl valid ↦ elim (Bool-cases (name_collides_with_master w.config req.name)) [
          | inl here ↦ absurd (apart (sym (collided w remote req s valid here) ∙ h))
          | inr away ↦ elim (Bool-cases (name_collides_with_master w'.config req.name)) [
            | inl there ↦ inr (collided w' remote' req s' valid there)
            | inr gone ↦ inl (
                touched w' remote' req s' valid gone
                ∙ long_refused w' remote' req s' valid (
                    refused_long w remote req s valid
                      (sym (touched w remote req s valid away) ∙ h)))
          ]
        ]
        | inr bad ↦ rw bad (inl refl)
      ]
    where
      apart : Reply.collision ≢ Reply.permanent
      apart f = ground arith
