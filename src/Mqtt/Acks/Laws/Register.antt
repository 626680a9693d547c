-- ===== src/Mqtt/Acks/Laws/Register.antt =====
-- The answers that come while the SDK is still sending are found again under the number that it
-- returns.
use esp32aging.Base.{
  ℕ, ◌+◌, ◌*◌, ◌/◌, ◌%◌, ◌^◌, ◌<◌, bit_or, ◌≡◌, refl, sym, ap, ap₂, ◌∙◌, subst, ◌≢◌, Bool, true,
  false, not, ◌&&◌, ◌||◌, List, [], ◌∷◌, arith, ◌==◌, if◌then◌else◌, u8, ℤ, pos, negsuc, bit_and_3,
}
use esp32aging.Mqtt.{EventAck}
use esp32aging.Mqtt.Acks.{
  Ack, published, deleted, ack_flag, in_range, id_of, eq_ℤ, mark, marked, mqtt_event_ack_event,
  mqtt_event_ack_begin, mqtt_event_ack_register,
}
use esp32aging.Mqtt.Acks.Laws.{raised, AllBytes, marked-mark_self, marked-mark_other, mark-AllBytes}

-- An answer of the SDK's event: whether its client is the current one, the client's generation, the
-- number and the kind.
pub record Answer : Type 0 where
  pub same_client : Bool
  pub client_generation : ℕ
  pub msg_id : ℤ
  pub ack : Ack

abbrev pub handled : List Answer → EventAck → EventAck
handled [] a = a
handled (e ∷ es) a =
    handled es (mqtt_event_ack_event e.same_client e.client_generation e.msg_id e.ack a)

abbrev pub is_ack : Ack → Ack → Bool
is_ack published published = true
is_ack published deleted = false
is_ack deleted published = false
is_ack deleted deleted = true

-- The answer is of this kind, for the message `id` of the client `generation`.
abbrev pub is_for : ℕ → ℕ → Answer → Ack → Bool
is_for generation id e ack =
    (e.same_client && (generation == e.client_generation))
    && (eq_ℤ e.msg_id (pos id) && is_ack e.ack ack)

-- Some answer of this kind is for the message `id` of the client `generation`.
abbrev pub answered : Ack → ℕ → ℕ → List Answer → Bool
answered ack generation id [] = false
answered ack generation id (e ∷ es) = is_for generation id e ack || answered ack generation id es

abbrev pub bit : Bool → ℕ
bit true = 1
bit false = 0

-- While answers are captured: the table says which have come.
record Captured (generation id : ℕ) (p d : Bool) (a : EventAck) : Type 0 where
  capturing : a.capture ≡ true
  current : a.generation ≡ generation
  all_bytes : AllBytes a.early_acks
  came : marked a.early_acks id ≡ bit p + 2 * bit d

or_false : (p : Bool) → (p || false) ≡ p
or_false true = refl
or_false false = refl

or_assoc : (p q r : Bool) → ((p || q) || r) ≡ (p || (q || r))
or_assoc true q r = refl
or_assoc false q r = refl

recast :
    (generation id : ℕ) (p d p' d' : Bool) (a : EventAck)
    → p ≡ p'
    → d ≡ d'
    → Captured generation id p d a
    → Captured generation id p' d' a
recast generation id p d p' d' a e1 e2 c =
    subst (λ q. Captured generation id q d' a) e1 (subst (λ q. Captured generation id p q a) e2 c)

raised-bit :
    (k : Ack) (p d : Bool)
    → raised k (bit p + 2 * bit d) ≡ bit (p || is_ack k published) + 2 * bit (d || is_ack k deleted)
raised-bit published true true = refl
raised-bit published true false = refl
raised-bit published false true = refl
raised-bit published false false = refl
raised-bit deleted true true = refl
raised-bit deleted true false = refl
raised-bit deleted false true = refl
raised-bit deleted false false = refl

module _ (generation id : ℕ) (positive : 0 < id) (word : id < 2 ^ 16) (p d : Bool) (a : EventAck)
    (c : Captured generation id p d a) where
  abbrev Next : (Ack → Bool) → EventAck → Type 0
  Next hit a' = Captured generation id (p || hit published) (d || hit deleted) a'

  unhit : (hit : Ack → Bool) → hit published ≡ false → hit deleted ≡ false → Next hit a
  unhit hit e1 e2 =
      recast generation id p d (p || hit published) (d || hit deleted) a
        (sym (or_false p) ∙ ap (λ q. p || q) (sym e1))
        (sym (or_false d) ∙ ap (λ q. d || q) (sym e2)) c

  module _ (e : Answer) where
    out_of_range : (m : ℤ) → in_range m ≡ false → eq_ℤ m (pos id) ≡ false
    out_of_range (pos n) h = ground arith
    out_of_range (negsuc n) h = refl

    same_id : (m : ℤ) → eq_ℤ m (pos id) ≡ true → id_of m ≡ id
    same_id (pos n) q = ground arith
    same_id (negsuc n) q = cc

    other_id : (m : ℤ) → in_range m ≡ true → eq_ℤ m (pos id) ≡ false → id_of m ≢ id
    other_id (pos n) h q e' = ground arith
    other_id (negsuc n) h q e' = cc

    fresh : Bool
    fresh = e.same_client && (generation == e.client_generation)

    is_for-eq :
        (x y : Bool) (k : Ack)
        → fresh ≡ x
        → eq_ℤ e.msg_id (pos id) ≡ y
        → is_for generation id e k ≡ (x && (y && is_ack e.ack k))
    unfolding fresh
    is_for-eq x y k e1 e2 = ap₂ (λ u v. u && (v && is_ack e.ack k)) e1 e2

    and_false : (x : Bool) → (x && false) ≡ false
    and_false true = refl
    and_false false = refl

    stored : EventAck
    stored = record a {
      early_acks =
          if a.capture then mark a.early_acks (id_of e.msg_id) (ack_flag e.ack) else a.early_acks;
      flags = if eq_ℤ e.msg_id a.msg_id then u8 (bit_or a.flags (ack_flag e.ack)) else a.flags;
    }

    stored-early_acks : stored.early_acks ≡ mark a.early_acks (id_of e.msg_id) (ack_flag e.ack)
    unfolding stored
    stored-early_acks =
        ap (λ b. if b then mark a.early_acks (id_of e.msg_id) (ack_flag e.ack) else a.early_acks)
          c.capturing

    stored-Captured : in_range e.msg_id ≡ true → fresh ≡ true → Next (is_for generation id e) stored
    unfolding stored
    stored-Captured r f = record {
      capturing = c.capturing;
      current = c.current;
      all_bytes =
          subst AllBytes (sym stored-early_acks)
            (mark-AllBytes a.early_acks (id_of e.msg_id) e.ack c.all_bytes);
      came =
          ap (λ table. marked table id) stored-early_acks ∙ marking (eq_ℤ e.msg_id (pos id)) refl;
    }
      where
        total : Bool → Bool → ℕ
        total x y = bit (p || x) + 2 * bit (d || y)

        told :
            (y : Bool)
            → eq_ℤ e.msg_id (pos id) ≡ y
            → total (y && is_ack e.ack published) (y && is_ack e.ack deleted)
              ≡ total (is_for generation id e published) (is_for generation id e deleted)
        told y q =
            ap₂ total (sym (is_for-eq true y published f q)) (sym (is_for-eq true y deleted f q))

        marking :
            (y : Bool)
            → eq_ℤ e.msg_id (pos id) ≡ y
            → marked (mark a.early_acks (id_of e.msg_id) (ack_flag e.ack)) id
              ≡ total (is_for generation id e published) (is_for generation id e deleted)
        marking true q =
            ap (λ (n : ℕ). marked (mark a.early_acks n (ack_flag e.ack)) id) (same_id e.msg_id q)
            ∙ marked-mark_self a.early_acks id e.ack c.all_bytes
            ∙ ap (raised e.ack) c.came
            ∙ raised-bit e.ack p d
            ∙ told true q
        marking false q =
            marked-mark_other a.early_acks id e.ack c.all_bytes (id_of e.msg_id)
              (other_id e.msg_id r q)
            ∙ c.came
            ∙ ap₂ (λ x y. bit x + 2 * bit y) (sym (or_false p)) (sym (or_false d))
            ∙ told false q

    split :
        (r g : Bool)
        → in_range e.msg_id ≡ r
        → fresh ≡ g
        → Next (is_for generation id e) (if not r then a else if not g then a else stored)
    split false g h f =
        unhit (is_for generation id e)
          (is_for-eq g false published f (out_of_range e.msg_id h) ∙ and_false g)
          (is_for-eq g false deleted f (out_of_range e.msg_id h) ∙ and_false g)
    split true false h f =
        unhit (is_for generation id e) (is_for-eq false _ published f refl)
          (is_for-eq false _ deleted f refl)
    split true true h f = stored-Captured h f

    ack_event-Captured :
        Next
          (is_for generation id e)
          (mqtt_event_ack_event e.same_client e.client_generation e.msg_id e.ack a)
    unfolding mqtt_event_ack_event stored fresh
    ack_event-Captured =
        split (in_range e.msg_id) (e.same_client && (a.generation == e.client_generation)) refl
          (ap (λ (g : ℕ). e.same_client && (g == e.client_generation)) (sym c.current))

handled-Captured :
    (generation id : ℕ) (es : List Answer) (a : EventAck) (p d : Bool)
    → 0 < id
    → id < 2 ^ 16
    → Captured generation id p d a
    → Captured generation id
        (p || answered published generation id es)
        (d || answered deleted generation id es)
        (handled es a)
handled-Captured generation id [] a p d h w c =
    recast generation id p d (p || false) (d || false) a (sym (or_false p)) (sym (or_false d)) c
handled-Captured generation id (e ∷ es) a p d h w c =
    recast generation id _ _ _ _ (handled es a') (or_assoc p _ _) (or_assoc d _ _) (
      handled-Captured generation id es a' (p || is_for generation id e published)
        (d || is_for generation id e deleted) h w (ack_event-Captured generation id h w p d a c e))
  where
    a' : EventAck
    a' = mqtt_event_ack_event e.same_client e.client_generation e.msg_id e.ack a

-- Whatever answers come, and in whatever order, while the SDK sends a message: when it returns the
-- number of the message, the flags say exactly whether the broker has taken this message and
-- whether the SDK has given it up. Answers to other messages or of an older client do not count.
pub register-answered :
    (generation id : ℕ) (es : List Answer) (a : EventAck)
    → 0 < id
    → id < 2 ^ 16
    → (mqtt_event_ack_register (pos id) (handled es (mqtt_event_ack_begin generation a))).flags
      ≡ bit (answered published generation id es) + 2 * bit (answered deleted generation id es)
unfolding mqtt_event_ack_register mqtt_event_ack_begin marked
register-answered generation id es a h w =
    ap (λ b. if b then marked after.early_acks id else 0) in_table ∙ captured.came
  where
    after : EventAck
    after = handled es (mqtt_event_ack_begin generation a)

    in_table : in_range (pos id) ≡ true
    in_table = ground arith

    captured :
        Captured generation id
          (answered published generation id es)
          (answered deleted generation id es)
          after
    captured =
        handled-Captured generation id es (mqtt_event_ack_begin generation a) false false h w
          (record {
            capturing = refl;
            current = refl;
            all_bytes = λ i. omega arith;
            came = omega (arith, bit_and_3 (0 / 2 ^ (id % 4 * 2)));
          })
