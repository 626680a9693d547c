-- ===== src/Gap/Inv/Steps.antt =====
-- Every critical section keeps the invariant, so any interleaving of them does.
use esp32aging.Base.{
  ℕ, suc, ◌+◌, ◌^◌, ◌≤◌, ◌<◌, ◌≡◌, refl, sym, ◌∙◌, subst, inl, inr, Bool, true, false, not, ◌&&◌,
  ◌||◌, Option, none, some, List, [], ◌∷◌, arith, ltb, leb, ◌==◌, if◌then◌else◌, Bool-cases,
  Option-cases, length, replicate, u32, ℤ, pos, some_inj, if_cases, ltb_ℤ, suc_ℤ, int_max,
}
use mathlib.Core.Path.{subst₂}
use esp32aging.Gap.{Session, Gap, session_slots, gap_find, modify, Warning}
use esp32aging.Gap.Finalize.{pending, gap_finalize}
use esp32aging.Gap.Lifecycle.{
  fresh_session, begin_open, begin_resume, aging_gap_session_close, aging_gap_idle,
  aging_gap_sample_submit, aging_gap_sample_next_id, aging_gap_sample_done, aging_gap_mqtt_ready,
  put_free, bump_token, has_free,
}
use esp32aging.Gap.Inv.{gap_find-AllUsed, IsSound, AllUsed-map, Inv}
use esp32aging.Gap.Inv.Open.{
  AllUsed-put_free, length-put_free, pending-put_free, AreDistinct-put_free, IsFresh-token,
  bump_token-suc,
}
use esp32aging.Gap.Inv.Finalize.{SlotsInv, SlotsInv-modify, gap_finalize-SlotsInv}

-- A critical section of the session interface. Opening and resuming are the two of
-- `aging_gap_session_begin`, between which other tasks may run.
pub data Section : Type 0 where
  opens : List ℕ → List ℕ → Section
  resumes : ℕ → ℤ → Section
  closes idles : Section
  submits : ℕ → Bool → Bool → Section
  numbers : ℕ → Section
  dones : ℕ → Bool → Section
  connects : Bool → Section

unfoldable pub run_section : Gap → Section → Gap
run_section g (opens pn record_id) = elim (begin_open g pn record_id) [ none ↦ g | some h ↦ h ]
run_section g (resumes token seq_no) = (begin_resume g token seq_no).0
run_section g closes = (aging_gap_session_close g).0
run_section g idles = aging_gap_idle g
run_section g (submits token arguments sent) = (aging_gap_sample_submit g token arguments sent).0
run_section g (numbers token) = (aging_gap_sample_next_id g token).0
run_section g (dones token persisted) = (aging_gap_sample_done g token persisted).0
run_section g (connects ready) = aging_gap_mqtt_ready g ready

unfoldable pub run_sections : Gap → List Section → Gap
run_sections g [] = g
run_sections g (o ∷ os) = run_sections (run_section g o) os

-- The state that `aging_gap_init` leaves: all slots cleared by calloc.
abbrev pub empty_session : Session
empty_session = record (fresh_session 0 [] []) { used = false; last_id = pos 0 }

abbrev pub init_gap : Gap
init_gap = record {
  ready = true;
  sessions = replicate session_slots empty_session;
  work = record { token = 0; revision = 0; ids = []; index = 0; missing = 0 };
  next_token = 0;
  current = 0;
  running = false;
  trigger = 0;
  mqtt_ready = false;
}

init_gap-Inv : Inv 0 init_gap
unfolding pending
init_gap-Inv = record {
  slots = refl;
  sound = grind arith;
  distinct = grind arith;
  bounded = omega arith;
  given = omega arith;
}

-- One more operation leaves room for larger counters and tokens.
IsSound-mono : (n m k l : ℕ) → n ≤ m → k ≤ l → (s : Session) → IsSound n k s → IsSound m l s
IsSound-mono n m k l p q s i = record {
  counted = i.counted;
  fits = omega arith;
  token_pos = i.token_pos;
  token_given = omega arith;
  intent_closed = i.intent_closed;
  intent_done = i.intent_done;
}

SlotsInv-mono :
    (n m k l : ℕ) (ss : List Session) → n ≤ m → k ≤ l → SlotsInv n k ss → SlotsInv m l ss
SlotsInv-mono n m k l ss p q h =
    (h.0, AllUsed-map (IsSound n k) (IsSound m l) (IsSound-mono n m k l p q) ss h.1, h.2, h.3)

abbrev slots_inv : {n : ℕ} {g : Gap} → Inv n g → SlotsInv n g.next_token g.sessions
slots_inv v = (v.slots, v.sound, v.distinct, v.bounded)

abbrev to_inv : (n : ℕ) (g : Gap) → SlotsInv n g.next_token g.sessions → g.next_token ≤ n → Inv n g
to_inv n g h k = record { slots = h.0; sound = h.1; distinct = h.2; bounded = h.3; given = k }

-- A write to the slot that was found, which keeps its token and whether it is an intent.
SlotsInv-found :
    (n k t : ℕ) (f : Session → Session) (ss : List Session) (s : Session)
    → gap_find t ss ≡ some s
    → ((x : Session) → (f x).token ≡ x.token)
    → ((x : Session) → (f x).intent ≡ x.intent)
    → IsSound n k (f s)
    → SlotsInv n k ss
    → SlotsInv n k (modify t f ss)
SlotsInv-found n k t f ss s e same_token same_intent sound h =
    SlotsInv-modify n k t f ss same_token same_intent
      (λ x ex _. subst (λ q. IsSound n k (f q)) (some_inj (sym e ∙ ex)) sound) h

module _ (n : ℕ) (g : Gap) (v : Inv n g) where
  later : SlotsInv (suc n) g.next_token g.sessions
  later =
      SlotsInv-mono n (suc n) g.next_token g.next_token g.sessions (omega arith) (omega arith)
        (slots_inv v)

  found : (t : ℕ) (s : Session) → gap_find t g.sessions ≡ some s → IsSound n g.next_token s
  found t s e = (gap_find-AllUsed (IsSound n g.next_token) t g.sessions s v.sound e).0

  -- Another state with the same slots and tokens.
  stays-Inv : (h : Gap) → h.sessions ≡ g.sessions → h.next_token ≡ g.next_token → Inv (suc n) h
  stays-Inv h es et =
      to_inv (suc n) h (subst₂ (λ a b. SlotsInv (suc n) a b) (sym et) (sym es) later)
        (omega (arith, v.given))

  idles-Inv : Inv (suc n) (aging_gap_idle g)
  unfolding aging_gap_idle
  idles-Inv = stays-Inv _ (ground arith) (ground arith)

  connects-Inv : (r : Bool) → Inv (suc n) (aging_gap_mqtt_ready g r)
  unfolding aging_gap_mqtt_ready
  connects-Inv r = stays-Inv _ (ground arith) (ground arith)

  -- New slots, with the same tokens given out.
  writes-Inv :
      (h : Gap)
      → SlotsInv (suc n) g.next_token h.sessions
      → h.next_token ≡ g.next_token
      → Inv (suc n) h
  writes-Inv h hs et =
      to_inv (suc n) h (subst (λ a. SlotsInv (suc n) a h.sessions) (sym et) hs)
        (omega (arith, v.given))

  -- A write to the slot that was found, then `gap_finalize` on some slot.
  finalized-Inv :
      (h : Gap) (t : ℕ)
      → SlotsInv (suc n) g.next_token h.sessions
      → h.next_token ≡ g.next_token
      → Inv (suc n) (gap_finalize h t).0
  finalized-Inv h t hs et =
      let kept = gap_finalize-SlotsInv (suc n) g.next_token t h hs in
      writes-Inv (gap_finalize h t).0 kept.0 (kept.1 ∙ et)

  closes-Inv : Inv (suc n) (aging_gap_session_close g).0
  unfolding aging_gap_session_close
  closes-Inv =
      if_cases (λ (r : Gap × Option Warning). Inv (suc n) r.0) (not g.ready) _ _
        (λ _. stays-Inv g refl refl)
        (λ _. elim (Option-cases (gap_find g.current g.sessions)) [
          | inl e ↦ rw e (stays-Inv _ refl refl)
          | inr (s, e) ↦ rw e (
              finalized-Inv _ s.token
                (SlotsInv-modify (suc n) g.next_token s.token (λ t. record t { closed = true })
                  g.sessions (λ x. refl) (λ x. refl) (λ x _ i. closed-IsSound x i) later)
                refl)
        ])
    where
      closed-IsSound :
          (x : Session)
          → IsSound (suc n) g.next_token x
          → IsSound (suc n) g.next_token (record x { closed = true })
      closed-IsSound x i = ground arith

  numbers-Inv : (t : ℕ) → Inv (suc n) (aging_gap_sample_next_id g t).0
  unfolding aging_gap_sample_next_id
  numbers-Inv t =
      if_cases (λ (r : Gap × ℤ). Inv (suc n) r.0) (not g.ready) _ _ (λ _. stays-Inv g refl refl)
        (λ _. elim (Option-cases (gap_find t g.sessions)) [
          | inl e ↦ rw e (stays-Inv _ refl refl)
          | inr (s, e) ↦ rw e (
              if_cases (λ (r : Gap × ℤ). Inv (suc n) r.0)
                (ltb s.processed s.accepted && ltb_ℤ s.next_id int_max) _ _
                (λ _.
                  writes-Inv _
                    (SlotsInv-modify (suc n) g.next_token t _ g.sessions (λ x. refl) (λ x. refl)
                      (λ x _ i. numbered-IsSound x i) later)
                    refl)
                (λ _. stays-Inv g refl refl))
        ])
    where
      numbered-IsSound :
          (x : Session)
          → IsSound (suc n) g.next_token x
          → IsSound
              (suc n)
              g.next_token
              (record x { next_id = suc_ℤ x.next_id; last_id = x.next_id })
      numbered-IsSound x i = ground arith

  resumes-Inv : (t : ℕ) (z : ℤ) → Inv (suc n) (begin_resume g t z).0
  unfolding begin_resume
  resumes-Inv t z =
      if_cases (λ (r : Gap × Bool). Inv (suc n) r.0) (not g.ready) _ _ (λ _. stays-Inv g refl refl)
        (λ _. elim (Option-cases (gap_find t g.sessions)) [
          | inl e ↦ rw e (stays-Inv _ refl refl)
          | inr (s, e) ↦ rw e (
              if_cases (λ (r : Gap × Bool). Inv (suc n) r.0) (s.closed || not (g.current == t)) _ _
                (λ _. stays-Inv g refl refl)
                (λ _.
                  writes-Inv _
                    (SlotsInv-modify (suc n) g.next_token t _ g.sessions (λ x. refl) (λ x. refl)
                      (λ x _ i. resumed-IsSound x i) later)
                    refl))
        ])
    where
      resumed-IsSound :
          (x : Session)
          → IsSound (suc n) g.next_token x
          → IsSound (suc n) g.next_token (record x {
            last_id = z;
            next_id = if ltb_ℤ z int_max then suc_ℤ z else int_max;
            persisted = 1;
          })
      resumed-IsSound x i = ground arith

  submits-Inv :
      (t : ℕ) (a q : Bool) → suc n < 2 ^ 32 → Inv (suc n) (aging_gap_sample_submit g t a q).0
  unfolding aging_gap_sample_submit
  submits-Inv t a q w =
      if_cases (λ (r : Gap × Bool). Inv (suc n) r.0) (not a || not g.ready) _ _
        (λ _. stays-Inv g refl refl)
        (λ _. elim (Option-cases (gap_find t g.sessions)) [
          | inl e ↦ rw e (stays-Inv _ refl refl)
          | inr (s, e) ↦ rw e (
              if_cases (λ (r : Gap × Bool). Inv (suc n) r.0) (not s.closed && q) _ _
                (λ open_queue.
                  writes-Inv _
                    (SlotsInv-found (suc n) g.next_token t _ g.sessions s e (λ x. refl) (λ x. refl)
                      (accepted-IsSound s open_queue (found t s e)) later)
                    refl)
                (λ _. stays-Inv g refl refl))
        ])
    where
      accepted-IsSound :
          (x : Session)
          → (not x.closed && q) ≡ true
          → IsSound n g.next_token x
          → IsSound (suc n) g.next_token (record x { accepted = u32 (x.accepted + 1) })
      accepted-IsSound x c i = ground arith

  dones-Inv : (t : ℕ) (p : Bool) → suc n < 2 ^ 32 → Inv (suc n) (aging_gap_sample_done g t p).0
  unfolding aging_gap_sample_done
  dones-Inv t p w =
      if_cases (λ (r : Gap × Option Warning). Inv (suc n) r.0) (not g.ready) _ _
        (λ _. stays-Inv g refl refl)
        (λ _. elim (Option-cases (gap_find t g.sessions)) [
          | inl e ↦ rw e (stays-Inv _ refl refl)
          | inr (s, e) ↦ rw e (
              if_cases (λ (r : Gap × Option Warning). Inv (suc n) r.0) (leb s.accepted s.processed)
                _ _ (λ _. stays-Inv g refl refl)
                (λ left.
                  finalized-Inv _ t
                    (SlotsInv-found (suc n) g.next_token t _ g.sessions s e (λ x. refl) (λ x. refl)
                      (processed-IsSound s left (found t s e)) later)
                    refl))
        ])
    where
      processed-IsSound :
          (x : Session)
          → leb x.accepted x.processed ≡ false
          → IsSound n g.next_token x
          → IsSound (suc n) g.next_token (record x {
            processed = u32 (x.processed + 1);
            persisted = if p then u32 (x.persisted + 1) else x.persisted;
          })
      processed-IsSound x c i = ground arith

  opens-Inv :
      (pn record_id : List ℕ) → suc n < 2 ^ 32 → Inv (suc n) (run_section g (opens pn record_id))
  unfolding run_section begin_open
  opens-Inv pn record_id w = elim (Bool-cases (not (g.current == 0))) [
    | inl taken ↦ rw (taken, run_section, begin_open) (stays-Inv g refl refl)
    | inr idle ↦ elim (Bool-cases (has_free g.sessions)) [
      | inl room ↦
          rw (idle, room, run_section, begin_open)
            (to_inv (suc n) opened
              (
                length-put_free new g.sessions ∙ v.slots,
                AllUsed-put_free new (IsSound (suc n) token) g.sessions new-IsSound
                    (SlotsInv-mono n (suc n) g.next_token token g.sessions (omega arith)
                      (omega (arith, given)) (slots_inv v)).1,
                AreDistinct-put_free new g.sessions
                    (IsFresh-token n g.next_token token g.sessions (omega (arith, given)) v.sound)
                    v.distinct,
                omega (arith, pending-put_free new g.sessions refl, v.bounded),
              )
              (omega (arith, given)))
      | inr full ↦ rw (idle, full, run_section, begin_open) (stays-Inv g refl refl)
    ]
  ]
    where
      token : ℕ
      token = bump_token g.next_token

      given : token ≡ suc g.next_token
      given = bump_token-suc g.next_token (omega (arith, v.given))

      new : Session
      new = fresh_session token pn record_id

      opened : Gap
      opened = record g {
        sessions = put_free new g.sessions;
        next_token = token;
        current = token;
        running = true;
      }

      new-IsSound : IsSound (suc n) token new
      new-IsSound = record {
        counted = omega arith;
        fits = omega arith;
        token_pos = omega (arith, given);
        token_given = omega arith;
        intent_closed = λ e. cc;
        intent_done = λ e. refl;
      }

run_section-Inv :
    (n : ℕ) (g : Gap) (o : Section) → suc n < 2 ^ 32 → Inv n g → Inv (suc n) (run_section g o)
unfolding run_section
run_section-Inv n g (opens pn record_id) w v = opens-Inv n g v pn record_id w
run_section-Inv n g (resumes token seq_no) w v = resumes-Inv n g v token seq_no
run_section-Inv n g closes w v = closes-Inv n g v
run_section-Inv n g idles w v = idles-Inv n g v
run_section-Inv n g (submits token arguments sent) w v = submits-Inv n g v token arguments sent w
run_section-Inv n g (numbers token) w v = numbers-Inv n g v token
run_section-Inv n g (dones token persisted) w v = dones-Inv n g v token persisted w
run_section-Inv n g (connects ready) w v = connects-Inv n g v ready

run_sections-Inv :
    (n : ℕ) (g : Gap) (os : List Section)
    → n + length os < 2 ^ 32
    → Inv n g
    → Inv (n + length os) (run_sections g os)
unfolding run_sections
run_sections-Inv n g [] w v = subst (λ k. Inv k g) (omega arith) v
run_sections-Inv n g (o ∷ os) w v =
    subst (λ k. Inv k (run_sections (run_section g o) os)) (omega arith)
      (run_sections-Inv (suc n) (run_section g o) os (omega arith)
        (run_section-Inv n g o (omega arith) v))

-- After any interleaving of fewer than 2^32 critical sections from the initial state: there are
-- 22 slots, at most 16 of which are intents; no two slots in use share a token, and every token is
-- positive and was given out; in each slot in use no more samples are processed than accepted, and
-- an intent belongs to a closed session whose accepted samples are all processed.
pub run_sections-init_Inv :
    (os : List Section) → length os < 2 ^ 32 → Inv (length os) (run_sections init_gap os)
run_sections-init_Inv os w =
    subst (λ k. Inv k (run_sections init_gap os)) (omega arith)
      (run_sections-Inv 0 init_gap os (omega arith) init_gap-Inv)
