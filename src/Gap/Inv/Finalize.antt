-- ===== src/Gap/Inv/Finalize.antt =====
-- `gap_finalize` keeps the invariant.
use esp32aging.Base.{
  ℕ, ◌+◌, ◌≤◌, ◌<◌, ◌≡◌, refl, sym, ap, ◌∙◌, subst, ◌≢◌, inl, inr, true, not, ◌||◌, some, List, [],
  ◌∷◌, arith, leb, ◌==◌, Bool-cases, Option-cases, length, u32, pos, ltb_ℤ, is_empty, some_inj,
}
use esp32aging.Gap.{Session, Gap, gap_find, modify, session_slots, pending_max}
use esp32aging.Gap.Finalize.{
  release, merged, same_intent, merge_into, pending, finalize_slots, gap_finalize, has_intent,
}
use esp32aging.Gap.Inv.{
  IsSound, AllUsed, AreDistinct, AllUsed-modify, length-modify, AreDistinct-modify, pending-modify,
  pending-modify-suc, gap_find-AllUsed,
}

AllUsed-merge_into :
    (P : Session → Type 0) (s : Session) (ss : List Session)
    → ((old : Session) → P old → P (merged s old))
    → AllUsed P ss
    → AllUsed P (merge_into s ss)
unfolding merge_into
AllUsed-merge_into P s [] keep h = tt
AllUsed-merge_into P s (old ∷ ss) keep h = elim (Bool-cases (same_intent s old)) [
  | inl hit ↦ rw hit (λ u. keep old (h.0 u), h.1)
  | inr miss ↦ rw miss (h.0, AllUsed-merge_into P s ss keep h.1)
]

length-merge_into : (s : Session) (ss : List Session) → length (merge_into s ss) ≡ length ss
unfolding merge_into
length-merge_into s [] = refl
length-merge_into s (old ∷ ss) = ground (arith, length-merge_into s ss)

pending-merge_into : (s : Session) (ss : List Session) → pending (merge_into s ss) ≡ pending ss
unfolding merge_into pending
pending-merge_into s [] = refl
pending-merge_into s (old ∷ ss) = ground (arith, pending-merge_into s ss)

AreDistinct-merge_into :
    (s : Session) (ss : List Session) → AreDistinct ss → AreDistinct (merge_into s ss)
unfolding merge_into
AreDistinct-merge_into s [] h = tt
AreDistinct-merge_into s (old ∷ ss) h = elim (Bool-cases (same_intent s old)) [
  | inl hit ↦ rw hit h
  | inr miss ↦ rw miss (
    λ u. AllUsed-merge_into (λ k. k.token ≢ old.token) s ss (λ k ne. ne) (h.0 u),
    AreDistinct-merge_into s ss h.1,
  )
]

-- The invariant as far as it speaks of the slots.
abbrev pub SlotsInv : ℕ → ℕ → List Session → Type 0
SlotsInv n k ss =
    (length ss ≡ session_slots)
    × AllUsed (IsSound n k) ss
    × AreDistinct ss
    × (pending ss ≤ pending_max)

module _ (n k t : ℕ) (ss : List Session) (h : SlotsInv n k ss) where
  SlotsInv-release : SlotsInv n k (modify t release ss)
  SlotsInv-release = (
    length-modify t release ss ∙ h.0,
    AllUsed-modify (IsSound n k) t release ss (λ s _ _ u. cc) h.1,
    AreDistinct-modify t release ss (λ s. refl) h.2,
    omega (arith, pending-modify t release ss (λ s _ u. cc), h.3),
  )

-- Any write that keeps the session sound, its token and whether it is an intent.
pub SlotsInv-modify :
    (n k t : ℕ) (f : Session → Session) (ss : List Session)
    → ((s : Session) → (f s).token ≡ s.token)
    → ((s : Session) → (f s).intent ≡ s.intent)
    → ((s : Session) → gap_find t ss ≡ some s → IsSound n k s → IsSound n k (f s))
    → SlotsInv n k ss
    → SlotsInv n k (modify t f ss)
SlotsInv-modify n k t f ss same_token same_intent keep h = (
  length-modify t f ss ∙ h.0,
  AllUsed-modify (IsSound n k) t f ss (λ s e i u. keep s e i) h.1,
  AreDistinct-modify t f ss same_token h.2,
  omega (arith, pending-modify t f ss (λ s _ u. ground (arith, same_intent s)), h.3),
)

SlotsInv-merge_into :
    (n k : ℕ) (s : Session) (ss : List Session) → SlotsInv n k ss → SlotsInv n k (merge_into s ss)
SlotsInv-merge_into n k s ss h = (
  length-merge_into s ss ∙ h.0,
  AllUsed-merge_into (IsSound n k) s ss
      (λ old i. record {
        counted = i.counted;
        fits = i.fits;
        token_pos = i.token_pos;
        token_given = i.token_given;
        intent_closed = i.intent_closed;
        intent_done = i.intent_done;
      })
      h.1,
  AreDistinct-merge_into s ss h.2,
  omega (arith, pending-merge_into s ss, h.3),
)

-- A closed session whose samples are all processed may become an intent, if there is room.
SlotsInv-intent :
    (n k : ℕ) (s : Session) (ss : List Session)
    → gap_find s.token ss ≡ some s
    → s.closed ≡ true
    → s.accepted ≡ s.processed
    → pending ss < pending_max
    → SlotsInv n k ss
    → SlotsInv n k (
        modify s.token
          (λ t. record t { intent = true; revision = u32 (t.revision + 1); round = 0 })
          ss)
SlotsInv-intent n k s ss e c d room h = (
  length-modify s.token _ ss ∙ h.0,
  AllUsed-modify (IsSound n k) s.token _ ss (λ x ex i u. at_slot x ex i) h.1,
  AreDistinct-modify s.token _ ss (λ x. refl) h.2,
  omega (
    arith,
    pending-modify-suc s.token
        (λ t. record t { intent = true; revision = u32 (t.revision + 1); round = 0 }) ss,
  ),
)
  where
    at_slot :
        (x : Session)
        → gap_find s.token ss ≡ some x
        → IsSound n k x
        → IsSound n k (record x { intent = true; revision = u32 (x.revision + 1); round = 0 })
    at_slot x ex i =
        let same : s ≡ x = some_inj (sym e ∙ ex) in
        record {
          counted = i.counted;
          fits = i.fits;
          token_pos = i.token_pos;
          token_given = i.token_given;
          intent_closed = λ _. sym (ap (λ q. q.closed) same) ∙ c;
          intent_done = λ _. subst (λ q. q.accepted ≡ q.processed) same d;
        }

-- The four ways that the slots can go.
pub finalize_slots_cases {ℓ} :
    (P : List Session → Type ℓ) (s : Session) (ss : List Session)
    → P ss
    → P (modify s.token release ss)
    → P (modify s.token release (merge_into s ss))
    → (s.closed ≡ true
        → s.accepted ≡ s.processed
        → pending ss < pending_max
        → P (
            modify s.token
              (λ t. record t { intent = true; revision = u32 (t.revision + 1); round = 0 })
              ss))
    → P (finalize_slots s ss).0
unfolding finalize_slots
finalize_slots_cases P s ss stays dropped joined kept =
    elim (Bool-cases (not s.closed || not (s.accepted == s.processed) || s.intent)) [
      | inl e1 ↦ rw e1 stays
      | inr e1 ↦ elim (Bool-cases (s.persisted == 0 || ltb_ℤ s.last_id (pos 0))) [
        | inl e2 ↦ rw (e1, e2) dropped
        | inr e2 ↦ elim (Bool-cases (is_empty s.record_id)) [
          | inl e3 ↦ rw (e1, e2, e3) dropped
          | inr e3 ↦ elim (Bool-cases (has_intent s ss)) [
            | inl e4 ↦ rw (e1, e2, e3, e4) joined
            | inr e4 ↦ elim (Bool-cases (leb pending_max (pending ss))) [
              | inl e5 ↦ rw (e1, e2, e3, e4, e5) dropped
              | inr e5 ↦ rw (e1, e2, e3, e4, e5) (kept (ground arith) (ground arith) (ground arith))
            ]
          ]
        ]
      ]
    ]

-- Whatever `gap_finalize` decides on a slot, the slots stay in order.
pub SlotsInv-finalize :
    (n k : ℕ) (s : Session) (ss : List Session)
    → gap_find s.token ss ≡ some s
    → SlotsInv n k ss
    → SlotsInv n k (finalize_slots s ss).0
SlotsInv-finalize n k s ss e h =
    finalize_slots_cases (SlotsInv n k) s ss h (SlotsInv-release n k s.token ss h)
      (SlotsInv-release n k s.token (merge_into s ss) (SlotsInv-merge_into n k s ss h))
      (λ c d room. SlotsInv-intent n k s ss e c d room h)

abbrev pub slots_of : Gap → List Session
slots_of g = g.sessions

gap_find_self :
    (t : ℕ) (ss : List Session) (s : Session)
    → gap_find t ss ≡ some s
    → gap_find s.token ss ≡ some s
gap_find_self t ss s e = subst (λ k. gap_find k ss ≡ some s) (sym same) e
  where
    all_used : (xs : List Session) → AllUsed (λ x. Unit {0}) xs
    all_used [] = tt
    all_used (x ∷ xs) = (λ _. tt, all_used xs)

    same : s.token ≡ t
    same = (gap_find-AllUsed (λ x. Unit {0}) t ss s (all_used ss) e).2

-- `gap_finalize` keeps the slots in order and touches nothing else.
pub gap_finalize-SlotsInv :
    (n k t : ℕ) (g : Gap)
    → SlotsInv n k g.sessions
    → SlotsInv n k (gap_finalize g t).0.sessions × ((gap_finalize g t).0.next_token ≡ g.next_token)
unfolding gap_finalize
gap_finalize-SlotsInv n k t g h = elim (Option-cases (gap_find t g.sessions)) [
  | inl e ↦ rw (e, gap_finalize) (h, refl)
  | inr (s, e) ↦
      rw (e, gap_finalize)
        (SlotsInv-finalize n k s g.sessions (gap_find_self t g.sessions s e) h, refl)
]
