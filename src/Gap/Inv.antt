-- ===== src/Gap/Inv.antt =====
-- What holds of the sessions between two critical sections.
pub mod Finalize
pub mod Open
pub mod Steps
use esp32aging.Base.{
  ℕ, zero, suc, ◌+◌, ◌-◌, ◌*◌, ◌/◌, ◌%◌, ◌^◌, ◌≤◌, ◌<◌, bit_and, bit_or, bit_xor, ◌≡◌, refl, sym,
  ap, ap₂, ◌∙◌, subst, ◌≢◌, ◌↔◌, ◌⊎◌, inl, inr, Bool, true, false, not, ◌&&◌, ◌||◌, Option, none,
  some, List, [], ◌∷◌, ◌++◌, map, arith, ltb, leb, ◌==◌, ==_iff, if◌then◌else◌, Bool-cases,
  Option-cases, length, get_elem?, get_or, set, take, drop, replicate, u8, u16, u32, ◌<<<◌, ◌>>>◌,
  ◌>>=◌, fill, dec_lt, dec_le, ℕ_discrete, ℤ, pos, negsuc, signed16, signed32, ltb_ℤ, suc_ℤ,
  int_max, str_eq, str_eq_iff, is_empty,
}
use mathlib.Core.Option.{some-injective}
use esp32aging.Gap.{Session, Gap, gap_find, modify, session_slots, pending_max}
use esp32aging.Gap.Finalize.{pending}

-- A slot in use: no more samples are processed than accepted, at most `n` are accepted, its token
-- has been given out, and an intent belongs to a closed session whose samples are all processed.
pub record IsSound (n next_token : ℕ) (s : Session) : Type 0 where
  pub counted : s.processed ≤ s.accepted
  pub fits : s.accepted ≤ n
  pub token_pos : 0 < s.token
  pub token_given : s.token ≤ next_token
  pub intent_closed : s.intent ≡ true → s.closed ≡ true
  pub intent_done : s.intent ≡ true → s.accepted ≡ s.processed

abbrev pub AllUsed : (Session → Type 0) → List Session → Type 0
AllUsed P [] = Unit {0}
AllUsed P (s ∷ ss) = (s.used ≡ true → P s) × AllUsed P ss

-- No slot in use has the token.
abbrev pub IsFresh : ℕ → List Session → Type 0
IsFresh t = AllUsed (λ s. s.token ≢ t)

abbrev pub AreDistinct : List Session → Type 0
AreDistinct [] = Unit {0}
AreDistinct (s ∷ ss) = (s.used ≡ true → IsFresh s.token ss) × AreDistinct ss

-- After `n` operations.
pub record Inv (n : ℕ) (g : Gap) : Type 0 where
  pub slots : length g.sessions ≡ session_slots
  pub sound : AllUsed (IsSound n g.next_token) g.sessions
  pub distinct : AreDistinct g.sessions
  pub bounded : pending g.sessions ≤ pending_max
  pub given : g.next_token ≤ n

module _ (P : Session → Type 0) where
  pub AllUsed-map :
      (Q : Session → Type 0)
      → ((s : Session) → P s → Q s)
      → (ss : List Session) → AllUsed P ss
      → AllUsed Q ss
  AllUsed-map Q f [] h = tt
  AllUsed-map Q f (s ∷ ss) h = (λ u. f s (h.0 u), AllUsed-map Q f ss h.1)

  pub AllUsed-modify :
      (t : ℕ) (f : Session → Session) (ss : List Session)
      → ((s : Session) → gap_find t ss ≡ some s → P s → (f s).used ≡ true → P (f s))
      → AllUsed P ss
      → AllUsed P (modify t f ss)
  unfolding modify gap_find
  AllUsed-modify t f [] keep h = tt
  AllUsed-modify t f (s ∷ ss) keep h = elim (Bool-cases (s.used && s.token == t)) [
    | inl hit ↦ rw hit (λ u. keep s (rw (hit, gap_find)) (h.0 (ground arith)) u, h.1)
    | inr miss ↦ rw miss (h.0, AllUsed-modify t f ss (λ k e. keep k (rw (miss, gap_find) e)) h.1)
  ]

pub length-modify :
    (t : ℕ) (f : Session → Session) (ss : List Session) → length (modify t f ss) ≡ length ss
unfolding modify
length-modify t f [] = refl
length-modify t f (s ∷ ss) = ground (arith, length-modify t f ss)

-- A write that keeps the token, and takes no free slot into use, keeps the tokens distinct.
pub AreDistinct-modify :
    (t : ℕ) (f : Session → Session) (ss : List Session)
    → ((s : Session) → (f s).token ≡ s.token)
    → AreDistinct ss
    → AreDistinct (modify t f ss)
unfolding modify
AreDistinct-modify t f [] same h = tt
AreDistinct-modify t f (s ∷ ss) same h = elim (Bool-cases (s.used && s.token == t)) [
  | inl hit ↦ rw hit (λ u. subst (λ k. IsFresh k ss) (sym (same s)) (h.0 (ground arith)), h.1)
  | inr miss ↦ rw miss (
    λ u.
        AllUsed-modify (λ k. k.token ≢ s.token) t f ss (λ k _ ne fu e. ne (sym (same k) ∙ e))
          (h.0 u),
    AreDistinct-modify t f ss same h.1,
  )
]

-- A write that makes no intent does not raise their number.
pub pending-modify :
    (t : ℕ) (f : Session → Session) (ss : List Session)
    → ((s : Session) → s.used ≡ true → (f s).used && (f s).intent ≡ true → s.intent ≡ true)
    → pending (modify t f ss) ≤ pending ss
unfolding modify pending
pending-modify t f [] keep = omega arith
pending-modify t f (s ∷ ss) keep = ground (arith, keep s, pending-modify t f ss keep)

-- And any write raises it by at most one.
pub pending-modify-suc :
    (t : ℕ) (f : Session → Session) (ss : List Session) → pending (modify t f ss) ≤ suc (pending ss)
unfolding modify pending
pending-modify-suc t f [] = omega arith
pending-modify-suc t f (s ∷ ss) = ground (arith, pending-modify-suc t f ss)

-- What `gap_find` returns is a slot in use with the token.
pub gap_find-AllUsed :
    (P : Session → Type 0) (t : ℕ) (ss : List Session) (s : Session)
    → AllUsed P ss
    → gap_find t ss ≡ some s
    → P s × (s.used ≡ true) × (s.token ≡ t)
unfolding gap_find
gap_find-AllUsed P t [] s h e = cc
gap_find-AllUsed P t (x ∷ ss) s h e = elim (Bool-cases (x.used && x.token == t)) [
  | inl hit ↦
      subst (λ k. P k × (k.used ≡ true) × (k.token ≡ t)) (found_head x ss hit e)
        (h.0 (ground arith), ground arith, ground arith)
  | inr miss ↦ gap_find-AllUsed P t ss s h.1 (found_tail x ss miss e)
]
  where
    found_head :
        (y : Session) (ys : List Session)
        → (y.used && y.token == t) ≡ true
        → gap_find t (y ∷ ys) ≡ some s
        → y ≡ s
    found_head y ys hit e' = ground arith

    found_tail :
        (y : Session) (ys : List Session)
        → (y.used && y.token == t) ≡ false
        → gap_find t (y ∷ ys) ≡ some s
        → gap_find t ys ≡ some s
    found_tail y ys miss e' = ground arith
