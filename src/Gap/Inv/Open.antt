-- ===== src/Gap/Inv/Open.antt =====
-- A new session in a free slot, with the next token.
use esp32aging.Base.{
  ℕ, suc, ◌^◌, ◌≤◌, ◌<◌, ◌≡◌, refl, sym, ◌≢◌, false, List, [], ◌∷◌, arith, length, if_cases,
}
use esp32aging.Gap.{Session}
use esp32aging.Gap.Finalize.{pending}
use esp32aging.Gap.Lifecycle.{put_free, bump_token}
use esp32aging.Gap.Inv.{IsSound, AllUsed, IsFresh, AreDistinct, AllUsed-map}

module _ (new : Session) where
  pub AllUsed-put_free :
      (P : Session → Type 0) (ss : List Session)
      → P new
      → AllUsed P ss
      → AllUsed P (put_free new ss)
  unfolding put_free
  AllUsed-put_free P [] p h = tt
  AllUsed-put_free P (s ∷ ss) p h =
      if_cases (AllUsed P) s.used (s ∷ put_free new ss) (new ∷ ss)
        (λ busy. (h.0, AllUsed-put_free P ss p h.1)) (λ free. ((λ u. p), h.1))

  pub length-put_free : (ss : List Session) → length (put_free new ss) ≡ length ss
  unfolding put_free
  length-put_free [] = refl
  length-put_free (s ∷ ss) = ground (arith, length-put_free ss)

  pub pending-put_free :
      (ss : List Session) → new.intent ≡ false → pending (put_free new ss) ≤ pending ss
  unfolding put_free pending
  pending-put_free [] e = omega arith
  pending-put_free (s ∷ ss) e = ground (arith, pending-put_free ss)

  pub AreDistinct-put_free :
      (ss : List Session) → IsFresh new.token ss → AreDistinct ss → AreDistinct (put_free new ss)
  unfolding put_free
  AreDistinct-put_free [] f h = tt
  AreDistinct-put_free (s ∷ ss) f h =
      if_cases AreDistinct s.used (s ∷ put_free new ss) (new ∷ ss)
        (λ busy. (
          (λ u. AllUsed-put_free (λ k. k.token ≢ s.token) ss (λ e. f.0 busy (sym e)) (h.0 busy)),
          AreDistinct-put_free ss f.1 h.1,
        ))
        (λ free. ((λ u. f.1), h.1))

pub IsFresh-token :
    (n k t : ℕ) (ss : List Session) → k < t → AllUsed (IsSound n k) ss → IsFresh t ss
IsFresh-token n k t ss h =
    AllUsed-map (IsSound n k) (λ s. s.token ≢ t) (λ s i. ground (arith, i.token_given)) ss

pub bump_token-suc : (n : ℕ) → suc n < 2 ^ 32 → bump_token n ≡ suc n
bump_token-suc n h = ground arith
