-- ===== src/Transfer/Finalize/Staged.antt =====
-- The state of the service between the steps: what is stored and which calls were made.
use esp32aging.Base.{ℕ, ◌≡◌, true, false, some, List, [], ◌∷◌}
use esp32aging.Ota.{c_str}
use esp32aging.Ota.Version.{Scan}
use esp32aging.Ota.Cache.{CacheRecord, Partition}
use esp32aging.Ota.Cache.Nvs.{is_intact}
use esp32aging.Ota.Cache.Nvs.Laws.{Content, a_record}
use esp32aging.Transfer.Finalize.{
  Effect, boots, notifies, Service, Result, done, stops, M, ◌>>=◌, OtaState,
}

module _ {S : Type 0} (view : S → Content) (sscanf : List ℕ → Scan) (crc_of : CacheRecord → ℕ)
    (p : Partition) where
  -- The storage holds a record that is loaded, of an image in this partition.
  abbrev pub HoldsRecord : S → Type 0
  HoldsRecord s =
      (r : CacheRecord) × (view s ≡ a_record r)
      × (is_intact sscanf crc_of r ≡ true)
      × (r.partition_address ≡ p.address)

  abbrev pub IsSound : Effect S → Type 0
  IsSound (boots q s) = (q ≡ p) × HoldsRecord s
  IsSound (notifies ready sdk_file_name) =
      (ready.valid ≡ true)
      × (ready.partition ≡ some p)
      × (sdk_file_name ≡ some (c_str ready.file_name))

  abbrev pub AreSound : List (Effect S) → Type 0
  AreSound [] = Unit {0}
  AreSound (e ∷ es) = IsSound e × AreSound es

  -- Between the runs, and within one.
  pub record IsStaged (s : Service S) : Type 0 where
    pub recorded : s.persisted ≡ true → HoldsRecord s.store
    pub placed : s.candidate.partition_address ≡ p.address
    pub supplied : s.ready_file.ready.partition ≡ some p
    pub sound : AreSound s.effects
    pub finished :
        s.finalization_pending ≡ false → (s.persisted ≡ true) × (s.ready_file.ready.valid ≡ true)

  pub record IsPending (s : Service S) : Type 0 where
    pub recorded : s.persisted ≡ true → HoldsRecord s.store
    pub placed : s.candidate.partition_address ≡ p.address
    pub supplied : s.ready_file.ready.partition ≡ some p
    pub sound : AreSound s.effects
    pub pending : s.finalization_pending ≡ true

  pub pending-IsStaged : (s : Service S) → IsPending s → IsStaged s
  pending-IsStaged s h = record {
    recorded = h.recorded;
    placed = h.placed;
    supplied = h.supplied;
    sound = h.sound;
    finished = λ e. cc (e, h.pending);
  }

  -- A step that stops leaves the state in order, one that goes on with what is told of its result.
  abbrev pub Keeps : {A : Type 0} → (A → Service S → Type 0) → Service S × Result A → Type 0
  Keeps Q (s, done a) = IsPending s × Q a s
  Keeps Q (s, stops e) = IsStaged s

  pub bind-IsStaged :
      {A B : Type 0} (Q : A → Service S → Type 0) (m : M S A) (f : A → M S B) (s : Service S)
      → Keeps Q (m s)
      → ((a : A) (t : Service S) → IsPending t → Q a t → IsStaged (f a t).0)
      → IsStaged ((m >>= f) s).0
  bind-IsStaged {A} {B} Q m f s = go (m s)
    where
      go :
          (x : Service S × Result A)
          → Keeps Q x
          → ((a : A) (t : Service S) → IsPending t → Q a t → IsStaged (f a t).0)
          → IsStaged
              (elim x.1 as (λ _. Service S × Result B) [
                | done a ↦ f a x.0
                | stops e ↦ (x.0, stops e)
              ]).0
      go (t, done a) h k = k a t h.0 h.1
      go (t, stops e) h k = h

  -- A call of the SDK in a state that is in order, with a sound effect.
  pub adds_effect :
      (e : Effect S) (s : Service S)
      → IsPending s
      → IsSound e
      → IsPending (record s { effects = e ∷ s.effects })
  adds_effect e s h sound = record {
    recorded = h.recorded;
    placed = h.placed;
    supplied = h.supplied;
    sound = (sound, h.sound);
    pending = h.pending;
  }

  pub with_state : (o : OtaState) (s : Service S) → IsPending s → IsPending (record s { state = o })
  with_state o s h = record {
    recorded = h.recorded;
    placed = h.placed;
    supplied = h.supplied;
    sound = h.sound;
    pending = h.pending;
  }
