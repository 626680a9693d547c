-- ===== src/Transfer/Finalize/Ready.antt =====
-- A run in which no call fails comes to its end.
use esp32aging.Base.{ℕ, ◌≡◌, refl, sym, subst, false, List, ℤ, pos}
use esp32aging.Ota.Version.{Scan}
use esp32aging.Ota.Cache.{CacheRecord, Partition}
use esp32aging.Ota.Cache.Nvs.{Nvs}
use esp32aging.Ota.Image.{Sha, Sdk}
use esp32aging.Transfer.Finalize.{
  File, Service, Calls, Result, done, stops, M, ◌>>=◌, take_file, select_boot, offer_file, complete,
}
use esp32aging.Transfer.Finalize.Run.{with_digest, compare_running, persist, finalize_candidate}
use esp32aging.Transfer.Finalize.Succeeds.{
  Goes, bind-Goes, Succeeds, IsReady, Same, IsFile, IsKept, IsBooted,
}
use esp32aging.Transfer.Finalize.Prepared.{
  take_file-Goes, with_digest-Goes, compare_running-Goes, persist-Goes,
}
use esp32aging.Transfer.Finalize.Offered.{select_boot-Goes, offer_file-Goes}

module _ (sscanf : List ℕ → Scan) (crc_of : CacheRecord → ℕ) {S C : Type 0} (nvs : Nvs S)
    (sha : Sha C) (sdk : Sdk) (c : Calls) (s : Service S) (p : Partition) (newer_by : ℕ) where
  module _ (h : Succeeds sscanf crc_of nvs sha sdk c s p newer_by) where
    R : Unit {0} → Service S → Type 0
    R a t = IsReady c s p newer_by t

    after_boot : File → Unit {0} → M S (Unit {0})
    after_boot file a = offer_file c file >>= λ b. complete

    after_persist : Partition → File → ℤ → Unit {0} → M S (Unit {0})
    after_persist q file comparison a = select_boot c q comparison >>= after_boot file

    after_comparison : Partition → File → ℤ → M S (Unit {0})
    after_comparison q file comparison =
        persist sscanf crc_of nvs sha sdk file >>= after_persist q file comparison

    after_digest : Partition → File → M S (Unit {0})
    after_digest q file =
        compare_running sscanf crc_of nvs sha sdk c file >>= after_comparison q file

    after_taken : File × Partition → M S (Unit {0})
    after_taken a = with_digest sscanf crc_of nvs sha sdk c a.0 a.1 >>= after_digest a.1

    boot-Goes :
        (file : File) (t : Service S)
        → file.ready ≡ s.ready_file.ready
        → IsBooted c s p newer_by t
        → Goes R (after_boot file tt t)
    unfolding after_boot complete R
    boot-Goes file t e k =
        bind-Goes
          (λ (a : Unit {0}) u. IsReady c s p newer_by (record u { finalization_pending = false })) R
          (offer_file c file) (λ b. complete) t
          (offer_file-Goes sscanf crc_of nvs sha sdk c s p newer_by h file t e k)
          (λ a u q. record {
            stored = q.stored;
            valid = q.valid;
            finished = refl;
            state = q.state;
            effects = q.effects;
          })

    comparison-Goes :
        (file : File) (t : Service S)
        → IsFile sha sdk s p file
        → Same s t
        → Goes R (after_comparison p file (pos newer_by) t)
    unfolding after_comparison after_persist
    comparison-Goes file t e k =
        bind-Goes (λ (a : Unit {0}) u. IsKept s u) R (persist sscanf crc_of nvs sha sdk file)
          (after_persist p file (pos newer_by)) t
          (persist-Goes sscanf crc_of nvs sha sdk c s p newer_by h file t e.0 k)
          (λ a u q.
            bind-Goes (λ (b : Unit {0}) v. IsBooted c s p newer_by v) R
              (select_boot c p (pos newer_by)) (after_boot file) u
              (select_boot-Goes sscanf crc_of nvs sha sdk c s p newer_by h u q.0 q.1 q.2)
              (λ b v r. boot-Goes file v e.1 r))

    taken-Goes : Goes R (after_taken (s.ready_file, p) s)
    unfolding after_taken after_digest
    taken-Goes =
        bind-Goes (λ (file : File) t. IsFile sha sdk s p file × Same s t) R
          (with_digest sscanf crc_of nvs sha sdk c s.ready_file p) (after_digest p) s
          (with_digest-Goes sscanf crc_of nvs sha sdk c s p newer_by h)
          (λ file t q.
            bind-Goes (λ (a : ℤ) u. (a ≡ pos newer_by) × (u ≡ t)) R
              (compare_running sscanf crc_of nvs sha sdk c file) (after_comparison p file) t
              (compare_running-Goes sscanf crc_of nvs sha sdk c s p newer_by h file t q.0.2)
              (λ a u r.
                subst (λ n. Goes R (after_comparison p file n u)) (sym r.0)
                  (subst (λ v. Goes R (after_comparison p file (pos newer_by) v)) (sym r.1)
                    (comparison-Goes file t q.0 q.1))))

    finalize-Goes : Goes R (finalize_candidate sscanf crc_of nvs sha sdk c s)
    unfolding finalize_candidate after_taken after_digest after_comparison after_persist after_boot
    finalize-Goes =
        bind-Goes (λ (a : File × Partition) t. (a ≡ (s.ready_file, p)) × (t ≡ s)) R (take_file c)
          after_taken s (take_file-Goes sscanf crc_of nvs sha sdk c s p newer_by h)
          (λ a t q.
            subst (λ b. Goes R (after_taken b t)) (sym q.0)
              (subst (λ u. Goes R (after_taken (s.ready_file, p) u)) (sym q.1) taken-Goes))

  -- A candidate is waiting, its version is not older than the running one, and no call fails: the mutex
  -- is taken each time, the digest is known or computed, the record is stored or was, and the calls
  -- of the SDK succeed while no restart is planned. Then the run returns ESP_OK, with nothing left to be
  -- done: the record is stored, the supply is valid, and the nodes below were notified of it last.
  -- Before that, exactly if the image is downloaded, newer and not yet selected, its partition was
  -- selected for the next start; the state is then that of a pending restart, also if it was selected
  -- already, and else idle.
  pub finalize_candidate-IsReady :
      Succeeds sscanf crc_of nvs sha sdk c s p newer_by
      → let x = finalize_candidate sscanf crc_of nvs sha sdk c s in
        (x.1 ≡ done tt) × IsReady c s p newer_by x.0
  unfolding R
  finalize_candidate-IsReady h =
      step (finalize_candidate sscanf crc_of nvs sha sdk c s) (finalize-Goes h)
    where
      step :
          (x : Service S × Result (Unit {0}))
          → Goes (λ a t. IsReady c s p newer_by t) x
          → (x.1 ≡ done tt) × IsReady c s p newer_by x.0
      step (t, done a) k = (refl, k)
      step (t, stops e) k = absurd k
