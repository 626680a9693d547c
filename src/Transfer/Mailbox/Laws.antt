-- ===== src/Transfer/Mailbox/Laws.antt =====
-- The ring of requests is a queue of at most eight, first in, first out.
use esp32aging.Base.{
  ℕ, zero, suc, ◌+◌, ◌-◌, ◌%◌, ◌^◌, ◌≤◌, ◌<◌, ◌≡◌, refl, sym, ap, ap₂, ◌∙◌, Bool, true, false, ◌||◌,
  List, [], ◌∷◌, ◌++◌, arith, ltb, if◌then◌else◌, length, get_or, set, take, drop, u32,
  get_or-set_ne, get_or-set_self, length-set, length-append, take-append, take_all,
}
use esp32aging.Transfer.{ReadyFile}
use esp32aging.Transfer.Mailbox.{
  Request, Mailbox, Round, put_all, request_ready, poll_loop, poll_requests, mailbox_size,
  no_request, put_request, take_request,
}

-- The requests from a slot on.
unfoldable pub queued_from : List Request → ℕ → ℕ → List Request
queued_from slots head zero = []
queued_from slots head (suc count) =
    get_or slots (head % mailbox_size) no_request ∷ queued_from slots (head + 1) count

-- The queue that a mailbox stands for.
abbrev pub queued : Mailbox → List Request
queued m = queued_from m.slots m.head m.count

pub record IsMailbox (m : Mailbox) : Type 0 where
  pub slots_full : length m.slots ≡ mailbox_size
  pub head_below : m.head < mailbox_size
  pub count_below : m.count ≤ mailbox_size

-- The head counts modulo the size.
queued_from-mod :
    (slots : List Request) (head k count : ℕ)
    → head % mailbox_size ≡ k % mailbox_size
    → queued_from slots head count ≡ queued_from slots k count
unfolding queued_from
queued_from-mod slots head k zero h = refl
queued_from-mod slots head k (suc count) h =
    ap₂ (◌∷◌) (ap (λ (i : ℕ). get_or slots i no_request) h)
      (queued_from-mod slots (head + 1) (k + 1) count (omega arith))

-- A slot that is not among the next ones may be written.
queued_from-set :
    (slots : List Request) (head count k : ℕ) (q : Request)
    → head ≤ k
    → head + count ≤ k
    → k < head + mailbox_size
    → queued_from (set slots (k % mailbox_size) q) head count ≡ queued_from slots head count
unfolding queued_from
queued_from-set slots head zero k q a b c = refl
queued_from-set slots head (suc count) k q a b c =
    ap₂ (◌∷◌)
      (get_or-set_ne slots (k % mailbox_size) (head % mailbox_size) q no_request (λ e. omega arith))
      (queued_from-set slots (head + 1) count k q (omega arith) (omega arith) (omega arith))

-- The last one of the next ones.
queued_from-suc :
    (slots : List Request) (head count : ℕ)
    → queued_from slots head (suc count)
      ≡ queued_from slots head count ++ get_or slots ((head + count) % mailbox_size) no_request ∷ []
unfolding queued_from
queued_from-suc slots head zero =
    ap (λ (i : ℕ). get_or slots (i % mailbox_size) no_request ∷ []) {x = head} {y = head + 0}
      (omega arith)
queued_from-suc slots head (suc count) = ap (◌∷◌ (get_or slots (head % mailbox_size) no_request)) (
    queued_from-suc slots (head + 1) count
    ∙ ap
        (λ (i : ℕ).
          queued_from slots (head + 1) count ++ get_or slots (i % mailbox_size) no_request ∷ [])
        {x = head + 1 + count} {y = head + suc count} (omega arith))

queued_from-first :
    (slots : List Request) (head rest : ℕ)
    → head < mailbox_size
    → queued_from slots head (suc rest)
      ≡ get_or slots head no_request ∷ queued_from slots (head + 1) rest
unfolding queued_from
queued_from-first slots head rest h =
    ap (λ (i : ℕ). get_or slots i no_request ∷ queued_from slots (head + 1) rest)
      {x = head % mailbox_size} {y = head} (omega arith)

-- The abstract queue: a request is dropped when eight wait.
abbrev pub enqueue : Request → List Request → List Request
enqueue q qs = if ltb (length qs) mailbox_size then qs ++ q ∷ [] else qs

length-queued_from :
    (slots : List Request) (head count : ℕ) → length (queued_from slots head count) ≡ count
unfolding queued_from
length-queued_from slots head zero = refl
length-queued_from slots head (suc count) = ap suc (length-queued_from slots (head + 1) count)

put_request-IsMailbox : (q : Request) (m : Mailbox) → IsMailbox m → IsMailbox (put_request q m)
unfolding put_request
put_request-IsMailbox q m h = record {
  slots_full =
      ground (arith, h.slots_full, length-set m.slots ((m.head + m.count) % mailbox_size) q);
  head_below = ground (arith, h.head_below);
  count_below = ground (arith, h.count_below);
}

queued-put_request :
    (q : Request) (m : Mailbox) → IsMailbox m → queued (put_request q m) ≡ enqueue q (queued m)
unfolding put_request
queued-put_request q m h =
    split (ltb m.count mailbox_size) refl
    ∙ ap (λ (n : ℕ). if ltb n mailbox_size then queued m ++ q ∷ [] else queued m)
        (sym (length-queued_from m.slots m.head m.count))
  where
    at : ℕ
    at = (m.head + m.count) % mailbox_size

    put : Mailbox
    put = record m { slots = set m.slots at q; count = m.count + 1 }

    dropping : Mailbox
    dropping = if ltb m.dropped (2 ^ 32 - 1) then record m { dropped = m.dropped + 1 } else m

    unchanged :
        (b : Bool) → queued (if b then record m { dropped = m.dropped + 1 } else m) ≡ queued m
    unchanged true = refl
    unchanged false = refl

    split :
        (b : Bool)
        → ltb m.count mailbox_size ≡ b
        → queued (if b then put else dropping) ≡ (if b then queued m ++ q ∷ [] else queued m)
    split false e = unchanged (ltb m.dropped (2 ^ 32 - 1))
    split true e =
        ap (queued_from (set m.slots at q) m.head) {x = m.count + 1} {y = suc m.count} (omega arith)
        ∙ queued_from-suc (set m.slots at q) m.head m.count
        ∙ ap₂ (λ (xs : List Request) (x : Request). xs ++ x ∷ [])
            (queued_from-set m.slots m.head m.count (m.head + m.count) q (omega arith) (omega arith)
              (ground arith))
            (get_or-set_self m.slots at q no_request (omega (arith, h.slots_full)))

take_request-IsMailbox : (m : Mailbox) → 1 ≤ m.count → IsMailbox m → IsMailbox (take_request m).0
unfolding take_request
take_request-IsMailbox m some_count h = record {
  slots_full = h.slots_full;
  head_below = omega arith;
  count_below = omega (arith, h.count_below);
}

-- A request that is taken was the first.
queued-take_request :
    (m : Mailbox)
    → 1 ≤ m.count
    → IsMailbox m
    → queued m ≡ (take_request m).1 ∷ queued (take_request m).0
unfolding take_request
queued-take_request m some_count h =
    ap (queued_from m.slots m.head) {x = m.count} {y = suc rest} (omega arith)
    ∙ first
    ∙ ap (λ (xs : List Request). get_or m.slots m.head no_request ∷ xs)
        (queued_from-mod m.slots (m.head + 1) ((m.head + 1) % mailbox_size) rest (omega arith)
          ∙ ap (queued_from m.slots ((m.head + 1) % mailbox_size)) {x = rest}
              {y = u32 (m.count + 2 ^ 32 - 1)} (omega (arith, h.count_below)))
  where
    rest : ℕ
    rest = m.count - 1

    first :
        queued_from m.slots m.head (suc rest)
        ≡ get_or m.slots m.head no_request ∷ queued_from m.slots (m.head + 1) rest
    first = queued_from-first m.slots m.head rest h.head_below

abbrev pub enqueue_all : List Request → List Request → List Request
enqueue_all [] qs = qs
enqueue_all (r ∷ rs) qs = enqueue_all rs (enqueue r qs)

-- What waits after as many rounds: in each some arrive, then the first leaves.
abbrev pub left_over : ℕ → List Round → List Request → List Request
left_over zero es qs = qs
left_over (suc count) [] qs = qs
left_over (suc count) (e ∷ es) qs = left_over count es (drop 1 (enqueue_all e.arrivals qs))

put_all-IsMailbox : (qs : List Request) (m : Mailbox) → IsMailbox m → IsMailbox (put_all qs m)
unfolding put_all
put_all-IsMailbox [] m h = h
put_all-IsMailbox (q ∷ qs) m h =
    put_all-IsMailbox qs (put_request q m) (put_request-IsMailbox q m h)

queued-put_all :
    (qs : List Request) (m : Mailbox)
    → IsMailbox m
    → queued (put_all qs m) ≡ enqueue_all qs (queued m)
unfolding put_all
queued-put_all [] m h = refl
queued-put_all (q ∷ qs) m h =
    queued-put_all qs (put_request q m) (put_request-IsMailbox q m h)
    ∙ ap (enqueue_all qs) (queued-put_request q m h)

-- What arrives does not change what is first.
take-enqueue_all :
    (n : ℕ) (rs qs : List Request) → n ≤ length qs → take n (enqueue_all rs qs) ≡ take n qs
take-enqueue_all n [] qs h = refl
take-enqueue_all n (r ∷ rs) qs h =
    take-enqueue_all n rs (enqueue r qs) (longer (ltb (length qs) mailbox_size))
    ∙ same (ltb (length qs) mailbox_size)
  where
    longer : (b : Bool) → n ≤ length (if b then qs ++ r ∷ [] else qs)
    longer true = omega (arith, length-append qs (r ∷ []))
    longer false = h

    same : (b : Bool) → take n (if b then qs ++ r ∷ [] else qs) ≡ take n qs
    same true = take-append n qs (r ∷ []) h
    same false = refl

length-enqueue_all : (rs qs : List Request) → length qs ≤ length (enqueue_all rs qs)
length-enqueue_all [] qs = omega arith
length-enqueue_all (r ∷ rs) qs =
    omega (arith, length-enqueue_all rs (enqueue r qs), longer (ltb (length qs) mailbox_size))
  where
    longer : (b : Bool) → length qs ≤ length (if b then qs ++ r ∷ [] else qs)
    longer true = omega (arith, length-append qs (r ∷ []))
    longer false = omega arith

module _ (ttl : ℕ) (ready : ReadyFile) (ready_version : List ℕ) where
  poll_loop-queued :
      (count : ℕ) (es : List Round) (matched : Bool) (m : Mailbox)
      → IsMailbox m
      → count ≤ length (queued m)
      → count ≤ length es
      → let after = poll_loop ttl ready ready_version count es matched m in
        (after.0.1 ≡ take count (queued m)) × (queued after.0.0 ≡ left_over count es (queued m))
  unfolding poll_loop
  poll_loop-queued zero es matched m h below rounds = (refl, refl)
  poll_loop-queued (suc count) [] matched m h below rounds = absurd (omega arith)
  poll_loop-queued (suc count) (e ∷ es) matched m h below rounds = finish (
      poll_loop-queued count es now_matched taken.0
        (take_request-IsMailbox filled some_count filled_ok)
        (omega (arith, longer, ap length first)) (omega arith))
    where
      filled : Mailbox
      filled = put_all e.arrivals m

      filled_ok : IsMailbox filled
      filled_ok = put_all-IsMailbox e.arrivals m h

      arrived : queued filled ≡ enqueue_all e.arrivals (queued m)
      arrived = queued-put_all e.arrivals m h

      longer : suc count ≤ length (queued filled)
      longer = omega (arith, below, ap length arrived, length-enqueue_all e.arrivals (queued m))

      some_count : 1 ≤ filled.count
      some_count = omega (arith, longer, length-queued_from filled.slots filled.head filled.count)

      taken : Mailbox × Request
      taken = take_request filled

      first : queued filled ≡ taken.1 ∷ queued taken.0
      first = queued-take_request filled some_count filled_ok

      now_matched : Bool
      now_matched = matched || request_ready ttl ready ready_version e taken.1

      finish :
          let after = poll_loop ttl ready ready_version count es now_matched taken.0 in
          (after.0.1 ≡ take count (queued taken.0))
            × (queued after.0.0 ≡ left_over count es (queued taken.0))
          → (taken.1 ∷ after.0.1 ≡ take (suc count) (queued m))
            × (queued after.0.0 ≡ left_over count es (drop 1 (enqueue_all e.arrivals (queued m))))
      finish again = (
        ap (◌∷◌ taken.1) again.0
            ∙ ap (take (suc count)) (sym first ∙ arrived)
            ∙ take-enqueue_all (suc count) e.arrivals (queued m) below,
        again.1 ∙ ap (λ qs. left_over count es (drop 1 qs)) (sym first ∙ arrived),
      )

  -- A mailbox in order, and a round for each request that waits. A poll takes exactly the requests
  -- that waited when it began, the oldest first, whatever arrives in the meantime; then those wait
  -- that arrived during it, in their order, less those that found eight waiting.
  pub poll_requests-queued :
      (es : List Round) (m : Mailbox)
      → IsMailbox m
      → m.count ≤ length es
      → let after = poll_requests ttl ready ready_version es m in
        (after.0.1 ≡ queued m) × (queued after.0.0 ≡ left_over m.count es (queued m))
  unfolding poll_requests
  poll_requests-queued es m h rounds =
      let all =
        poll_loop-queued m.count es false (record m { dropped = 0 }) cleared (omega (arith, size))
          rounds in
      (all.0 ∙ take_all m.count (queued m) size, all.1)
    where
      size : length (queued m) ≡ m.count
      size = length-queued_from m.slots m.head m.count

      cleared : IsMailbox (record m { dropped = 0 })
      cleared = record {
        slots_full = h.slots_full;
        head_below = h.head_below;
        count_below = h.count_below;
      }
