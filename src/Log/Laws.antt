-- ===== src/Log/Laws.antt =====
-- The records that a circle of writes leaves.
use esp32aging.Base.{
  ℕ, zero, suc, ◌+◌, ◌-◌, ◌*◌, ◌%◌, ◌≤◌, ◌<◌, ◌≡◌, refl, sym, ap, ap₂, ◌∙◌, subst, ◌≢◌, true, false,
  not, ◌&&◌, Option, some, List, [], ◌∷◌, ◌++◌, arith, ltb, leb, ◌==◌, if◌then◌else◌, length,
  get_elem?, get_or, take, replicate, u32, some_inj, if_cases, length-append, length-replicate,
  length-take_bound, take_all,
}
use esp32aging.Log.{
  get_index_from_flash, File, Log, ok, max_records, record_size, log_get_offset, write_at, read_at,
  record_buffer, c_text, storage_write_record, storage_read_record, get_next_index, cyclic_line,
  storage_write_record_cyclic,
}

-- A record's place holds these 128 bytes.
abbrev Holds : ℕ → List ℕ → File → Type 0
Holds index bytes f =
    (index * 128 + 128 ≤ f.size) × ((i : ℕ) → i < 128 → f.at (index * 128 + i) ≡ get_or bytes i 0)

write_at-Holds :
    (index : ℕ) (bytes : List ℕ) (f : File)
    → length bytes ≡ 128
    → Holds index bytes (write_at (index * 128) bytes f)
unfolding write_at
write_at-Holds index bytes f e =
    (ground (arith, e), λ i h. inside i h ∙ ap (λ (k : ℕ). get_or bytes k 0) (omega arith))
  where
    inside :
        (i : ℕ)
        → i < 128
        → (if leb (index * 128) (index * 128 + i)
              && ltb (index * 128 + i) (index * 128 + length bytes)
            then get_or bytes (index * 128 + i - index * 128) 0
            else f.at (index * 128 + i))
          ≡ get_or bytes (index * 128 + i - index * 128) 0
    inside i h = ground (arith, e, h)

write_at-Holds_other :
    (index other : ℕ) (bytes others : List ℕ) (f : File)
    → length bytes ≡ 128
    → index ≢ other
    → Holds other others f
    → Holds other others (write_at (index * 128) bytes f)
unfolding write_at
write_at-Holds_other index other bytes others f e ne h =
    (omega (arith, h.0), λ i b. outside i b ∙ h.1 i b)
  where
    outside :
        (i : ℕ)
        → i < 128
        → (if leb (index * 128) (other * 128 + i)
              && ltb (other * 128 + i) (index * 128 + length bytes)
            then get_or bytes (other * 128 + i - index * 128) 0
            else f.at (other * 128 + i))
          ≡ f.at (other * 128 + i)
    outside i b = ground (arith, e, ne, b)

read_at-eq :
    (bytes : List ℕ) (offset : ℕ) (f : File)
    → offset + length bytes ≤ f.size
    → ((k : ℕ) → k < length bytes → f.at (offset + k) ≡ get_or bytes k 0)
    → read_at offset (length bytes) f ≡ bytes
unfolding read_at
read_at-eq [] offset f s h = refl
read_at-eq (b ∷ bytes) offset f s h =
    if_cases (λ r. r ≡ b ∷ bytes) (ltb offset f.size)
      (f.at offset ∷ read_at (offset + 1) (length bytes) f) []
      (λ _. ap₂ ◌∷◌ first (read_at-eq bytes (offset + 1) f (omega (arith, s)) rest))
      (λ out. absurd (ground (arith, out, s)))
  where
    first : f.at offset ≡ b
    first = ap f.at {x = offset} {y = offset + 0} (omega arith) ∙ h 0 (omega arith)

    rest : (k : ℕ) → k < length bytes → f.at (offset + 1 + k) ≡ get_or bytes k 0
    rest k b' =
        ap f.at {x = offset + 1 + k} {y = offset + suc k} (omega arith) ∙ h (suc k) (omega arith)

length-record_buffer : (str : List ℕ) → length (record_buffer str) ≡ 128
unfolding record_buffer
length-record_buffer str = omega (
  arith,
  length-take_bound 127 str,
  length-append (take 127 str) (replicate (128 - length (take 127 str)) 0),
  length-replicate {A = ℕ} (128 - length (take 127 str)) 0,
)

-- What `storage_write_record_cyclic` is given: the text of the time, the number of the product and
-- the message.
pub record Line : Type 0 where
  pub stamp : List ℕ
  pub pn : Option (List ℕ)
  pub str : List ℕ

abbrev pub line_of : Line → List ℕ
line_of e = cyclic_line e.stamp e.pn e.str

-- Lines are written while the file system and the storage do what they are asked.
abbrev pub write_line : Line → Log → Log
write_line e l = (storage_write_record_cyclic true true 128 true e.stamp e.pn (some e.str) l).0

unfoldable pub write_lines : List Line → Log → Log
write_lines [] l = l
write_lines (e ∷ es) l = write_lines es (write_line e l)

module _ (e : Line) (l : Log) (h : l.current_index < 3000) where
  in_range : leb max_records l.current_index ≡ false
  in_range = ground arith

  write_line-file :
      (write_line e l).file ≡ write_at (l.current_index * 128) (record_buffer (line_of e)) l.file
  unfolding storage_write_record_cyclic storage_write_record get_next_index log_get_offset
  write_line-file =
      rw (write_line, in_range)
        (ap₂ (λ offset bytes. write_at offset bytes l.file) (omega arith)
          (take_all 128 (record_buffer (line_of e)) (length-record_buffer (line_of e))))

  write_line-current_index : (write_line e l).current_index ≡ (l.current_index + 1) % 3000
  unfolding storage_write_record_cyclic storage_write_record get_next_index
  write_line-current_index = rw (write_line, in_range) (ground arith)

-- A place that the next lines do not reach keeps its record.
write_lines-Holds_other :
    (es : List Line) (l : Log) (index : ℕ) (bytes : List ℕ)
    → l.current_index < 3000
    → index < 3000
    → length es ≤ (index + 3000 - l.current_index) % 3000
    → Holds index bytes l.file
    → Holds index bytes (write_lines es l).file
unfolding write_lines
write_lines-Holds_other [] l index bytes h hi d p = p
write_lines-Holds_other (e ∷ es) l index bytes h hi d p =
    let next = write_line-current_index e l h in
    write_lines-Holds_other es (write_line e l) index bytes (omega (arith, next)) hi
      (omega (arith, next, h, hi, d))
      (subst (Holds index bytes) (sym (write_line-file e l h)) (
        write_at-Holds_other l.current_index index (record_buffer (line_of e)) bytes l.file
          (length-record_buffer (line_of e)) (omega (arith, h, hi, d)) p))

-- The k-th of the lines lies k places on, if fewer than 3000 lines come after it.
write_lines-Holds :
    (es : List Line) (l : Log) (k : ℕ) (e : Line)
    → l.current_index < 3000
    → get_elem? es k ≡ some e
    → length es ≤ k + 3000
    → Holds ((l.current_index + k) % 3000) (record_buffer (line_of e)) (write_lines es l).file
unfolding write_lines
write_lines-Holds [] l k e h g n = cc
write_lines-Holds (d ∷ es) l zero e h g n =
    let next = write_line-current_index d l h in
    write_lines-Holds_other es (write_line d l) ((l.current_index + 0) % 3000)
      (record_buffer (line_of e)) (omega (arith, next)) (omega arith) (omega (arith, next, h, n))
      (subst (Holds ((l.current_index + 0) % 3000) (record_buffer (line_of e)))
        (sym (write_line-file d l h))
        (subst
          (λ x.
            Holds ((l.current_index + 0) % 3000) (record_buffer (line_of x))
              (write_at (l.current_index * 128) (record_buffer (line_of d)) l.file))
          (some_inj g)
          (subst
            (λ index.
              Holds index (record_buffer (line_of d))
                (write_at (l.current_index * 128) (record_buffer (line_of d)) l.file))
            place
            (write_at-Holds l.current_index (record_buffer (line_of d)) l.file
              (length-record_buffer (line_of d))))))
  where
    place : l.current_index ≡ (l.current_index + 0) % 3000
    place = omega (arith, h)
write_lines-Holds (d ∷ es) l (suc k) e h g n =
    let next = write_line-current_index d l h in
    subst (λ index. Holds index (record_buffer (line_of e)) (write_lines es (write_line d l)).file)
      (omega (arith, next))
      (write_lines-Holds es (write_line d l) k e (omega (arith, next)) g (omega (arith, n)))

-- Lines have no NUL.
abbrev pub NoNul : List ℕ → Type 0
NoNul [] = Unit {0}
NoNul (b ∷ bs) = (b ≢ 0) × NoNul bs

c_text-padded : (text : List ℕ) (n : ℕ) → NoNul text → c_text (text ++ replicate n 0) ≡ text
unfolding c_text
c_text-padded [] zero h = refl
c_text-padded [] (suc n) h = refl
c_text-padded (b ∷ text) n h =
    if_cases (λ r. r ≡ b ∷ text) (b == 0) [] (b ∷ c_text (text ++ replicate n 0))
      (λ z. absurd (ground (arith, z, h.0))) (λ _. ap (◌∷◌ b) (c_text-padded text n h.1))

NoNul-take : (n : ℕ) (text : List ℕ) → NoNul text → NoNul (take n text)
NoNul-take zero text h = tt
NoNul-take (suc n) [] h = tt
NoNul-take (suc n) (b ∷ text) h = (h.0, NoNul-take n text h.1)

read-Holds :
    (index : ℕ) (bytes : List ℕ) (f : File)
    → index < 3000
    → length bytes ≡ 128
    → Holds index bytes f
    → read_at (log_get_offset index) record_size f ≡ bytes
unfolding log_get_offset
read-Holds index bytes f h e p =
    ap₂ (λ offset size. read_at offset size f) {x = u32 (index * record_size)} {y = index * 128}
      (omega arith) (sym e)
    ∙ read_at-eq bytes (index * 128) f (omega (arith, e, p.0)) (λ k b. p.1 k (omega (arith, e)))

text-record_buffer : (text : List ℕ) → NoNul text → c_text (record_buffer text) ≡ take 127 text
unfolding record_buffer
text-record_buffer text h =
    c_text-padded (take 127 text) (128 - length (take 127 text)) (NoNul-take 127 text h)

-- After any number of lines that were written while the file system took them whole, each of the last 3000 is read back: the k-th line lies k places after
-- the one where the writing began, in the circle of 3000, and gives its text, of which a record holds
-- 127 bytes and the reader's buffer one byte less than its size. The line has no NUL.
pub read-write_lines :
    (es : List Line) (l : Log) (k n : ℕ) (e : Line)
    → l.current_index < 3000
    → get_elem? es k ≡ some e
    → length es ≤ k + 3000
    → NoNul (line_of e)
    → 0 < n
    → storage_read_record true ((l.current_index + k) % 3000) (some n) (write_lines es l)
      ≡ (ok, take (n - 1) (take 127 (line_of e)))
unfolding storage_read_record
read-write_lines es l k n e h g m z hn =
    rw (storage_read_record, in_circle, positive, found, whole)
      (ap (λ text. (ok, take (n - 1) text)) (text-record_buffer (line_of e) z))
  where
    in_circle : leb max_records ((l.current_index + k) % 3000) ≡ false
    in_circle = ground arith

    positive : (n == 0) ≡ false
    positive = ground arith

    found :
        read_at (log_get_offset ((l.current_index + k) % 3000)) record_size (write_lines es l).file
        ≡ record_buffer (line_of e)
    found =
        read-Holds ((l.current_index + k) % 3000) (record_buffer (line_of e))
          (write_lines es l).file (omega arith) (length-record_buffer (line_of e))
          (write_lines-Holds es l k e h g m)

    whole : not (length (record_buffer (line_of e)) == record_size) ≡ false
    whole = ground (arith, length-record_buffer (line_of e))

-- The stored index is the place that was just written, not the next one.
write_line-log_index :
    (e : Line) (l : Log) → l.current_index < 3000 → (write_line e l).log_index ≡ l.current_index
unfolding storage_write_record_cyclic storage_write_record get_next_index
write_line-log_index e l h = rw (write_line, in_range e l h) refl

get_index_from_flash-small :
    (index : ℕ) (l : Log) → index < 3000 → (get_index_from_flash index l).current_index ≡ index
unfolding get_index_from_flash
get_index_from_flash-small index l h = ground arith

-- Where every write and the storing of the index succeed, and lines have no NUL: a restart that
-- restores the stored index goes on at the place of the last line: at the place where
-- this line was written, the line that is written after the restart is read back.
pub restart-overwrites :
    (e d : Line) (l : Log) (n : ℕ)
    → l.current_index < 3000
    → NoNul (line_of d)
    → 0 < n
    → let last = write_line e l in
      storage_read_record true l.current_index
        (some n)
        (write_line d (get_index_from_flash last.log_index last))
      ≡ (ok, take (n - 1) (take 127 (line_of d)))
unfolding write_lines
restart-overwrites e d l n h z hn =
    ap (λ (index : ℕ). storage_read_record true index (some n) (write_line d restored)) place
    ∙ read-write_lines (d ∷ []) restored 0 n d (omega (arith, same)) refl (omega arith) z hn
  where
    last : Log
    last = write_line e l

    restored : Log
    restored = get_index_from_flash last.log_index last

    same : restored.current_index ≡ l.current_index
    same =
        get_index_from_flash-small last.log_index last
          (omega (arith, write_line-log_index e l h, h))
        ∙ write_line-log_index e l h

    place : l.current_index ≡ (restored.current_index + 0) % 3000
    place = omega (arith, same, h)
