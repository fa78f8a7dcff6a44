-- ===== src/Tests/Capitals.antt =====
-- The theorems on automatic capitals and on the anchor of the text service, at concrete inputs.
use nexus_key.Base.{
  ◌<◌, ◌⊎◌, Bool, ℕ, zero, suc, ◌+◌, ◌*◌, ◌≤◌, ◌≡◌, refl, true, false, not, all, length, take, List,
  [], ◌∷◌, arith,
}
use nexus_key.AutoCap.{ready_to_capitalize}
use nexus_key.AutoCap.Context.{derive_anchor, is_white, derive_anchor-syllable}
use nexus_key.AutoCap.Seqlock.{
  Shared, Step, returned, Reach, fresh, started, onward, begin_write, write_field, end_write,
  see_stable, copy_field, stable, writing, trying, copying, put, field_count, Reach-no_torn_read,
}
use nexus_key.AutoCap.Retries.{left, Reach-CanReturn}
use nexus_key.AutoCap.Agreement.{Press, Writing}

abbrev key : ℕ → ℕ → ℕ → Press
key vk char count = record { vk = vk; shift = false; char = char; count = count }

-- An empty document, and the state after Enter.
abbrev blank_page : Writing
blank_page = record { state = ready_to_capitalize; count = 0; before = [] }

abbrev sentence : List Press
sentence = key 0x41 b'a' 1 ∷ key 0xBE b'.' 0 ∷ key 0x20 b' ' 0 ∷ []

-- "Ok. anh" before the caret, the nearest character first.
abbrev before_caret : List ℕ
before_caret = b'h' ∷ b'n' ∷ b'a' ∷ b' ' ∷ b'.' ∷ b'k' ∷ b'O' ∷ []

derive_anchor-syllable_example :
    let a = derive_anchor before_caret in
    (a.syllable_len ≡ length a.current_syllable)
    × (a.syllable_len ≤ 16)
    × (take a.syllable_len before_caret ≡ a.current_syllable)
    × (all (λ c. not (is_white c)) a.current_syllable ≡ true)
    × (a.is_word_start ≡ true → a.syllable_len ≡ 0)
derive_anchor-syllable_example = derive_anchor-syllable before_caret

abbrev published_values : ℕ → ℕ → ℕ
published_values n i = 100 * n + i

-- One publication, and then a reader.
abbrev after_writes : ℕ → Shared
after_writes zero = record (fresh published_values) { writer = writing 0 0 }
after_writes (suc j) = record (after_writes j) {
  writer = writing 0 (suc j);
  fields = put j (published_values 1 j) ((after_writes j).fields);
}

abbrev after_reads : ℕ → Shared
after_reads zero = record (after_writes field_count) { writer = stable 1; reader = copying 0 1 0 }
after_reads (suc k) = record (after_reads k) {
  reader = copying 0 1 (suc k);
  copy = put k ((after_reads k).fields k) ((after_reads k).copy);
}

after_writes_writer : (j : ℕ) → (after_writes j).writer ≡ writing 0 j
after_writes_writer zero = refl
after_writes_writer (suc j) = refl

after_writes-Reach : (j : ℕ) → j ≤ field_count → Reach published_values (after_writes j)
after_writes-Reach zero h = onward started (begin_write (fresh published_values) 0 refl)
after_writes-Reach (suc j) h =
    onward (after_writes-Reach j (omega (arith, h)))
      (write_field (after_writes j) 0 j (after_writes_writer j) (omega (arith, h)))

after_reads_reader : (k : ℕ) → (after_reads k).reader ≡ copying 0 1 k
after_reads_reader zero = refl
after_reads_reader (suc k) = refl

after_writes_trying : (j : ℕ) → (after_writes j).reader ≡ trying 0
after_writes_trying zero = refl
after_writes_trying (suc j) = after_writes_trying j

after_reads-Reach : (k : ℕ) → k ≤ field_count → Reach published_values (after_reads k)
after_reads-Reach zero h =
    let s = after_writes field_count in
    let done =
      onward (after_writes-Reach field_count (omega arith))
        (end_write s 0 (after_writes_writer field_count)) in
    onward done (
      see_stable (record s { writer = stable 1 }) 0 1 (after_writes_trying field_count)
        (omega arith) refl)
after_reads-Reach (suc k) h =
    onward (after_reads-Reach k (omega (arith, h)))
      (copy_field (after_reads k) 0 1 k (after_reads_reader k) (omega (arith, h)))

Reach-no_torn_read_example : (after_reads field_count).copy 5 ≡ published_values 1 5
Reach-no_torn_read_example =
    Reach-no_torn_read published_values (after_reads field_count) 0 1 5
      (after_reads-Reach field_count (omega arith)) refl refl (omega arith) (omega arith)

Reach-CanReturn_example :
    let s = after_reads 7 in
    (left ((fresh published_values).reader) ≡ 70)
    × ((u : Shared)
        → Step published_values s u
        → (u.reader ≡ s.reader) ⊎ (left u.reader < left s.reader))
    × (((result : Bool) × (s.reader ≡ returned result))
        ⊎ ((u : Shared) × Step published_values s u × (left u.reader < left s.reader)))
Reach-CanReturn_example =
    Reach-CanReturn published_values (after_reads 7) (after_reads-Reach 7 (omega arith))
