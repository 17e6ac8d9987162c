-- ===== src/Dir/Roundtrip.antt =====
-- src/logical/dir.c: the bytes that the entries of a directory are written to, and the entries that are
-- read from them.
use simple_file_system.Base.{
  ℕ, zero, suc, ◌+◌, ◌-◌, ◌%◌, ◌^◌, ◌<◌, ◌≤◌, ◌≡◌, refl, sym, ap, ◌∙◌, true, false, List, [], ◌∷◌,
  arith, Bytes, copy, byte_of_u32, u32_word, ltb, leb, ◌==◌, lt→ltb, le→ltb, le→leb, lt→leb, ne→==,
}
use simple_file_system.Base.Text.{Text, length, char_at}
use simple_file_system.Dir.{
  Dentry, dentry_bytes, calculate_record_length, dentry_create, byte_of_dentry, inode_id_at,
  record_length_at, text_at, count_records, read_records, parse_entries, total_size, fill_entries,
}

-- The characters of a name.
abbrev pub AreCharacters : Text → Type 0
AreCharacters [] = Unit {0}
AreCharacters (c ∷ s) = (0 < c) × AreCharacters s

-- What fs_dentry_create makes of a name that fs_dir_validate_name accepts.
pub record IsEntry (e : Dentry) : Type 0 where
  pub id_bound : e.inode_id < 2 ^ 32
  pub characters : AreCharacters e.name
  pub name_bound : length e.name < 256
  pub created : e ≡ dentry_create e.inode_id e.name

abbrev pub AreEntries : List Dentry → Type 0
AreEntries [] = Unit {0}
AreEntries (e ∷ es) = IsEntry e × AreEntries es

-- The record of an entry has room for its fields, its name and the end mark.
pub record_length-room :
    (e : Dentry) → IsEntry e → (9 + length e.name ≤ e.record_length) × (e.record_length < 2 ^ 16)
unfolding dentry_create
record_length-room e h =
    let q : e.record_length ≡ calculate_record_length (length e.name % 2 ^ 16) % 2 ^ 16 =
      ap (λ (d : Dentry). d.record_length) h.created in
    rw (q) (omega (arith, h.name_bound), omega (arith, h.name_bound))

-- A copy changes nothing in front of the place that it is made to.
copy-below :
    (b : Bytes) (at : ℕ) (source : Bytes) (from count i : ℕ)
    → i < at
    → copy b at source from count i ≡ b i
unfolding copy
copy-below b at source from count i h = ground arith

copy-inside :
    (b : Bytes) (at : ℕ) (source : Bytes) (count i : ℕ)
    → i < count
    → copy b at source 0 count (at + i) ≡ source i
unfolding copy
copy-inside b at source count i h =
    let e : 0 + (at + i - at) ≡ i = omega arith in
    rw (le→leb at (at + i) (omega arith), lt→ltb (at + i) (at + count) (omega arith)) (ap source e)

-- A string is read where its characters and the end mark stand.
text_at-string :
    (b : Bytes) (room o : ℕ) (s : Text)
    → AreCharacters s
    → length s < room
    → ((i : ℕ) → i ≤ length s → b (o + i) ≡ char_at s i)
    → text_at b room o ≡ s
unfolding text_at char_at length
text_at-string b zero o s c r h = absurd (omega arith)
text_at-string b (suc room) o [] c r h =
    let e : b o ≡ 0 = ap b (omega arith) ∙ h 0 (omega arith) in rw (e) refl
text_at-string b (suc room) o (a ∷ s) (p, c) r h =
    let e : b o ≡ a = ap b (omega arith) ∙ h 0 (omega arith) in
    let f : (a == 0) ≡ false = ne→== a 0 (λ q. omega arith) in
    let rest =
      text_at-string b room (o + 1) s c (omega arith)
        (λ i l. ap b (omega arith) ∙ h (suc i) (omega arith)) in
    rw (e, f) (ap (λ t. a ∷ t) rest)

-- What is written before a place is kept.
fill_entries-below :
    (es : List Dentry) (at : ℕ) (b : Bytes) (i : ℕ) → i < at → fill_entries es at b i ≡ b i
unfolding fill_entries copy
fill_entries-below [] at b i h = refl
fill_entries-below (e ∷ es) at b i h =
    fill_entries-below es (at + e.record_length) (copy b at (byte_of_dentry e) 0 e.record_length) i
      (omega arith)
    ∙ copy-below b at (byte_of_dentry e) 0 e.record_length i h

-- The bytes of the first entry.
fill_entries-first :
    (e : Dentry) (es : List Dentry) (at : ℕ) (b : Bytes) (i : ℕ)
    → i < e.record_length
    → fill_entries (e ∷ es) at b (at + i) ≡ byte_of_dentry e i
unfolding fill_entries copy
fill_entries-first e es at b i h =
    fill_entries-below es (at + e.record_length) (copy b at (byte_of_dentry e) 0 e.record_length)
      (at + i) (omega arith)
    ∙ copy-inside b at (byte_of_dentry e) e.record_length i h

-- A buffer that holds the bytes of an entry at a place.
abbrev HoldsAt : Bytes → ℕ → Dentry → Type 0
HoldsAt b o e = (i : ℕ) → i < e.record_length → b (o + i) ≡ byte_of_dentry e i

-- The fields are read where an entry stands.
record_length-held :
    (b : Bytes) (o : ℕ) (e : Dentry)
    → IsEntry e
    → HoldsAt b o e
    → record_length_at b o ≡ e.record_length
unfolding byte_of_dentry byte_of_u32
record_length-held b o e w h =
    let (l, u) = record_length-room e w in
    let q4 = h 4 (omega arith) in let q5 = h 5 (omega arith) in omega arith

inode_id-held :
    (b : Bytes) (o : ℕ) (e : Dentry) → IsEntry e → HoldsAt b o e → inode_id_at b o ≡ e.inode_id
unfolding byte_of_dentry byte_of_u32
inode_id-held b o e w h =
    let (l, u) = record_length-room e w in
    let q0 : b o ≡ e.inode_id % 256 = ap b (omega arith) ∙ h 0 (omega arith) in
    let q1 = h 1 (omega arith) in
    let q2 = h 2 (omega arith) in
    let q3 = h 3 (omega arith) in rw (q0, q1, q2, q3) (u32_word e.inode_id w.id_bound)

byte_of_dentry-name : (e : Dentry) (i : ℕ) → byte_of_dentry e (8 + i) ≡ char_at e.name i
unfolding byte_of_dentry
byte_of_dentry-name e i =
    let below : (k : ℕ) → k ≤ 8 → ltb (8 + i) k ≡ false = λ k h. le→ltb (8 + i) k (omega arith) in
    let q : 8 + i - 8 ≡ i = omega arith in
    rw (below 4 (omega arith), below 6 (omega arith), below 8 (omega arith), q) refl

name-held :
    (b : Bytes) (o room : ℕ) (e : Dentry)
    → IsEntry e
    → HoldsAt b o e
    → e.record_length ≤ room + dentry_bytes
    → text_at b room (o + dentry_bytes) ≡ e.name
unfolding byte_of_dentry
name-held b o room e w h r =
    let (l, u) = record_length-room e w in
    text_at-string b room (o + 8) e.name w.characters (omega arith)
      (λ i k. ap b (omega arith) ∙ h (8 + i) (omega arith) ∙ byte_of_dentry-name e i)

-- The entry that is read where one stands.
entry-held :
    (b : Bytes) (o room : ℕ) (e : Dentry)
    → IsEntry e
    → HoldsAt b o e
    → e.record_length ≤ room + dentry_bytes
    → dentry_create (inode_id_at b o) (text_at b room (o + dentry_bytes)) ≡ e
entry-held b o room e w h r =
    rw (inode_id-held b o e w h, name-held b o room e w h r) (sym w.created)

-- A buffer that holds the bytes of entries one behind the other from a place on.
abbrev pub HoldsAll : Bytes → ℕ → List Dentry → Type 0
HoldsAll b at [] = Unit {0}
HoldsAll b at (e ∷ es) = HoldsAt b at e × HoldsAll b (at + e.record_length) es

-- The loop that reads, from where the entries stand on.
read_records-held :
    (size : ℕ) (es : List Dentry) (at : ℕ) (b : Bytes)
    → AreEntries es
    → HoldsAll b at es
    → at + total_size es ≤ size
    → read_records size b (length es) at ≡ es
unfolding read_records length total_size
read_records-held size [] at b w h l = refl
read_records-held size (e ∷ es) at b (v, w) (held, h) l =
    let first = entry-held b at (size - (at + dentry_bytes)) e v held (omega arith) in
    let rest = read_records-held size es (at + e.record_length) b w h (omega arith) in
    rw (record_length-held b at e v held, first, rest) refl

-- The loop that counts finds all of them.
count_records-held :
    (size rounds : ℕ) (es : List Dentry) (at : ℕ) (b : Bytes)
    → AreEntries es
    → HoldsAll b at es
    → at + total_size es ≡ size
    → total_size es ≤ rounds
    → count_records size b rounds at ≡ length es
unfolding count_records length total_size
count_records-held size zero [] at b w h q r = refl
count_records-held size (suc rounds) [] at b w h q r =
    let f : leb size at ≡ true = le→leb size at (omega arith) in rw (f) refl
count_records-held size zero (e ∷ es) at b (v, w) h q r =
    let (l, u) = record_length-room e v in absurd (omega arith)
count_records-held size (suc rounds) (e ∷ es) at b (v, w) (held, h) q r =
    let (l, u) = record_length-room e v in
    let inside : leb size at ≡ false = lt→leb size at (omega arith) in
    let fits : ltb size (at + dentry_bytes) ≡ false =
      le→ltb size (at + dentry_bytes) (omega arith) in
    let some_bytes : (e.record_length == 0) ≡ false = ne→== e.record_length 0 (λ q. omega arith) in
    let rest =
      count_records-held size rounds es (at + e.record_length) b w h (omega arith) (omega arith) in
    rw (record_length-held b at e v held, inside, fits, some_bytes) (ap suc rest)

-- What is written is held, also by a buffer that only agrees with it as far as the entries go.
fill_entries-HoldsAll :
    (es : List Dentry) (at : ℕ) (b c : Bytes)
    → ((i : ℕ) → i < at + total_size es → c i ≡ fill_entries es at b i)
    → HoldsAll c at es
unfolding total_size fill_entries
fill_entries-HoldsAll [] at b c h = tt
fill_entries-HoldsAll (e ∷ es) at b c h = (
  λ i l. h (at + i) (omega arith) ∙ fill_entries-first e es at b i l,
  fill_entries-HoldsAll es (at + e.record_length) (copy b at (byte_of_dentry e) 0 e.record_length) c
      (λ i l. h i (omega arith)),
)

-- A buffer that agrees with the one that entries are written to gives the entries.
pub parse_entries-agree :
    (es : List Dentry) (b c : Bytes)
    → AreEntries es
    → ((i : ℕ) → i < total_size es → c i ≡ fill_entries es 0 b i)
    → parse_entries (total_size es) c ≡ es
unfolding parse_entries
parse_entries-agree es b c w h =
    let n = total_size es in
    let held = fill_entries-HoldsAll es 0 b c (λ i l. h i (omega arith)) in
    rw (count_records-held n n es 0 c w held (omega arith) (omega arith))
      (read_records-held n es 0 c w held (omega arith))

-- Entries as fs_dentry_create makes them of names below 256 characters and inode ids below 2 ^ 32, written
-- to a buffer as save_directory_entries does and read from it again as load_and_parse_directory_entries
-- does, are the same.
pub parse_entries-fill :
    (es : List Dentry) (b : Bytes)
    → AreEntries es
    → parse_entries (total_size es) (fill_entries es 0 b) ≡ es
parse_entries-fill es b w = parse_entries-agree es b (fill_entries es 0 b) w (λ i l. refl)
