-- ===== src/Btrfs/ChunkMap/Translation.antt =====
-- The translation of addresses of scrub-rs/src/btrfs/chunk.rs and the records it was built of.
use rotshield.Prelude.{
  ℕ, ◌+◌, ◌-◌, ◌%◌, ◌^◌, ◌≤◌, ◌<◌, ◌≡◌, refl, sym, ap, subst, ◌∙◌, ◌⊎◌, inl, inr, leb, ltb, ◌&&◌,
  Bool, true, false, Bool-cases, if◌then◌else◌, List, [], ◌∷◌, ◌++◌, map, All, All-append, Option,
  none, some, arith,
}
use rotshield.Prelude.Panics.{Panics, returns, panic}
use rotshield.Prelude.Sort.{insert_by_key, sort_by_key, All-sort_by_key}
use rotshield.Array.Config.{add_u64}
use rotshield.Btrfs.Chunk.{Stripe, ChunkRecord}
use rotshield.Btrfs.ChunkMap.{
  MapEntry, ChunkMap, empty_map, entry_of, insert, insert_all, find_entry, sub_u64, info_of, info,
  copy_at, first_copy, lookup, copies, lookup_stripes,
}
use rotshield.Btrfs.ChunkMap.Order.{
  Apart, Before, Nonempty, Ordered, AllApart, begin_of, sort-Ordered,
}
use rotshield.Btrfs.ChunkMap.Search.{hit, first_hit, search-first_hit}

-- Apart entries can be put in any order.
hit-Apart : (a : ℕ) (e d : MapEntry) → Apart e d → hit a e ≡ true → hit a d ≡ true → e ≡ d
hit-Apart a e d (inl h) p q = absurd (ground arith)
hit-Apart a e d (inr (inl h)) p q = absurd (ground arith)
hit-Apart a e d (inr (inr h)) p q = h

first_hit-insert :
    (a : ℕ) (e : MapEntry) (es : List MapEntry)
    → All (Apart e) es
    → first_hit (insert_by_key begin_of e es) a ≡ first_hit (e ∷ es) a
unfolding insert_by_key
first_hit-insert a e [] apart = refl
first_hit-insert a e (d ∷ ds) apart = elim (Bool-cases (leb e.begin d.begin)) [
  | inl le ↦ rw le refl
  | inr gt ↦
      rw gt
        (swapped (Bool-cases (hit a d)) (Bool-cases (hit a e)) (first_hit-insert a e ds apart.1))
]
  where
    swapped :
        ((hit a d ≡ true) ⊎ (hit a d ≡ false))
        → ((hit a e ≡ true) ⊎ (hit a e ≡ false))
        → first_hit (insert_by_key begin_of e ds) a ≡ first_hit (e ∷ ds) a
        → first_hit (d ∷ insert_by_key begin_of e ds) a ≡ first_hit (e ∷ d ∷ ds) a
    swapped (inl p) (inl q) h = rw p (rw q (ap some (sym (hit-Apart a e d apart.0 q p))))
    swapped (inl p) (inr q) h = rw p (rw q refl)
    swapped (inr p) (inl q) h = rw p (rw q (h ∙ rw q refl))
    swapped (inr p) (inr q) h = rw p (rw q (h ∙ rw q refl))

first_hit-sort :
    (a : ℕ) (es : List MapEntry)
    → AllApart es
    → first_hit (sort_by_key begin_of es) a ≡ first_hit es a
unfolding sort_by_key
first_hit-sort a [] h = refl
first_hit-sort a (e ∷ es) (ne, apart, rest) =
    first_hit-insert a e (sort_by_key begin_of es) (All-sort_by_key begin_of (Apart e) es apart)
    ∙ ap (λ (o : Option MapEntry). if hit a e then some e else o) (first_hit-sort a es rest)

-- The entries of the map and the records that are still to come.
abbrev or_else : Option MapEntry → Option MapEntry → Option MapEntry
or_else none o = o
or_else (some e) o = some e

first_hit-++ :
    (a : ℕ) (es fs : List MapEntry)
    → first_hit (es ++ fs) a ≡ or_else (first_hit es a) (first_hit fs a)
first_hit-++ a [] fs = refl
first_hit-++ a (e ∷ es) fs = elim (Bool-cases (hit a e)) [
  | inl p ↦ rw p refl
  | inr p ↦ rw p (first_hit-++ a es fs)
]

or_else_assoc : (x y z : Option MapEntry) → or_else (or_else x y) z ≡ or_else x (or_else y z)
or_else_assoc none y z = refl
or_else_assoc (some e) y z = refl

or_else-none : (x : Option MapEntry) → x ≡ or_else x none
or_else-none none = refl
or_else-none (some e) = refl

Before-Apart : (e : MapEntry) (es : List MapEntry) → All (Before e) es → All (Apart e) es
Before-Apart e [] h = tt
Before-Apart e (f ∷ fs) (inl b, h) = (inl b, Before-Apart e fs h)
Before-Apart e (f ∷ fs) (inr b, h) = (inr (inr b), Before-Apart e fs h)

-- An ordered map and one entry more.
AllApart-snoc :
    (es : List MapEntry) (e : MapEntry)
    → Ordered es
    → All (λ x. Apart x e) es
    → Nonempty e
    → AllApart (es ++ (e ∷ []))
AllApart-snoc [] e order apart ne = (ne, tt, tt)
AllApart-snoc (x ∷ es) e (nx, before, order) apart ne = (
  nx,
  All-append (Apart x) es (e ∷ []) (Before-Apart x es before) (apart.0, tt),
  AllApart-snoc es e order apart.1 ne,
)

-- Each of the entries is apart from all records that come.
abbrev Cross : List MapEntry → List MapEntry → Type 0
Cross es fs = All (λ x. All (Apart x) fs) es

Cross-first :
    (es : List MapEntry) (e : MapEntry) (fs : List MapEntry)
    → Cross es (e ∷ fs)
    → All (λ x. Apart x e) es
Cross-first [] e fs h = tt
Cross-first (x ∷ es) e fs h = (h.0.0, Cross-first es e fs h.1)

Cross-rest :
    (es : List MapEntry) (e : MapEntry) (fs : List MapEntry) → Cross es (e ∷ fs) → Cross es fs
Cross-rest [] e fs h = tt
Cross-rest (x ∷ es) e fs h = (h.0.1, Cross-rest es e fs h.1)

insert_all-Ordered :
    (a : ℕ) (m : ChunkMap) (recs : List ChunkRecord)
    → Ordered m.entries
    → AllApart (map entry_of recs)
    → Cross m.entries (map entry_of recs)
    → Ordered (insert_all m recs).entries
      × (first_hit (insert_all m recs).entries a
          ≡ or_else (first_hit m.entries a) (first_hit (map entry_of recs) a))
unfolding insert_all insert
insert_all-Ordered a m [] order apart cross = (order, or_else-none (first_hit m.entries a))
insert_all-Ordered a m (r ∷ recs) order (ne, first, apart) cross =
    let e = entry_of r in
    let fs = map entry_of recs in
    let snoc = AllApart-snoc m.entries e order (Cross-first m.entries e fs cross) ne in
    let (order', same) =
      insert_all-Ordered a (insert m r) recs (sort-Ordered (m.entries ++ (e ∷ [])) snoc) apart (
        All-sort_by_key begin_of (λ x. All (Apart x) fs) (m.entries ++ (e ∷ []))
          (All-append (λ x. All (Apart x) fs) m.entries (e ∷ []) (Cross-rest m.entries e fs cross)
            (first, tt))) in
    (
      order',
      same
          ∙ ap (λ (o : Option MapEntry). or_else o (first_hit fs a))
              (first_hit-sort a (m.entries ++ (e ∷ [])) snoc ∙ first_hit-++ a m.entries (e ∷ []))
          ∙ or_else_assoc (first_hit m.entries a) (first_hit (e ∷ []) a) (first_hit fs a)
          ∙ ap (or_else (first_hit m.entries a)) (sym (first_hit-++ a (e ∷ []) fs)),
    )

-- A record covers its addresses; the first of the records that covers an address.
abbrev pub covers : ℕ → ChunkRecord → Bool
covers a r = leb r.logical a && ltb a (r.logical + r.chunk.length)

abbrev pub covering : List ChunkRecord → ℕ → Option ChunkRecord
covering [] a = none
covering (r ∷ recs) a = if covers a r then some r else covering recs a

-- The addresses of the chunk are below 2^64.
abbrev pub NoWrap : ChunkRecord → Type 0
NoWrap r = r.logical + r.chunk.length < 2 ^ 64

hit-entry_of : (a : ℕ) (r : ChunkRecord) → NoWrap r → hit a (entry_of r) ≡ covers a r
unfolding add_u64
hit-entry_of a r fits =
    let end : (r.logical + r.chunk.length) % 2 ^ 64 ≡ r.logical + r.chunk.length = omega arith in
    rw end refl

abbrev entry_option : Option ChunkRecord → Option MapEntry
entry_option none = none
entry_option (some r) = some (entry_of r)

first_hit-covering :
    (a : ℕ) (recs : List ChunkRecord)
    → All NoWrap recs
    → first_hit (map entry_of recs) a ≡ entry_option (covering recs a)
first_hit-covering a [] fits = refl
first_hit-covering a (r ∷ recs) (fit, fits) = elim (Bool-cases (covers a r)) [
  | inl p ↦ rw p (rw (hit-entry_of a r fit ∙ p) refl)
  | inr p ↦ rw p (rw (hit-entry_of a r fit ∙ p) (first_hit-covering a recs fits))
]

-- Where a stripe of a record has an address, and the first of these places; a record without stripes
-- makes the lookup panic.
abbrev pub place_of : ChunkRecord → ℕ → Stripe → ℕ × ℕ
place_of r a s = (s.devid, (s.offset + (a - r.logical)) % 2 ^ 64)

abbrev pub first_place : ChunkRecord → ℕ → List Stripe → Panics (Option (ℕ × ℕ))
first_place r a [] = panic
first_place r a (s ∷ stripes) = returns (some (place_of r a s))

-- What a record says of an address: its length and flags, the first place, and all places.
abbrev pub Says : ChunkMap → ℕ → Option ChunkRecord → Type 0
Says m a none = (info m a ≡ none) × (lookup m a ≡ returns none) × (lookup_stripes m a ≡ none)
Says m a (some r) =
    (info m a ≡ some (record { length = r.chunk.length; flags = r.chunk.ty }))
    × (lookup m a ≡ first_place r a r.chunk.stripes)
    × (lookup_stripes m a ≡ some (map (place_of r a) r.chunk.stripes))

first_copy-first_place :
    (r : ChunkRecord) (a : ℕ) (stripes : List Stripe)
    → first_copy (a - r.logical) stripes ≡ first_place r a stripes
unfolding first_copy copy_at add_u64
first_copy-first_place r a [] = refl
first_copy-first_place r a (s ∷ stripes) = refl

find_entry-Says :
    (m : ChunkMap) (a : ℕ) (o : Option ChunkRecord)
    → ((r : ChunkRecord) → o ≡ some r → NoWrap r × (covers a r ≡ true))
    → find_entry m a ≡ entry_option o
    → Says m a o
unfolding info lookup lookup_stripes info_of copies copy_at sub_u64 add_u64
find_entry-Says m a none fits found =
    (rw (info, found) refl, rw (lookup, found) refl, rw (lookup_stripes, found) refl)
find_entry-Says m a (some r) fits found =
    let (fit, p) = fits r refl in
    let inside : (r.logical ≤ a) × (a < r.logical + r.chunk.length) =
      (ground arith, ground arith) in
    let length : ((r.logical + r.chunk.length) % 2 ^ 64 + 2 ^ 64 - r.logical) % 2 ^ 64
        ≡ r.chunk.length =
      omega arith in
    let log_offset : (a + 2 ^ 64 - r.logical) % 2 ^ 64 ≡ a - r.logical = omega arith in
    (
      rw (info, found) (rw length refl),
      rw (lookup, found) (rw log_offset (first_copy-first_place r a r.chunk.stripes)),
      rw (lookup_stripes, found) (rw log_offset refl),
    )

covering-covers :
    (a : ℕ) (recs : List ChunkRecord) (r : ChunkRecord)
    → All NoWrap recs
    → covering recs a ≡ some r
    → NoWrap r × (covers a r ≡ true)
covering-covers a [] r fits h = absurd (cc)
covering-covers a (x ∷ recs) r (fit, fits) h = elim (Bool-cases (covers a x)) [
  | inl p ↦
      let same : x ≡ r = cc (rw p at h) in
      subst (λ (y : ChunkRecord). NoWrap y × (covers a y ≡ true)) same (fit, p)
  | inr p ↦ covering-covers a recs r fits (rw p at h)
]

-- Let the records be inserted in any order, each as often as one likes, where two of them are the
-- same or do not overlap, none is empty, and their addresses stay below 2^64. Then the three
-- lookups give the length and the flags of the first record that covers the address, its first
-- stripe's device with the place of the address in that stripe, and these for all its stripes, and
-- find nothing where no record does.
pub insert_all-Says :
    (recs : List ChunkRecord) (a : ℕ)
    → All NoWrap recs
    → AllApart (map entry_of recs)
    → Says (insert_all empty_map recs) a (covering recs a)
unfolding find_entry
insert_all-Says recs a fits apart =
    let m = insert_all empty_map recs in
    let (order, same) = insert_all-Ordered a empty_map recs tt apart tt in
    find_entry-Says m a (covering recs a) (λ r h. covering-covers a recs r fits h)
      (search-first_hit a m.entries order ∙ same ∙ first_hit-covering a recs fits)
