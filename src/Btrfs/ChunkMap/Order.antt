-- ===== src/Btrfs/ChunkMap/Order.antt =====
-- The order of the entries of the chunk map of scrub-rs/src/btrfs/chunk.rs.
use rotshield.Prelude.{
  ℕ, ◌≤◌, ◌<◌, ◌≡◌, sym, subst, ◌⊎◌, inl, inr, leb, Bool-cases, List, [], ◌∷◌, All, arith,
}
use rotshield.Prelude.Sort.{insert_by_key, sort_by_key, All-insert_by_key, All-sort_by_key}
use rotshield.Btrfs.ChunkMap.{MapEntry}

-- Two chunks do not overlap, or are the same.
abbrev pub Apart : MapEntry → MapEntry → Type 0
Apart e f = (e.end ≤ f.begin) ⊎ ((f.end ≤ e.begin) ⊎ (e ≡ f))

abbrev pub Before : MapEntry → MapEntry → Type 0
Before e f = (e.end ≤ f.begin) ⊎ (e ≡ f)

abbrev pub Nonempty : MapEntry → Type 0
Nonempty e = e.begin < e.end

-- Ascending entries, with duplicates side by side.
abbrev pub Ordered : List MapEntry → Type 0
Ordered [] = Unit
Ordered (e ∷ es) = Nonempty e × All (Before e) es × Ordered es

abbrev pub AllApart : List MapEntry → Type 0
AllApart [] = Unit
AllApart (e ∷ es) = Nonempty e × All (Apart e) es × AllApart es

abbrev pub begin_of : MapEntry → ℕ
begin_of e = e.begin

Before-trans : (e d f : MapEntry) → Nonempty d → Before e d → Before d f → Before e f
Before-trans e d f some_byte (inl a) (inl b) = inl (omega arith)
Before-trans e d f some_byte (inl a) (inr b) = inl (subst (λ (x : MapEntry). e.end ≤ x.begin) b a)
Before-trans e d f some_byte (inr a) h = subst (λ (x : MapEntry). Before x f) (sym a) h

All-Before :
    (e d : MapEntry) (fs : List MapEntry)
    → Nonempty d
    → Before e d
    → All (Before d) fs
    → All (Before e) fs
All-Before e d [] some_byte h hs = tt
All-Before e d (f ∷ fs) some_byte h hs =
    (Before-trans e d f some_byte h hs.0, All-Before e d fs some_byte h hs.1)

-- Which of two chunks comes first.
Apart-Before :
    (e d : MapEntry) → Nonempty e → Nonempty d → Apart e d → e.begin ≤ d.begin → Before e d
Apart-Before e d ne nd (inl a) h = inl a
Apart-Before e d ne nd (inr (inl a)) h = absurd (omega arith)
Apart-Before e d ne nd (inr (inr a)) h = inr a

Before-Apart_after :
    (e d : MapEntry) → Nonempty e → Nonempty d → Apart e d → d.begin < e.begin → Before d e
Before-Apart_after e d ne nd (inl a) h = absurd (omega arith)
Before-Apart_after e d ne nd (inr (inl a)) h = inl a
Before-Apart_after e d ne nd (inr (inr a)) h = inr (sym a)

insert-Ordered :
    (e : MapEntry) (es : List MapEntry)
    → Nonempty e
    → All (Apart e) es
    → Ordered es
    → Ordered (insert_by_key begin_of e es)
unfolding insert_by_key
insert-Ordered e [] ne apart h = (ne, tt, tt)
insert-Ordered e (d ∷ ds) ne apart (nd, first, rest) = elim (Bool-cases (leb e.begin d.begin)) [
  | inl le ↦
      let here = Apart-Before e d ne nd apart.0 (ground arith) in
      rw le (ne, (here, All-Before e d ds nd here first), (nd, first, rest))
  | inr gt ↦
      let here = Before-Apart_after e d ne nd apart.0 (ground arith) in
      rw gt (
        nd,
        All-insert_by_key begin_of (Before d) e ds here first,
        insert-Ordered e ds ne apart.1 rest,
      )
]

pub sort-Ordered : (es : List MapEntry) → AllApart es → Ordered (sort_by_key begin_of es)
unfolding sort_by_key
sort-Ordered [] h = tt
sort-Ordered (e ∷ es) (ne, apart, rest) =
    insert-Ordered e (sort_by_key begin_of es) ne (All-sort_by_key begin_of (Apart e) es apart)
      (sort-Ordered es rest)
