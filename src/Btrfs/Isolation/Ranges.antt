-- ===== src/Btrfs/Isolation/Ranges.antt =====
-- Ranges of bytes: how many regions, and how many sectors of a list, contain a byte.
use native.Mathlib.Nat.{suc-mul, add-mul, zero-mul, mod-eq_of_lt}
use rotshield.Prelude.{
  ℕ, zero, suc, ◌+◌, ◌*◌, ◌^◌, ◌<◌, ◌≡◌, sym, ◌∙◌, leb, ltb, ◌&&◌, if◌then◌else◌, List, [], ◌∷◌,
  ◌++◌, length, arith,
}
use rotshield.Recovery.Model.{Block}
use rotshield.Array.Config.{add_u64}
use rotshield.Btrfs.Isolation.{push_sectors}

pub add_u64_small : (a b : ℕ) → a + b < 2 ^ 64 → add_u64 a b ≡ a + b
unfolding add_u64
add_u64_small a b h = mod-eq_of_lt h

-- The start of a sector inside a range that does not overflow.
pub sector_start :
    (sz s o p : ℕ) → (s + o + p) * sz < 2 ^ 64 → add_u64 (s * sz) (o * sz) ≡ (s + o) * sz
sector_start sz s o p lt =
    let f = add-mul s o sz in
    let g = add-mul (s + o) p sz in
    let bound : s * sz + o * sz < 2 ^ 64 = omega arith in
    add_u64_small (s * sz) (o * sz) bound ∙ sym f

-- 1 for the bytes of the range, 0 for the others.
unfoldable pub within : ℕ → ℕ → ℕ → ℕ
within start len x = if leb start x && ltb x (start + len) then 1 else 0

pub within_joins : (a b c x : ℕ) → within a b x + within (a + b) c x ≡ within a (b + c) x
unfolding within
within_joins a b c x = ground arith

pub within_empty : (a x : ℕ) → within a 0 x ≡ 0
unfolding within
within_empty a x = ground arith

unfoldable pub hits : List (ℕ × Block) → ℕ → ℕ
hits [] x = 0
hits ((o, buf) ∷ regions) x = within o (length buf) x + hits regions x

unfoldable pub lost : ℕ → List ℕ → ℕ → ℕ
lost sz [] x = 0
lost sz (o ∷ sectors) x = within o sz x + lost sz sectors x

pub hits-append :
    (regions : List (ℕ × Block)) (o : ℕ) (buf : Block) (x : ℕ)
    → hits (regions ++ (o, buf) ∷ []) x ≡ hits regions x + within o (length buf) x
unfolding hits
hits-append [] o buf x = omega arith
hits-append ((p, b) ∷ regions) o buf x = omega (arith, hits-append regions o buf x)

pub lost-append :
    (sz : ℕ) (sectors : List ℕ) (o x : ℕ)
    → lost sz (sectors ++ o ∷ []) x ≡ lost sz sectors x + within o sz x
unfolding lost
lost-append sz [] o x = omega arith
lost-append sz (p ∷ sectors) o x = omega (arith, lost-append sz sectors o x)

-- The sectors from the (s + i)-th on are pushed one by one.
pub push_sectors-lost :
    (sz s i n : ℕ) (bad : List ℕ) (x : ℕ)
    → (s + i + n) * sz < 2 ^ 64
    → lost sz (push_sectors (s * sz) sz i n bad) x
      ≡ lost sz bad x + within ((s + i) * sz) (n * sz) x
unfolding push_sectors
push_sectors-lost sz s i zero bad x lt =
    let e = within_empty ((s + i) * sz) x in rw (zero-mul sz, e) (omega arith)
push_sectors-lost sz s i (suc n) bad x lt =
    rw (start) (push_sectors-lost sz s (suc i) n (bad ++ (s + i) * sz ∷ []) x next ∙ joined)
  where
    start : add_u64 (s * sz) (i * sz) ≡ (s + i) * sz
    start = sector_start sz s i (suc n) lt

    next : (s + suc i + n) * sz < 2 ^ 64
    next = let e : s + suc i + n ≡ s + i + suc n = omega arith in rw e lt

    joined :
        lost sz (bad ++ (s + i) * sz ∷ []) x + within ((s + suc i) * sz) (n * sz) x
        ≡ lost sz bad x + within ((s + i) * sz) (suc n * sz) x
    joined =
        let a = lost-append sz bad ((s + i) * sz) x in
        let b = within_joins ((s + i) * sz) sz (n * sz) x in
        let c : s + suc i ≡ suc (s + i) = omega arith in
        let d : suc n * sz ≡ sz + n * sz = omega (arith, suc-mul n sz) in
        rw (a, c, suc-mul (s + i) sz, d) (omega (arith, b))
