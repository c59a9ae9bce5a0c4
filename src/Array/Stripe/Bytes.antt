-- ===== src/Array/Stripe/Bytes.antt =====
-- The bytes that `read_block_or_zeros` of scrub-rs/src/array/stripe.rs returns.
use rotshield.Prelude.{
  ℕ, zero, suc, ◌+◌, ◌-◌, ◌≤◌, ◌<◌, min, ◌≡◌, refl, ap, subst, Option, none, ◌∙◌, leb, false,
  Bool-cases, ◌⊎◌, inl, inr, List, [], ◌∷◌, ◌++◌, some, length, replicate, take, drop, All, arith,
}
use rotshield.Prelude.Io.{
  IoError, IoResult, ok, err, open_failed, metadata_failed, ioctl_failed, read_failed, ◌>>=◌,
}
use rotshield.Recovery.Model.{Block}
use rotshield.Recovery.Engine.Blocks.{IsBlock, zeros-IsBlock}
use rotshield.Array.Config.{FilePath, ArrayConfig, raw_offset_for, add_u64}
use rotshield.Array.Stripe.{
  Device, Devices, open_dev, device_size, read_within, read_device, read_block_or_zeros,
}

abbrev pub byte_at : List ℕ → ℕ → ℕ
byte_at [] i = 0
byte_at (x ∷ xs) zero = x
byte_at (x ∷ xs) (suc i) = byte_at xs i

byte_at-drop : (k i : ℕ) (xs : List ℕ) → byte_at (drop k xs) i ≡ byte_at xs (k + i)
byte_at-drop zero i xs = ap (byte_at xs) (omega arith)
byte_at-drop (suc k) i [] = refl
byte_at-drop (suc k) i (x ∷ xs) =
    let e : suc k + i ≡ suc (k + i) = omega arith in rw e (byte_at-drop k i xs)

byte_at-replicate : (n i : ℕ) → byte_at (replicate n 0) i ≡ 0
byte_at-replicate zero i = refl
byte_at-replicate (suc n) zero = refl
byte_at-replicate (suc n) (suc i) = byte_at-replicate n i

length-drop : (k : ℕ) (xs : List ℕ) → length (drop k xs) ≡ length xs - k
length-drop zero xs = omega arith
length-drop (suc k) [] = omega arith
length-drop (suc k) (x ∷ xs) = omega (arith, length-drop k xs)

-- As many bytes as are there, filled up with zeros.
byte_at-padded :
    (a n i : ℕ) (xs : List ℕ)
    → a ≡ min (length xs) n
    → i < n
    → byte_at (take a xs ++ replicate (n - a) 0) i ≡ byte_at xs i
byte_at-padded zero n i [] h p = byte_at-replicate (n - zero) i
byte_at-padded zero n i (x ∷ xs) h p = absurd (omega arith)
byte_at-padded (suc a) n i [] h p = absurd (omega arith)
byte_at-padded (suc a) zero i (x ∷ xs) h p = absurd (omega arith)
byte_at-padded (suc a) (suc n) zero (x ∷ xs) h p = refl
byte_at-padded (suc a) (suc n) (suc i) (x ∷ xs) h p =
    let e : suc n - suc a ≡ n - a = omega arith in
    rw e (byte_at-padded a n i xs (omega arith) (omega arith))

padded-IsBlock :
    (a n : ℕ) (xs : List ℕ)
    → a ≡ min (length xs) n
    → All (λ x. x < 256) xs
    → IsBlock n (take a xs ++ replicate (n - a) 0)
padded-IsBlock zero n xs h w = let e : n - zero ≡ n = omega arith in rw e (zeros-IsBlock n)
padded-IsBlock (suc a) n [] h w = absurd (omega arith)
padded-IsBlock (suc a) zero (x ∷ xs) h w = absurd (omega arith)
padded-IsBlock (suc a) (suc n) (x ∷ xs) h w =
    let e : suc n - suc a ≡ n - a = omega arith in
    rw e (w.0, padded-IsBlock a n xs (omega arith) w.1)

All-drop : (k : ℕ) (xs : List ℕ) → All (λ x. x < 256) xs → All (λ x. x < 256) (drop k xs)
All-drop zero xs h = h
All-drop (suc k) [] h = tt
All-drop (suc k) (x ∷ xs) h = All-drop k xs h.1

past_end : (k i : ℕ) (xs : List ℕ) → length xs ≤ k → byte_at xs (k + i) ≡ 0
past_end k i [] h = refl
past_end zero i (x ∷ xs) h = absurd (omega arith)
past_end (suc k) i (x ∷ xs) h =
    let e : suc k + i ≡ suc (k + i) = omega arith in rw e (past_end k i xs (omega arith))

abbrev pub HoldsBytes : Device → Type 0
HoldsBytes device = All (λ x. x < 256) device.contents

-- A block of n bytes, each the device's byte at its offset, and 0 past the end.
abbrev pub IsRead : Device → ℕ → ℕ → Block → Type 0
IsRead device raw n b =
    IsBlock n b × ((i : ℕ) → i < n → byte_at b i ≡ byte_at device.contents (raw + i))

read_within-IsRead :
    (device : Device) (raw n : ℕ) (b : Block)
    → HoldsBytes device
    → read_within device raw n (length device.contents) ≡ ok b
    → IsRead device raw n b
unfolding read_within
read_within-IsRead device raw n b h e = elim (Bool-cases (leb (length device.contents) raw)) [
  | inl past ↦
      let same : replicate n 0 ≡ b = unwrap (rw past at e) in
      let over : length device.contents ≤ raw = ground arith in
      rw (← same) (zeros-IsBlock n, λ i p. byte_at-replicate n i ∙ sym_past i over)
  | inr inside ↦ elim (Bool-cases (device.read_fails raw a)) [
    | inl fails ↦ absurd (cc (rw (inside, fails) at e))
    | inr fine ↦
        let same : take a (drop raw device.contents) ++ replicate (n - a) 0 ≡ b =
          unwrap (rw (inside, fine) at e) in
        rw (← same) (
          padded-IsBlock a n (drop raw device.contents) size (All-drop raw device.contents h),
          λ i p.
              byte_at-padded a n i (drop raw device.contents) size p
              ∙ byte_at-drop raw i device.contents,
        )
  ]
]
  where
    a : ℕ
    a = min (length device.contents - raw) n

    size : a ≡ min (length (drop raw device.contents)) n
    size =
        ap (λ (t : ℕ). min t n)
          (let e : length device.contents - raw ≡ length (drop raw device.contents) =
              omega (arith, length-drop raw device.contents) in
            e)

    unwrap : {x y : Block} → ok x ≡ ok y → x ≡ y
    unwrap f = cc

    sym_past : (i : ℕ) → length device.contents ≤ raw → 0 ≡ byte_at device.contents (raw + i)
    sym_past i over = let e = past_end raw i device.contents over in rw e refl

-- The device can tell its size, and it is read past its end or answers.
abbrev pub TellsSize : Device → Type 0
TellsSize device =
    (device.metadata_fails ≡ false)
    × ((device.is_block_device ≡ false) ⊎ (device.capacity_fails ≡ false))

abbrev pub Answers : Device → ℕ → ℕ → Type 0
Answers device raw n =
    (length device.contents ≤ raw)
    ⊎ (device.read_fails raw (min (length device.contents - raw) n) ≡ false)

device_size_cases :
    (device : Device)
    → (TellsSize device × (device_size device ≡ ok (length device.contents)))
      ⊎ (¬ TellsSize device × ((e : IoError) × (device_size device ≡ err e)))
unfolding device_size
device_size_cases device = elim (Bool-cases device.metadata_fails) [
  | inl lost ↦ inr (λ h. cc, (metadata_failed, rw lost refl))
  | inr known ↦ elim (Bool-cases device.is_block_device) [
    | inr file ↦ inl ((known, inl file), rw (known, file) refl)
    | inl block ↦ elim (Bool-cases device.capacity_fails) [
      | inl lost ↦ inr (
        λ h. elim h.1 [ inl file ↦ cc | inr tells ↦ cc ],
        (ioctl_failed, rw (known, block, lost) refl),
      )
      | inr tells ↦ inl ((known, inr tells), rw (known, block, tells) refl)
    ]
  ]
]

read_within_cases :
    (device : Device) (raw n : ℕ)
    → (Answers device raw n
        × ((b : Block) × (read_within device raw n (length device.contents) ≡ ok b)))
      ⊎ (¬ Answers device raw n
          × ((e : IoError) × (read_within device raw n (length device.contents) ≡ err e)))
unfolding read_within
read_within_cases device raw n = elim (Bool-cases (leb (length device.contents) raw)) [
  | inl past ↦ inl (inl (ground arith), (replicate n 0, rw past refl))
  | inr inside ↦ elim (Bool-cases (device.read_fails raw (min (length device.contents - raw) n))) [
    | inl fails ↦ inr (
      λ h. elim h [ inl past ↦ ground arith | inr fine ↦ cc ],
      (read_failed, rw (inside, fails) refl),
    )
    | inr fine ↦ inl (
      inr fine,
      (
        take (min (length device.contents - raw) n) (drop raw device.contents)
            ++ replicate (n - min (length device.contents - raw) n) 0,
        rw (inside, fine) refl,
      ),
    )
  ]
]

-- What a read of a path gives: a block says that the path opens, that the device tells its size and
-- answers, and what the bytes are; an error, that it is not so.
abbrev pub ReadOf : Option Device → ℕ → ℕ → IoResult Block → Type 0
ReadOf none raw n (ok b) = ⊥
ReadOf none raw n (err e) = Unit
ReadOf (some device) raw n (ok b) = TellsSize device × Answers device raw n × IsRead device raw n b
ReadOf (some device) raw n (err e) = ¬ (TellsSize device × Answers device raw n)

read_device-ReadOf :
    (device : Device) (raw n : ℕ)
    → HoldsBytes device
    → ReadOf (some device) raw n (read_device device raw n)
unfolding read_device
read_device-ReadOf device raw n bytes = elim (device_size_cases device) [
  | inr (lost, (e, sized)) ↦ rw sized (λ h. lost h.0)
  | inl (tells, sized) ↦ elim (read_within_cases device raw n) [
    | inl (answers, (b, reads)) ↦
        rw (sized, reads) (tells, answers, read_within-IsRead device raw n b bytes reads)
    | inr (silent, (e, reads)) ↦ rw (sized, reads) (λ h. silent h.1)
  ]
]

pub read_device-IsRead :
    (device : Device) (raw n : ℕ) (b : Block)
    → HoldsBytes device
    → read_device device raw n ≡ ok b
    → IsRead device raw n b
read_device-IsRead device raw n b bytes e =
    (subst (ReadOf (some device) raw n) e (read_device-ReadOf device raw n bytes)).2

-- Let the device at the path, if there is one, hold bytes. Then the read of a block of n bytes
-- gives a block just when the path opens, the device tells its size, and it either ends before the
-- block or answers the read of what lies inside it; each byte of the block is then the device's
-- byte at its offset, and 0 past the end. In every other case the read gives an error, and never
-- zeros.
pub read_block_or_zeros_lem :
    (devices : Devices) (config : ArrayConfig) (path : FilePath) (phys n : ℕ)
    → ((device : Device) → devices path ≡ some device → HoldsBytes device)
    → ReadOf
        (devices path)
        (add_u64 phys (raw_offset_for config path))
        n
        (read_block_or_zeros devices config path phys n)
unfolding read_block_or_zeros open_dev
read_block_or_zeros_lem devices config path phys n bytes = go (devices path) bytes
  where
    start : ℕ
    start = add_u64 phys (raw_offset_for config path)

    go :
        (o : Option Device)
        → ((device : Device) → o ≡ some device → HoldsBytes device)
        → ReadOf o start n (
            elim o [ none ↦ err open_failed | some device ↦ ok device ] >>= λ device.
            read_device device start n)
    go none bytes = tt
    go (some device) bytes = read_device-ReadOf device start n (bytes device refl)
