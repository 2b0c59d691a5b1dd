-- ===== src/Archive/Stream.antt =====
-- `chunkStreamFILE`: an open `FILE *` as its bytes and its position. Writes do not fail, and a
-- position that `fseek` cannot set leaves the stream where it was.
use emufxtool.Base.{
  ℕ, zero, suc, ◌+◌, ◌-◌, ◌^◌, List, [], ◌∷◌, ◌++◌, length, take, drop, is_empty, ltb, leb,
  if◌then◌else◌,
}

abbrev pub Bytes : Type 0
Bytes = List ℕ

pub record Stream : Type 0 where
  pub bytes : Bytes
  pub pos : ℕ

-- The file after `ds` is written at a position; a gap behind the end fills with zeros.
unfoldable pub write_at : ℕ → Bytes → Bytes → Bytes
write_at zero ds xs = ds ++ drop (length ds) xs
write_at (suc p) ds [] = 0 ∷ write_at p ds []
write_at (suc p) ds (x ∷ xs) = x ∷ write_at p ds xs

-- `fread`
unfoldable pub read : ℕ → Stream → Bytes × Stream
read size s =
    let found = take size (drop s.pos s.bytes) in (found, record s { pos = s.pos + length found })

-- `fwrite`; of no bytes it changes nothing.
unfoldable pub write : Bytes → Stream → Stream
unfolding write_at
write ds s =
    if is_empty ds then s else record { bytes = write_at s.pos ds s.bytes; pos = s.pos + length ds }

-- `fseek(F, where, SEEK_SET)`, where the `long` is not negative.
unfoldable pub seek : ℕ → Stream → Stream
seek where_to s = if ltb where_to (2 ^ 31) then record s { pos = where_to } else s

-- `fseek(F, amount, SEEK_CUR)`: an amount with the top bit set is a negative `long`.
unfoldable pub skip : ℕ → Stream → Stream
skip amount s =
    if ltb amount (2 ^ 31)
    then record s { pos = s.pos + amount }
    else if leb (2 ^ 32 - amount) s.pos
    then record s { pos = s.pos - (2 ^ 32 - amount) }
    else s
