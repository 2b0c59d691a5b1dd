-- ===== src/Archive/Input.antt =====
-- Reading: typed values, and chunks that are entered, left or skipped.
use emufxtool.Base.{ℕ, ◌+◌, ◌*◌, ◌^◌, Bool, true, false, ◌==◌, length, get_or, if◌then◌else◌}
use emufxtool.Words.{u16, u32, add32}
use emufxtool.Archive.Stream.{Bytes, read, seek, skip}
use emufxtool.Archive.State.{
  Method, beyond_end, pure, throw, ◌>>=◌, ◌>>◌, on_stream, change_stream, gets, modify,
}
use emufxtool.Archive.Output.{chnk_magic}

-- The values of the arrays `b` of `readShort` and `readLong`.
abbrev pub short_value : Bytes → ℕ
short_value b = u16 (get_or b 0 0 + get_or b 1 0 * 2 ^ 8)

abbrev pub long_value : Bytes → ℕ
long_value b =
    u32 (get_or b 0 0 + get_or b 1 0 * 2 ^ 8 + get_or b 2 0 * 2 ^ 16 + get_or b 3 0 * 2 ^ 24)

unfoldable pub read_block : ℕ → Method Bytes
unfolding read
read_block size = do
  found ← on_stream (read size)
  if length found == size then pure found else throw beyond_end

unfoldable pub read_byte : Method ℕ
read_byte = do b ← read_block 1; pure (get_or b 0 0)

unfoldable pub read_short : Method ℕ
read_short = do b ← read_block 2; pure (short_value b)

unfoldable pub read_long : Method ℕ
read_long = do b ← read_block 4; pure (long_value b)

unfoldable pub read_binary : Method Bytes
read_binary = do size ← read_long; read_block size

-- `readString` is `readBinary`: the block, its closing 0 included.
unfoldable pub read_string : Method Bytes
read_string = read_binary

-- What `readAny` returns, with its two results by pointer: the type byte and the size. The source
-- returns a block as the number of its address.
pub data Any : Type 0 where
  number : ℕ → ℕ → ℕ → Any
  block : ℕ → ℕ → Bytes → Any

unfoldable pub read_any : Method Any
read_any = do
  id ← read_byte
  if id == 0
      then (do v ← read_byte; pure (number id 1 v))
      else if id == 1
      then (do v ← read_short; pure (number id 2 v))
      else if id == 2
      then (do v ← read_long; pure (number id 4 v))
      else if id == 3
      then (do b ← read_string; pure (block id (length b) b))
      else if id == 4
      then (do b ← read_binary; pure (block id (length b) b))
      else pure (number id 0 0)

unfoldable pub validate_stream : ℕ → Method Bool
unfolding seek
validate_stream magic = do
  change_stream (seek 0)
  first ← read_long
  if first == chnk_magic then (do second ← read_long; pure (second == magic)) else pure false

unfoldable pub next_chunk : Method ℕ
next_chunk = read_short

unfoldable pub skip_chunk : Method (Unit {0})
unfolding skip
skip_chunk = do change_stream (λ s. s); size ← read_long; change_stream (skip size)

unfoldable pub begin_chunk : Method ℕ
begin_chunk = do
  change_stream (λ s. s)
  size ← read_long
  modify (λ a. record a { chunk_bit = true })
  start ← on_stream (λ s. (s.pos, s))
  modify (λ a. record a { chunk_start = start; chunk_end = add32 start size })
  pure size

unfoldable pub end_chunk : Method (Unit {0})
unfolding seek
end_chunk = do
  change_stream (λ s. s)
  inside ← gets (λ a. a.chunk_bit)
  if inside
      then (do
        there ← gets (λ a. a.chunk_end)
        change_stream (seek there)
        modify (λ a. record a { chunk_bit = false }))
      else pure tt
