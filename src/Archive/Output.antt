-- ===== src/Archive/Output.antt =====
-- Writing: typed values with optional tags, and chunks whose length is filled in when they close.
use Prim.Native.Nat.{bit_and}
use emufxtool.Base.{ℕ, ◌+◌, [], ◌∷◌, ◌++◌, true, false, length, if◌then◌else◌}
use emufxtool.Words.{u8, sub32, ◌>>>◌}
use emufxtool.Archive.Stream.{Bytes, write, seek}
use emufxtool.Archive.State.{Method, pure, ◌>>=◌, ◌>>◌, on_stream, change_stream, gets, modify}

-- `enum atoms`
pub data Atom : Type 0 where
  chunk_byte chunk_short chunk_long chunk_string chunk_binary : Atom

abbrev pub atom_code : Atom → ℕ
atom_code chunk_byte = 0
atom_code chunk_short = 1
atom_code chunk_long = 2
atom_code chunk_string = 3
atom_code chunk_binary = 4

-- `CHNK_MAGIC` and `EOC`
abbrev pub chnk_magic : ℕ
chnk_magic = 0x4b4e4843

abbrev pub eoc : ℕ
eoc = 0xffff

-- `sizeof(unsigned long)`
abbrev pub sizeof_long : ℕ
sizeof_long = 4

-- The arrays `b` of `writeShort` and `writeLong`.
abbrev pub short_bytes : ℕ → Bytes
short_bytes l = bit_and l 0xff ∷ bit_and (l >>> 8) 0xff ∷ []

abbrev pub long_bytes : ℕ → Bytes
long_bytes l =
    bit_and l 0xff
    ∷ bit_and (l >>> 8) 0xff
    ∷ bit_and (l >>> 8 >>> 8) 0xff
    ∷ bit_and (l >>> 8 >>> 8 >>> 8) 0xff
    ∷ []

unfoldable pub write_block : Bytes → Method (Unit {0})
unfolding write
write_block bytes = change_stream (write bytes)

unfoldable pub do_tagging : Atom → Method (Unit {0})
do_tagging tag = do
  tagging ← gets (λ a. a.tag_bit)
  if tagging
      then (do modify (λ a. record a { tag_bit = false }); write_block (atom_code tag ∷ []))
      else pure tt

unfoldable pub tag_next : Method (Unit {0})
tag_next = modify (λ a. record a { tag_bit = true })

unfoldable pub write_byte : ℕ → Method (Unit {0})
write_byte c = do do_tagging chunk_byte; write_block (u8 c ∷ [])

unfoldable pub write_short : ℕ → Method (Unit {0})
write_short l = do do_tagging chunk_short; write_block (short_bytes l)

unfoldable pub write_long : ℕ → Method (Unit {0})
write_long l = do do_tagging chunk_long; write_block (long_bytes l)

unfoldable pub write_binary : Bytes → Method (Unit {0})
write_binary bytes = do do_tagging chunk_binary; write_long (length bytes); write_block bytes

-- A C string is its characters, and is written with its closing 0.
unfoldable pub write_string : Bytes → Method (Unit {0})
write_string s = do do_tagging chunk_string; write_long (length s + 1); write_block (s ++ 0 ∷ [])

unfoldable pub new_stream : ℕ → Method (Unit {0})
unfolding seek
new_stream magic = do change_stream (seek 0); write_long chnk_magic; write_long magic

unfoldable pub close_chunk : Method (Unit {0})
unfolding seek
close_chunk = do
  here ← on_stream (λ s. (s.pos, s))
  modify (λ a. record a { chunk_end = here })
  start ← gets (λ a. a.chunk_start)
  change_stream (seek (sub32 start sizeof_long))
  write_long (sub32 here start)
  change_stream (seek here)
  modify (λ a. record a { chunk_bit = false; chunk_id = 0 })

unfoldable pub new_chunk : ℕ → Method (Unit {0})
new_chunk id = do
  inside ← gets (λ a. a.chunk_bit)
  if inside then close_chunk else pure tt
  modify (λ a. record a { chunk_id = id })
  write_short id
  write_long 0
  start ← on_stream (λ s. (s.pos, s))
  modify (λ a. record a { chunk_start = start; chunk_bit = true })

unfoldable pub close_stream : Method (Unit {0})
close_stream = do new_chunk eoc; close_chunk
