-- ===== src/Patch/Load.antt =====
-- `emuPatch::Load`. An exception ends it; what it leaves of the image then is not kept. A text that
-- has no 0 ends at the end of its block.
use emufxtool.Base.{
  ℕ, zero, suc, ◌+◌, true, false, Option, none, some, List, [], ◌∷◌, ◌++◌, ◌==◌, if◌then◌else◌,
}
use emufxtool.Base.Text.{Text, c_string}
use emufxtool.Base.Table.{Table, nat_key, insert}
use emufxtool.Archive.State.{Method, pure, ◌>>=◌, ◌>>◌}
use emufxtool.Archive.Output.{eoc}
use emufxtool.Archive.Input.{
  read_byte, read_short, read_long, read_string, validate_stream, next_chunk, skip_chunk,
  begin_chunk, end_chunk,
}
use emufxtool.Image.Data.{RegisterImage, Code, Control, new_control_of, Export, Image}
use emufxtool.Patch.Format.{
  ch_hdr, ch_init, ch_comment, ch_code, ch_controls, ch_symbols, sub_magic,
}

-- The loops count their rounds down from `n`.
unfoldable pub read_registers : ℕ → Table ℕ RegisterImage → Method (Table ℕ RegisterImage)
read_registers zero registers = pure registers
read_registers (suc n) registers = do
  base_addr ← read_short
  value ← read_long
  flags ← read_long
  read_registers n
      (insert base_addr (record { address = base_addr; value = value; flags = flags }) registers)

unfoldable pub read_code : ℕ → ℕ → List Code → Method (List Code)
read_code zero i code = pure code
read_code (suc n) i code = do
  lo ← read_long
  hi ← read_long
  read_code n (i + 1) (code ++ record { hi = hi; lo = lo; pc = i } ∷ [])

unfoldable pub read_controls : ℕ → List Control → Method (List Control)
read_controls zero controls = pure controls
read_controls (suc n) controls = do
  name ← read_string
  flags ← read_long
  gpr ← read_short
  count ← read_short
  min ← read_long
  max ← read_long
  ttable ← read_byte
  index ← read_byte
  read_controls n
      (controls ++ new_control_of (c_string name) flags gpr count min max ttable index ∷ [])

unfoldable pub read_exports : ℕ → List Export → Method (List Export)
read_exports zero exports = pure exports
read_exports (suc n) exports = do
  name ← read_string
  flags ← read_long
  addr ← read_short
  count ← read_short
  read_exports n (
      exports
      ++ record { symbol = c_string name; flags = flags; address = addr; count = count } ∷ [])

-- The loop over the comments ends at an empty text; `none` means that the fuel ran out. The result
-- is what is printed.
unfoldable pub read_comments : ℕ → List Text → Method (Option (List Text))
read_comments zero printed = pure none
read_comments (suc fuel) printed = do
  block ← read_string
  elim (c_string block) [
    | [] ↦ pure (some printed)
    | c ∷ cs ↦ read_comments fuel (printed ++ (c ∷ cs) ∷ [])
  ]

-- The image so far, and the comments printed so far.
pub record Loading : Type 0 where
  pub image : Image
  pub printed : List Text

abbrev pub in_chunk {ℓ κ} : {A : Type ℓ} {B : Type κ} → Method A → (A → B) → Method B
in_chunk m g = begin_chunk >>= λ _. m >>= λ t. end_chunk >> pure (g t)

-- The `switch` on the number of the chunk.
unfoldable pub load_chunk : ℕ → ℕ → Loading → Method (Option Loading)
load_chunk fuel chunk_id l =
    let img = l.image in
    if chunk_id == ch_hdr
    then in_chunk {A = Unit {0}} (pure tt) (λ _. some l)
    else if chunk_id == ch_init
    then in_chunk (read_short >>= λ n. read_registers n [])
        (λ t. some (record l { image = record img { registers = t } }))
    else if chunk_id == ch_code
    then in_chunk (read_short >>= λ n. read_code n 0 [])
        (λ t. some (record l { image = record img { code = t } }))
    else if chunk_id == ch_controls
    then in_chunk (read_short >>= λ n. read_controls n [])
        (λ t. some (record l { image = record img { controls = t } }))
    else if chunk_id == ch_symbols
    then in_chunk (read_short >>= λ n. read_exports n [])
        (λ t. some (record l { image = record img { exports = t } }))
    else if chunk_id == ch_comment
    then in_chunk (read_comments fuel l.printed)
        (elim [ none ↦ none | some t ↦ some (record l { printed = t }) ])
    else (skip_chunk >>= λ _. pure (some l))

-- The loop over the chunks, on fuel.
unfoldable pub load_chunks : ℕ → Loading → Method (Option Loading)
load_chunks zero l = pure none
load_chunks (suc fuel) l = do
  chunk_id ← next_chunk
  elim (chunk_id == eoc) [
    | true ↦ pure (some l)
    | false ↦
        load_chunk fuel chunk_id l >>= elim [ none ↦ pure none | some l' ↦ load_chunks fuel l' ]
  ]

-- How `Load` returns: 0, 1 with what it has loaded, or not within the fuel.
pub data Loaded : Type 0 where
  not_a_patch out_of_fuel : Loaded
  loaded : Loading → Loaded

abbrev pub finish : Option Loading → Loaded
finish none = out_of_fuel
finish (some l) = loaded l

unfoldable pub load : ℕ → Image → Method Loaded
load fuel img = do
  valid ← validate_stream sub_magic
  if valid
      then (load_chunks fuel (record { image = img; printed = [] }) >>= λ r. pure (finish r))
      else pure not_a_patch
