-- ===== src/Driver/FlagNames.antt =====
-- `flagsToString`.
use Prim.Native.Nat.{bit_and}
use emufxtool.Base.{ℕ, Bool, true, false, List, [], ◌∷◌, ◌++◌, ◌==◌, if◌then◌else◌}
use emufxtool.Base.Text.{Text}
use emufxtool.Words.{◌>>>◌, is_set}

-- The loop, on the names that are left, the flags, `first` and the text so far.
unfoldable pub flags_loop : List Text → ℕ → Bool → Text → Text
flags_loop [] flags first s = s
flags_loop (name ∷ names) flags first s =
    let bar = if first then s else s ++ 0x7c ∷ [] in
    let with_name = flags_loop names (flags >>> 1) false (bar ++ name) in
    let without = flags_loop names (flags >>> 1) first s in
    if flags == 0 then s else if is_set (bit_and flags 1) then with_name else without

-- `bitnames` is the array up to its null pointer.
unfoldable pub flags_to_string : ℕ → List Text → Text
flags_to_string flags bitnames = flags_loop bitnames flags true []
