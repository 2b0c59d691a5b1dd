-- ===== src/Symbols/InitializerLaws.antt =====
-- Initializers: their flags say what they hold.
use Prim.Native.Nat.{bit_and, bit_or}
use emufxtool.Base.{
  ℕ, zero, suc, ◌+◌, ◌^◌, ◌<◌, ◌≡◌, refl, ap, sym, ◌∙◌, Bool, true, false, List, [], ◌∷◌, ◌++◌,
  ◌==◌, length as length_of, length-append, get_or, arith, if◌then◌else◌,
}
use emufxtool.Words.{add32, complement, is_set}
use emufxtool.Words.Algebra.{
  or_small, and_small, and_assoc, merge, merge_masked, or_and_absorb, and_or_distribute,
}
use emufxtool.Words.Bits.{or-zero, zero-and}
use emufxtool.Flags.{v_value, v_address, v_fixed, v_array}
use emufxtool.Symbols.Values.{has_value, has_address}
use emufxtool.Symbols.Initializers.{
  Initializer, get_address, get_initial_value, n_values, set_array_flag, add_value,
  set_fixed_address, set_address,
}

-- Setting one flag leaves another as it was.
or_other :
    (f v m : ℕ) → f < 2 ^ 32 → v < 2 ^ 32 → bit_and v m ≡ 0 → bit_and (bit_or f v) m ≡ bit_and f m
or_other f v m hf hv apart =
    and_or_distribute 32 f v m hf hv
    ∙ (ap (λ t. bit_or (bit_and f m) t) apart ∙ or-zero (bit_and f m))

-- The flags fit a word, and say whether there is a value and whether there are several.
pub record IsInitializer (i : Initializer) : Type 0 where
  pub word : i.flags < 2 ^ 32
  pub value_flag : 0 < n_values i → has_value i.flags ≡ true
  pub array_flag : 1 < n_values i → is_set (bit_and i.flags v_array) ≡ true

-- What adding a value establishes.
pub record IsAdded (i : Initializer) (v : ℕ) (i' : Initializer) : Type 0 where
  pub well_formed : IsInitializer i'
  pub count : n_values i' ≡ n_values i + 1
  pub values :
      (k : ℕ) → get_initial_value i' k ≡ (if k == n_values i then v else get_initial_value i k)
  pub address_flag : has_address i'.flags ≡ has_address i.flags

get_or-snoc :
    (xs : List ℕ) (v k : ℕ)
    → get_or (xs ++ v ∷ []) k 0 ≡ (if k == length_of xs then v else get_or xs k 0)
get_or-snoc [] v zero = refl
get_or-snoc [] v (suc k) = ground arith
get_or-snoc (x ∷ xs) v zero = ground arith
get_or-snoc (x ∷ xs) v (suc k) = ground (arith, get_or-snoc xs v k)

or_set : (a b : ℕ) → a < 2 ^ 32 → b < 2 ^ 32 → is_set b ≡ true → is_set (bit_or a b) ≡ true
or_set a b ha hb set = ground (arith, set, or_and_absorb 32 a b ha hb, zero-and b)

-- A flag that is set with others.
flag_set :
    (f v m : ℕ)
    → f < 2 ^ 32
    → v < 2 ^ 32
    → is_set (bit_and v m) ≡ true
    → is_set (bit_and (bit_or f v) m) ≡ true
flag_set f v m hf hv set =
    rw (and_or_distribute 32 f v m hf hv)
      (or_set (bit_and f m) (bit_and v m) (and_small 32 f m hf) (and_small 32 v m hv) set)

-- Clearing a flag clears it, and leaves the others.
flag_cleared : (f m : ℕ) → f < 2 ^ 32 → m < 2 ^ 32 → bit_and (bit_and f (complement m)) m ≡ 0
flag_cleared f m hf hm =
    let merged : merge 32 f m 0 ≡ bit_and f (complement m) =
      ap (λ t. bit_or (bit_and f (complement m)) t) (zero-and m) ∙ or-zero _ in
    ap (λ t. bit_and t m) (sym merged) ∙ (merge_masked 32 f m 0 hf hm (omega arith) ∙ zero-and m)

-- On an initializer whose flags say what it holds, with fewer than 2 ^ 31 values, adding a value
-- puts it behind the others, which stay, keeps the flags right and leaves the address flag.
pub add_value-IsAdded :
    (i : Initializer) (v : ℕ) → IsInitializer i → n_values i < 2 ^ 31 → IsAdded i v (add_value v i)
unfolding n_values add_value get_initial_value has_value has_address set_array_flag
add_value-IsAdded i v wf room =
    let size = length-append i.initial_values (v ∷ []) in
    let f1 = bit_or i.flags v_value in
    let small : f1 < 2 ^ 32 = or_small 32 i.flags v_value wf.word (omega arith) in
    let value_on = or_and_absorb 32 i.flags v_value wf.word (omega arith) in
    let array_on = or_and_absorb 32 f1 v_array small (omega arith) in
    let value_stays = or_other f1 v_array v_value small (omega arith) refl in
    let address_stays = or_other i.flags v_value v_address wf.word (omega arith) refl in
    let address_still = or_other f1 v_array v_address small (omega arith) refl in
    record {
      well_formed = record {
        word = ground (arith, small, or_small 32 f1 v_array small);
        value_flag = λ h. ground (arith, value_on, value_stays);
        array_flag = λ h. ground (arith, size, h, array_on);
      };
      count = ground (arith, size);
      values = λ k. ground (arith, size, room, get_or-snoc i.initial_values v k);
      address_flag = ground (arith, address_stays, address_still);
    }

-- What giving an address establishes: the flags of a fixed address are as `fixed` says.
pub record IsPlaced (i : Initializer) (v : ℕ) (fixed : Bool) (i' : Initializer) : Type 0 where
  pub there : has_address i'.flags ≡ true
  pub address : (offset : ℕ) → get_address i' offset ≡ add32 v offset
  pub fixed_flag : is_set (bit_and i'.flags v_fixed) ≡ fixed
  pub values : (k : ℕ) → get_initial_value i' k ≡ get_initial_value i k
  pub value_flag : has_value i'.flags ≡ has_value i.flags
  pub array_flag : bit_and i'.flags v_array ≡ bit_and i.flags v_array

-- Both ways of giving an initializer an address set it and leave its values and their flags alone;
-- one marks the address as fixed, the other clears that mark.
pub set_address-IsPlaced :
    (i : Initializer) (v : ℕ)
    → i.flags < 2 ^ 32
    → IsPlaced i v true (set_fixed_address v i) × IsPlaced i v false (set_address v i)
unfolding set_fixed_address set_address get_address get_initial_value has_address has_value
set_address-IsPlaced i v word =
    let f1 = bit_and i.flags (complement v_fixed) in
    let small : f1 < 2 ^ 32 = and_small 32 i.flags (complement v_fixed) word in
    let both = bit_or v_fixed v_address in
    (
      record {
        there = flag_set i.flags both v_address word (omega arith) refl;
        address = λ offset. refl;
        fixed_flag = flag_set i.flags both v_fixed word (omega arith) refl;
        values = λ k. refl;
        value_flag = rw (or_other i.flags both v_value word (omega arith) refl);
        array_flag = or_other i.flags both v_array word (omega arith) refl;
      },
      record {
        there = flag_set f1 v_address v_address small (omega arith) refl;
        address = λ offset. refl;
        fixed_flag = rw (
          or_other f1 v_address v_fixed small (omega arith) refl,
          flag_cleared i.flags v_fixed word (omega arith),
        );
        values = λ k. refl;
        value_flag = rw (
          or_other f1 v_address v_value small (omega arith) refl,
          and_assoc 32 i.flags (complement v_fixed) v_value word,
        );
        array_flag =
            or_other f1 v_address v_array small (omega arith) refl
            ∙ and_assoc 32 i.flags (complement v_fixed) v_array word;
      },
    )
