-- ===== src/Symbols/FlagLaws.antt =====
-- Flag words and properties: what is set is read, and nothing else changes.
use Prim.Native.Nat.{bit_and}
use emufxtool.Base.{
  ℕ, ◌^◌, ◌<◌, ◌≡◌, refl, Bool, true, false, Option, none, some, [], if◌then◌else◌, ap, ◌∙◌,
  Option-cases, inl, inr,
}
use emufxtool.Base.Text.{Text, text_eq, text_key}
use emufxtool.Base.Table.{lookup, insert, lookup-insert}
use emufxtool.Words.{complement}
use emufxtool.Words.Algebra.{merge_masked, merge_kept}
use emufxtool.Symbols.Values.{
  get_flags, set_flags, Property, property_string, property_number, PropertyType, none_type,
  number_type, string_type, PropertyList, has_property, set_property, get_property_type,
  get_string_property, get_number_property,
}

-- Words of 32 bits: the flags under the mask are those of the values, and all others are as they
-- were.
pub get_flags-set_flags :
    (flags mask values : ℕ)
    → flags < 2 ^ 32
    → mask < 2 ^ 32
    → values < 2 ^ 32
    → (get_flags (set_flags flags mask values) mask ≡ bit_and values mask)
      × (get_flags (set_flags flags mask values) (complement mask)
          ≡ get_flags flags (complement mask))
unfolding get_flags set_flags
get_flags-set_flags flags mask values hf hm hv =
    (merge_masked 32 flags mask values hf hm hv, merge_kept 32 flags mask values hf hm hv)

-- What a list of properties knows of a name.
pub record Known : Type 0 where
  pub there : Bool
  pub kind : PropertyType
  pub text : Text
  pub number : ℕ

abbrev pub known : PropertyList → Text → Known
known p name = record {
  there = has_property p name;
  kind = get_property_type p name;
  text = get_string_property p name;
  number = get_number_property p name;
}

-- What it is to know of a property.
abbrev pub known_of : Property → Known
known_of (property_string s) = record { there = true; kind = string_type; text = s; number = 0 }
known_of (property_number n) = record { there = true; kind = number_type; text = []; number = n }

known_by : Option Property → Known
known_by none = record { there = false; kind = none_type; text = []; number = 0 }
known_by (some v) = known_of v

known-lookup : (p : PropertyList) (name : Text) → known p name ≡ known_by (lookup name p)
unfolding has_property get_property_type get_string_property get_number_property known_by
known-lookup p name = elim (Option-cases (lookup name p)) [
  | inl absent ↦
      rw (absent, has_property, get_property_type, get_string_property, get_number_property)
  | inr (property_string s, found) ↦
      rw (found, has_property, get_property_type, get_string_property, get_number_property)
  | inr (property_number n, found) ↦
      rw (found, has_property, get_property_type, get_string_property, get_number_property)
]

known-lookup_if :
    (b : Bool) (v : Property) (o : Option Property)
    → known_by (if b then some v else o) ≡ (if b then known_of v else known_by o)
unfolding known_by
known-lookup_if true v o = refl
known-lookup_if false v o = refl

-- Setting a property tells whether there was one of that name; then the name has the new property
-- with its type, text and number, and everything known of any other name is as it was.
pub known-set_property :
    (p : PropertyList) (name other : Text) (value : Property)
    → ((set_property p name value).0 ≡ has_property p name)
      × (known (set_property p name value).1 other
          ≡ (if text_eq name other then known_of value else known p other))
unfolding set_property
known-set_property p name other value = (
  refl,
  known-lookup (insert name value p) other
      ∙ (ap known_by (lookup-insert name other value p)
          ∙ (rw (known-lookup p other)
              (known-lookup_if (text_eq name other) value (lookup other p)))),
)
