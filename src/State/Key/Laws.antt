-- ===== src/State/Key/Laws.antt =====
-- Keys and their strings determine each other.
use cckit.Base.{◌≡◌, false, List, [], ◌∷◌, arith, Text, contains, All}
use cckit.Lang.Result.{ok}
use cckit.Lang.Strings.{NoSep, split-join, join-split}
use cckit.State.Stub.{Stub, CompositeKeys}
use cckit.State.Key.{Key, strings_id_to_str, strings_id_from_str, key_from_composite, key_to_string}

-- A nonempty list of parts that are free of the separator is restored from its string.
pub strings_id_from_str-strings_id_to_str :
    (p : Text) (ps : List Text)
    → All (NoSep 0) (p ∷ ps)
    → strings_id_from_str (strings_id_to_str (p ∷ ps)) ≡ p ∷ ps
unfolding strings_id_from_str strings_id_to_str
strings_id_from_str-strings_id_to_str p ps h = split-join 0 p ps h

-- Every string is the string of the parts that it is split into.
pub strings_id_to_str-strings_id_from_str :
    (s : Text) → strings_id_to_str (strings_id_from_str s) ≡ s
unfolding strings_id_from_str strings_id_to_str
strings_id_to_str-strings_id_from_str s = join-split 0 s

-- A key of one part that does not look like a composite key; any key of several parts.
abbrev pub IsPlainKey : Key → Type 0
IsPlainKey (p ∷ []) = contains p 0 ≡ false
IsPlainKey _ = Unit

module _ {S : Type 0} (stub : Stub S) (laws : CompositeKeys stub) where
  -- The key of an entry is restored from the string under which the ledger holds the entry.
  pub key_from_composite-key_to_string :
      (k : Key) (s : Text)
      → IsPlainKey k
      → key_to_string stub k ≡ ok s
      → key_from_composite stub s ≡ ok k
  unfolding key_from_composite key_to_string
  key_from_composite-key_to_string [] s plain h = cc
  key_from_composite-key_to_string (p ∷ []) s plain h = ground arith
  key_from_composite-key_to_string (p ∷ q ∷ ps) s plain h =
      ground (arith, laws.split-create p (q ∷ ps) s, laws.contains-create p (q ∷ ps) s)

  -- Two keys are held under one string only if they are the same key.
  pub key_to_string_injective :
      (k j : Key) (s : Text)
      → IsPlainKey k
      → IsPlainKey j
      → key_to_string stub k ≡ ok s
      → key_to_string stub j ≡ ok s
      → k ≡ j
  key_to_string_injective k j s pk pj hk hj =
      cc (key_from_composite-key_to_string k s pk hk, key_from_composite-key_to_string j s pj hj)
