-- ===== src/Tests/MappingMemory/Codec.antt =====
-- A serialisation for the tests, as golang/protobuf is outside the repository: texts, each with a 0
-- behind it.
use cckit.Base.{◌≡◌, refl, ap, ◌∙◌, is_empty, false, ℕ, zero, suc, List, [], ◌∷◌, Text, Bytes}
use cckit.Mapping.Schema.{KeyRef}

unfoldable pub text_then : Text → Bytes → Bytes
text_then [] rest = 0 ∷ rest
text_then (c ∷ t) rest = suc c ∷ text_then t rest

unfoldable pub written : List Text → Bytes
unfolding text_then
written [] = []
written (t ∷ ts) = text_then t (written ts)

abbrev pub onto : ℕ → List Text → List Text
onto n [] = (n ∷ []) ∷ []
onto n (t ∷ ts) = (n ∷ t) ∷ ts

unfoldable pub read : Bytes → List Text
read [] = []
read (zero ∷ b) = [] ∷ read b
read (suc n ∷ b) = onto n (read b)

read-text_then : (t : Text) (b : Bytes) → read (text_then t b) ≡ t ∷ read b
unfolding read text_then
read-text_then [] b = refl
read-text_then (c ∷ t) b = rw (read-text_then t b) refl

pub read-written : (ts : List Text) → read (written ts) ≡ ts
unfolding read written
read-written [] = refl
read-written (t ∷ ts) = read-text_then t (written ts) ∙ ap (λ l. t ∷ l) (read-written ts)

-- schema.KeyRef
abbrev pub texts_of_ref : KeyRef → List Text
texts_of_ref r = r.schema ∷ r.idx ∷ written r.ref_key ∷ written r.p_key ∷ []

unfoldable pub ref_of_texts : List Text → KeyRef
unfolding read
ref_of_texts (a ∷ b ∷ c ∷ d ∷ _) = record { schema = a; idx = b; ref_key = read c; p_key = read d }
ref_of_texts _ = record { schema = []; idx = []; ref_key = []; p_key = [] }

pub ref_of_texts-texts_of_ref : (r : KeyRef) → ref_of_texts (texts_of_ref r) ≡ r
unfolding ref_of_texts
ref_of_texts-texts_of_ref r = rw (read-written r.ref_key, read-written r.p_key) refl

pub is_empty-written : (t : Text) (ts : List Text) → is_empty (written (t ∷ ts)) ≡ false
unfolding written
is_empty-written [] ts = refl
is_empty-written (c ∷ t) ts = refl
