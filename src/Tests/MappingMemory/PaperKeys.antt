-- ===== src/Tests/MappingMemory/PaperKeys.antt =====
-- The keys of papers on the peer of the tests: what stands there is read at its type.
use cckit.Base.{
  ◌≡◌, refl, ap, sym, ◌∙◌, subst, ℕ, Bool, true, false, Bool-cases, inl, inr, List, [], ◌∷◌, Text,
  codes, text_eq, find, contains, All-of-In,
}
use cckit.CPaperService.{paper_of, empty_paper}
use cckit.CPaperService.Indexed.{KeepsPapers}
use cckit.CPaperService.Mapped.{
  key_of_paper, paper_key, mappings, mapped_paper, mapped_id, paper_mapping, paper-IsMapped,
  id-IsMapped,
}
use cckit.CPaperService.Messages.{
  CommercialPaper, Message, paper, paper_id, paper_list, issuing, buying, redeeming, reflect,
  messages, type_name,
}
use cckit.Lang.Exec.{Exec}
use cckit.Lang.Result.{Result, ok, ok-injective}
use cckit.Lang.Value.{obj, strs}
use cckit.Mapping.Events.{EventArg}
use cckit.Mapping.Filled.Promises.{impl_promises}
use cckit.Mapping.Filled.Writing.{Fits, Stores}
use cckit.Mapping.KeyRefs.{mapped_key}
use cckit.Mapping.KeyRefs.Laws.{ref_key_of}
use cckit.Mapping.MappedState.{target_of_mapping}
use cckit.Mapping.MappedState.Writes.{IsTyped}
use cckit.Mapping.Schema.{Entity, app, key_ref, key_ref_id, Schema, KeyRef}
use cckit.Mapping.StateMappings.{ProtoStateMapped, map_entry, map_key, get_by_namespace, key_eq}
use cckit.Mapping.StateMappings.{get as get_mapping}
use cckit.Mapping.Views.{key_eq_sound}
use cckit.State.Key.{Key}
use cckit.State.Key.Laws.{IsPlainKey}
use cckit.Tests.MappingMemory.{Peer, peer}
use cckit.Tests.MappingMemory.Papers.{
  lib, show, kit, target_at, promises, paper-full, ref-full, marshals,
}

abbrev is_ok : {A : Type 0} → Result A → Bool
is_ok (ok a) = true
is_ok _ = false

abbrev mapped_entry : Schema (Message ℕ) → Result (ProtoStateMapped (Message ℕ))
mapped_entry e = map_entry (messages lib) show (reflect lib) e (mappings lib show)

abbrev first_of : Key → Text
first_of [] = []
first_of (p ∷ ps) = p

plain : (l : List Text) → IsPlainKey (codes "CommercialPaper" ∷ l)
unfolding contains
plain [] = refl
plain (p ∷ ps) = tt

-- A key that begins with the name of papers is read as a paper.
paper-Fits :
    (l : List Text)
    → Fits
        (messages lib)
        show
        (reflect lib)
        peer
        target_at
        (codes "CommercialPaper" ∷ l)
        (paper_of lib show (empty_paper lib show))
unfolding text_eq
paper-Fits l = (plain l, (app (paper (empty_paper lib show)), refl, refl))

-- The target of a mapping fits the keys of its entries.
abbrev IsFit : ProtoStateMapped (Message ℕ) → Key → Type 0
IsFit pm k =
    Fits (messages lib) show (reflect lib) peer target_at k
      (target_of_mapping pm.state_mapper pm.state_mapper.keyer_for_schema)

IsFit-of :
    (pm pm' : ProtoStateMapped (Message ℕ)) (k k' : Key)
    → ◌≡◌ {A = Result (ProtoStateMapped (Message ℕ))} (ok pm) (ok pm')
    → mapped_key (messages lib) show (reflect lib) pm ≡ ok k
    → mapped_key (messages lib) show (reflect lib) pm' ≡ ok k'
    → IsFit pm k
    → IsFit pm' k'
IsFit-of pm pm' k k' same ke ke' fit =
    let e = ok-injective same in
    let key : k ≡ k' =
      ok-injective (sym ke ∙ ap (mapped_key (messages lib) show (reflect lib)) e ∙ ke') in
    subst (λ p. IsFit p k') e (subst (IsFit pm) key fit)

unmapped :
    (e : Schema (Message ℕ)) (pm : ProtoStateMapped (Message ℕ))
    → is_ok (mapped_entry e) ≡ false
    → ¬ (mapped_entry e ≡ ok pm)
unmapped e pm h a = let f = sym h ∙ ap is_ok a in cc

strs-Fits :
    (l : List Text) (pm : ProtoStateMapped (Message ℕ)) (k : Key)
    → mapped_entry (strs (codes "CommercialPaper" ∷ l)) ≡ ok pm
    → mapped_key (messages lib) show (reflect lib) pm ≡ ok k
    → IsFit pm k
unfolding map_entry get_mapping get_by_namespace mapped_key text_eq key_eq
strs-Fits l pm k e ke =
    IsFit-of
      (record {
        instance_ = strs (codes "CommercialPaper" ∷ l);
        state_mapper = paper_mapping lib show;
      })
      pm (codes "CommercialPaper" ∷ l) k e refl ke (paper-Fits l)

strs_missed :
    (n : Text) (l : List Text)
    → key_eq (codes "CommercialPaper" ∷ []) (n ∷ []) ≡ false
    → is_ok (mapped_entry (strs (n ∷ l))) ≡ false
unfolding map_entry get_mapping get_by_namespace
strs_missed n l h = rw h refl

typed_target :
    (entry : Schema (Message ℕ)) (pm : ProtoStateMapped (Message ℕ)) (k : Key)
    → mapped_entry entry ≡ ok pm
    → mapped_key (messages lib) show (reflect lib) pm ≡ ok k
    → IsFit pm k
unfolding map_entry get_mapping map_key find text_eq messages type_name
typed_target (obj (app (paper c))) pm k e ke =
    IsFit-of (mapped_paper lib show c) pm (key_of_paper c) k
      (sym (paper-IsMapped lib show c).is_mapped ∙ e) (paper-IsMapped lib show c).key ke
      (paper-Fits (c.issuer ∷ c.paper_number ∷ []))
typed_target (obj (app (paper_id i))) pm k e ke =
    IsFit-of (mapped_id lib show i) pm (paper_key i.issuer i.paper_number) k
      (sym (id-IsMapped lib show i).is_mapped ∙ e) (id-IsMapped lib show i).key ke
      (paper-Fits (i.issuer ∷ i.paper_number ∷ []))
typed_target (strs []) pm k e ke = absurd (unmapped (strs []) pm refl e)
typed_target (strs (n ∷ l)) pm k e ke =
    elim (Bool-cases (key_eq (codes "CommercialPaper" ∷ []) (n ∷ []))) [
      | inl same ↦
          let first : codes "CommercialPaper" ≡ n =
            ap first_of (key_eq_sound (codes "CommercialPaper" ∷ []) (n ∷ []) same) in
          strs-Fits l pm k (subst (λ p. mapped_entry (strs (p ∷ l)) ≡ ok pm) (sym first) e) ke
      | inr other ↦ absurd (unmapped (strs (n ∷ l)) pm (strs_missed n l other) e)
    ]
typed_target (obj (app (paper_list l))) pm k e ke =
    absurd (unmapped (obj (app (paper_list l))) pm refl e)
typed_target (obj (app (issuing d))) pm k e ke = absurd (unmapped (obj (app (issuing d))) pm refl e)
typed_target (obj (app (buying d))) pm k e ke = absurd (unmapped (obj (app (buying d))) pm refl e)
typed_target (obj (app (redeeming d))) pm k e ke =
    absurd (unmapped (obj (app (redeeming d))) pm refl e)
typed_target (obj (key_ref r)) pm k e ke = absurd (unmapped (obj (key_ref r)) pm refl e)
typed_target (obj (key_ref_id r)) pm k e ke = absurd (unmapped (obj (key_ref_id r)) pm refl e)
typed_target v pm k e ke = absurd (unmapped v pm refl e)

ref-Stores :
    (r : KeyRef)
    → Stores (messages lib) show (reflect lib) peer target_at (ref_key_of r) (key_ref r)
unfolding text_eq messages type_name
ref-Stores r = (tt, refl, λ bb h. ref-full r bb (marshals (key_ref r) bb h))

paper-Stores :
    (c : CommercialPaper ℕ)
    → Stores (messages lib) show (reflect lib) peer target_at (key_of_paper c) (app (paper c))
unfolding text_eq messages type_name
paper-Stores c = (tt, refl, λ bb h. paper-full c bb (marshals (app (paper c)) bb h))

pub typed : IsTyped (messages lib) show (reflect lib) kit (mappings lib show) promises
unfolding promises impl_promises
typed = record {
  target = typed_target;
  refs = λ entry pm rs e re. All-of-In rs (λ r i. ref-Stores r);
}

pub keeps :
    (set_event : EventArg (Entity (Message ℕ)) → List (Schema (Message ℕ)) → Exec Peer (Unit {0}))
    → KeepsPapers lib show kit set_event promises
unfolding promises impl_promises
keeps set_event = record { typed = typed; kept = λ c full. paper-Stores c }
