-- ===== src/Tests/CPaperTests.antt =====
-- Tests of the commercial papers, and their theorems at concrete inputs: a paper of MagnetoCorp.
use cckit.Base.{
  ◌≡◌, ◌⊎◌, ◌↔◌, refl, ap, sym, ◌∙◌, subst, ℕ, zero, suc, [], ◌∷◌, ◌++◌, Text, Bytes, codes,
  text_eq, find, store, contains, length, take, drop, take-append_length, drop-append_length,
}
use cckit.Convert.{to_bytes, from_bytes}
use cckit.CPaper.{
  CommercialPaper, Library, IssueCommercialPaper, BuyCommercialPaper, RedeemCommercialPaper, papers,
  paper_of, current, issue, buy, redeem, bought, redeemed, issued_paper,
}
use cckit.CPaper.History.{IsFinal, ledger-Reaches, ledger-redeemed, ledger-redeem}
use cckit.CPaper.Ledger.{AreSound, Ledger, start, next, issues, buys, redeems, ledger-AreSound}
use cckit.CPaper.Lifecycle.{Reaches, HasTerms}
use cckit.CPaper.Sale.{IsOnSale, sold_to, paid_by, buy_iff}
use cckit.CPaper.Store.{KeepsPapers}
use cckit.Lang.Error.{external, message, noted}
use cckit.Lang.Result.{Result, ok, err, ok-injective, on_err, on_err-eq-ok, >>=-eq-ok}
use cckit.Lang.Value.{Value, obj, ℤ, pos, negsuc}
use cckit.State.Cached.{WithTxCache, with_cache, cached_put, cached_get, stub_of}
use cckit.State.Cached.Laws.{with_cache-ReadsWrites}
use cckit.State.Impl.{Impl, new_state, get, exists, put, insert, key_of, put_args, arg_key_value}
use cckit.State.Impl.Laws.{Decodes}
use cckit.State.Key.{
  strings_id_to_str, strings_id_from_str, key_to_string, key_from_composite, normalize_key,
}
use cckit.Lang.Strings.{join, split}
use cckit.Tests.Memory.Composite.{create, split_key}
use cckit.State.Transformer.{convert_from_bytes, convert_to_bytes}
use cckit.Tests.Memory.{Memory, empty, memory_stub}
use cckit.Tests.Memory.Cached.{memory_stub-ReadsFrame, stub_of-CompositeKeys}

-- A text with its length before it.
abbrev with_text : Text → Bytes → Bytes
with_text t rest = length t ∷ (t ++ rest)

abbrev read_text : Bytes → Text × Bytes
read_text [] = ([], [])
read_text (n ∷ b) = (take n b, drop n b)

read_text-with_text : (t : Text) (rest : Bytes) → read_text (with_text t rest) ≡ (t, rest)
read_text-with_text t rest = rw (take-append_length t rest, drop-append_length t rest) refl

abbrev encode_dates : CommercialPaper ℕ → ℤ → Bytes
encode_dates c (pos n) = c.issue_date ∷ c.maturity_date ∷ 0 ∷ n ∷ []
encode_dates c (negsuc n) = c.issue_date ∷ c.maturity_date ∷ 1 ∷ n ∷ []

abbrev encode : CommercialPaper ℕ → Bytes
encode c =
    with_text c.issuer (
      with_text c.paper_number
        (with_text c.owner (with_text c.state (encode_dates c c.face_value))))

abbrev decode_dates : Text → Text → Text → Text → Bytes → Result (Value (CommercialPaper ℕ))
decode_dates a b o t (d ∷ e ∷ zero ∷ n ∷ []) = ok (
    obj (record {
      issuer = a;
      paper_number = b;
      owner = o;
      issue_date = d;
      maturity_date = e;
      face_value = pos n;
      state = t;
    }))
decode_dates a b o t (d ∷ e ∷ suc zero ∷ n ∷ []) = ok (
    obj (record {
      issuer = a;
      paper_number = b;
      owner = o;
      issue_date = d;
      maturity_date = e;
      face_value = negsuc n;
      state = t;
    }))
decode_dates a b o t bb = err (external 0)

decode : Bytes → Result (Value (CommercialPaper ℕ))
decode bb =
    let (a, ra) = read_text bb in
    let (b, rb) = read_text ra in
    let (o, ro) = read_text rb in let (t, rt) = read_text ro in decode_dates a b o t rt

decode_dates-encode_dates :
    (c : CommercialPaper ℕ) (z : ℤ)
    → decode_dates c.issuer c.paper_number c.owner c.state (encode_dates c z)
      ≡ ok (obj (record c { face_value = z }))
decode_dates-encode_dates c (pos n) = refl
decode_dates-encode_dates c (negsuc n) = refl

decode-encode : (c : CommercialPaper ℕ) → decode (encode c) ≡ ok (obj c)
unfolding decode
decode-encode c = simp (take-append_length, drop-append_length, decode_dates-encode_dates)

abbrev marshal : Value (CommercialPaper ℕ) → Result Bytes
marshal (obj c) = ok (encode c)
marshal v = err (external 0)

abbrev lib : Library ℕ
lib = record {
  zero_time = 0;
  type_name = λ v. codes "*cpaper.CommercialPaper";
  json_marshal = marshal;
  json_unmarshal = λ v b. decode b;
}

abbrev cached : Impl (WithTxCache Memory) (CommercialPaper ℕ)
cached = with_cache (new_state (papers lib) memory_stub)

paper-Decodes : (c : CommercialPaper ℕ) → Decodes cached (obj c) (obj (paper_of lib [] []) ∷ [])
unfolding with_cache new_state convert_from_bytes convert_to_bytes from_bytes to_bytes papers
paper-Decodes c = record {
  decodes = λ bb e.
      let e' : encode c ≡ bb = ok-injective e in rw (← e') (refl, rw (decode-encode c) refl);
}

keeps : KeepsPapers lib cached
unfolding with_cache new_state
keeps = record {
  reads_writes = with_cache-ReadsWrites (new_state (papers lib) memory_stub) memory_stub-ReadsFrame;
  composite = stub_of-CompositeKeys;
  as_is = λ k. refl;
  decodes = paper-Decodes;
}

computes : Unit {0}
unfolding strings_id_to_str strings_id_from_str join split contains to_bytes from_bytes
    key_to_string key_from_composite normalize_key convert_from_bytes convert_to_bytes create
    split_key find store text_eq get exists put insert key_of put_args arg_key_value new_state
    with_cache cached_put cached_get stub_of papers issue buy redeem current bought redeemed decode
computes = tt

abbrev offer : IssueCommercialPaper ℕ
offer = record {
  issuer = codes "M";
  paper_number = codes "1";
  issue_date = 1;
  maturity_date = 2;
  face_value = pos 50;
}

abbrev sale : BuyCommercialPaper ℕ
sale = record {
  issuer = codes "M";
  paper_number = codes "1";
  current_owner = codes "M";
  new_owner = codes "D";
  price = pos 49;
  purchase_date = 1;
}

abbrev payment : RedeemCommercialPaper ℕ
payment = record {
  issuer = codes "M";
  paper_number = codes "1";
  redeeming_owner = codes "D";
  redeem_date = 2;
}

abbrev first_paper : CommercialPaper ℕ
first_paper = issued_paper lib offer

abbrev bare : WithTxCache Memory
bare = (empty, [])

abbrev after_issue : WithTxCache Memory
after_issue = (issue lib cached offer bare).1

abbrev after_sale : WithTxCache Memory
after_sale = (buy lib cached sale after_issue).1

abbrev after_payment : WithTxCache Memory
after_payment = (redeem lib cached payment after_sale).1

issued : issue lib cached offer bare ≡ (ok first_paper, after_issue)
unfolding computes
issued = refl

sold : buy lib cached sale after_issue ≡ (ok (sold_to (codes "D") first_paper), after_sale)
unfolding computes
sold = refl

paid : redeem lib cached payment after_sale ≡ (ok (paid_by (codes "M") first_paper), after_payment)
unfolding computes
paid = refl

-- A redeemed paper is not sold any more.
late :
    buy lib cached sale after_payment
    ≡ (err (message (codes "paper is not trading")), after_payment)
unfolding computes
late = refl

bare_free :
    (issuer number : Text) (c : CommercialPaper ℕ)
    → ¬ (current lib cached issuer number bare ≡ ok c)
unfolding current get with_cache new_state cached_get find
bare_free issuer number c h =
    let (v, e, r) =
      >>=-eq-ok
        (on_err (noted (codes "paper not found")) (
          get (papers lib) cached (obj (paper_of lib issuer number)) (obj (paper_of lib [] []) ∷ [])
            bare))
        _ h in
    let (t, kt, g) =
      >>=-eq-ok (key_of (papers lib) cached (obj (paper_of lib issuer number))) _
        (on_err-eq-ok _ _ e) in
    cc

bare-AreSound : AreSound lib cached bare
bare-AreSound issuer number c h = absurd (bare_free issuer number c h)

first : Ledger lib cached bare after_issue
first = next bare after_issue start (issues bare after_issue offer first_paper issued)

second : Ledger lib cached after_issue after_sale
second = next after_issue after_sale start (buys after_issue after_sale sale _ sold)

rest : Ledger lib cached after_issue after_payment
rest = next after_sale after_payment second (redeems after_sale after_payment payment _ paid)

ledger-AreSound_example : AreSound lib cached after_issue
ledger-AreSound_example = ledger-AreSound lib cached keeps bare after_issue bare-AreSound first

held : current lib cached (codes "M") (codes "1") after_issue ≡ ok first_paper
unfolding computes
held = refl

paid_back :
    current lib cached (codes "M") (codes "1") after_payment ≡ ok (paid_by (codes "M") first_paper)
unfolding computes
paid_back = refl

ledger-Reaches_example :
    (c : CommercialPaper ℕ) × (current lib cached (codes "M") (codes "1") after_payment ≡ ok c)
    × Reaches first_paper c
    × HasTerms first_paper c
ledger-Reaches_example =
    ledger-Reaches lib cached keeps (codes "M") (codes "1") first_paper after_issue after_payment
      ledger-AreSound_example held rest

abbrev last_paper : CommercialPaper ℕ
last_paper = paid_by (codes "M") first_paper

after_payment-AreSound : AreSound lib cached after_payment
after_payment-AreSound =
    ledger-AreSound lib cached keeps after_issue after_payment
      (ledger-AreSound lib cached keeps bare after_issue bare-AreSound first) rest

ledger-redeemed_example :
    (current lib cached (codes "M") (codes "1") after_payment ≡ ok last_paper)
    × IsFinal lib cached keeps (codes "M") (codes "1") after_payment
ledger-redeemed_example =
    ledger-redeemed lib cached keeps (codes "M") (codes "1") last_paper after_payment after_payment
      after_payment-AreSound paid_back refl start

can_put :
    (c : CommercialPaper ℕ) (t : WithTxCache Memory)
    → c.issuer ≡ codes "M"
    → c.paper_number ≡ codes "1"
    → (t' : WithTxCache Memory) × (put (papers lib) cached (obj c) [] t ≡ (ok tt, t'))
unfolding computes
can_put c t ei en =
    let same : record c { issuer = codes "M"; paper_number = codes "1" } ≡ c =
      ap (λ x. record c { issuer = x; paper_number = codes "1" }) (sym ei)
      ∙ ap (λ x. record c { paper_number = x }) (sym en) in
    subst (λ z. (t' : WithTxCache Memory) × (put (papers lib) cached (obj z) [] t ≡ (ok tt, t')))
      same
      (
        (put (papers lib) cached (obj (record c { issuer = codes "M"; paper_number = codes "1" }))
            [] t).1,
        refl,
      )

ledger-redeem_example :
    (c : CommercialPaper ℕ) × (current lib cached (codes "M") (codes "1") after_sale ≡ ok c)
    × ((c.state ≡ codes "redeemed")
        ⊎ ((t : WithTxCache Memory) × (redeem lib cached
                (record {
                  issuer = codes "M";
                  paper_number = codes "1";
                  redeeming_owner = c.owner;
                  redeem_date = 3;
                })
                after_sale
              ≡ (ok (paid_by (codes "M") c), t))
            × (current lib cached (codes "M") (codes "1") t ≡ ok (paid_by (codes "M") c))
            × IsFinal lib cached keeps (codes "M") (codes "1") t))
ledger-redeem_example =
    ledger-redeem lib cached keeps (codes "M") (codes "1") first_paper 3 after_issue after_sale
      ledger-AreSound_example can_put held second

buy_iff_example :
    (buy lib cached sale after_issue ≡ (ok (sold_to (codes "D") first_paper), after_sale)) ↔ (
      (c : CommercialPaper ℕ) × (current lib cached (codes "M") (codes "1") after_issue ≡ ok c)
      × (c.owner ≡ codes "M")
      × IsOnSale c.state
      × (sold_to (codes "D") first_paper ≡ sold_to (codes "D") c)
      × (put (papers lib) cached (obj (sold_to (codes "D") first_paper)) [] after_issue
          ≡ (ok tt, after_sale)))
buy_iff_example = buy_iff lib cached sale (sold_to (codes "D") first_paper) after_issue after_sale
