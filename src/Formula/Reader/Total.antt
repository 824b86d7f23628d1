-- ===== src/Formula/Reader/Total.antt =====
-- src/formula.cpp: the readers return or throw on every document.
use Prim.Native.String.{String}
use cppmon.Shared.{ℕ, zero, suc, ◌≤◌, ◌<◌, ◌≢◌, refl, List, [], ◌∷◌, In, inl, inr, arith}
use cppmon.Hash.{HashSet, HashMap}
use cppmon.EventData.{Double, EventData}
use cppmon.Term.{Term}
use cppmon.Formula.Preds.{PredState}
use cppmon.Formula.Values.{
  TermForm, var_form, const_form, term_form, FormulaForm, pred_form, prev_form, next_form,
  since_form, until_form, agg_form, let_form, formula_form, string_at, agg_type_from_json,
  nat_from_json, enat_from_json, inter_from_json, data_from_json,
}
use cppmon.Formula.Reader.{
  term_of, term_from_json, terms_from_json, Reader, agg_fields, formula_of, from_json,
}
use cppmon.Json.{
  Json, Read, out_of_fuel, and_then, or_throw, Reads, ok-Reads, thrown-Reads, or_throw-Reads,
  if-Reads, and_then-Reads, throw_or-Reads,
}

ruleset reads = (ok-Reads, thrown-Reads, or_throw-Reads, if-Reads, and_then-Reads)

module _ (D : Double) (J : Json D) where
  string_at-Reads : (i : ℕ) (j : J.Carrier) → Reads (string_at D J i j)
  unfolding string_at
  string_at-Reads i j = search reads

  agg_type_from_json-Reads : (j : J.Carrier) → Reads (agg_type_from_json D J j)
  unfolding agg_type_from_json
  agg_type_from_json-Reads j = search (reads, string_at-Reads)

  nat_from_json-Reads : (j : J.Carrier) → Reads (nat_from_json D J j)
  unfolding nat_from_json
  nat_from_json-Reads j = search (reads, string_at-Reads)

  enat_from_json-Reads : (j : J.Carrier) → Reads (enat_from_json D J j)
  unfolding enat_from_json
  enat_from_json-Reads j = search (reads, string_at-Reads, nat_from_json-Reads)

  inter_from_json-Reads : (j : J.Carrier) → Reads (inter_from_json D J j)
  unfolding inter_from_json
  inter_from_json-Reads j = search (reads, nat_from_json-Reads, enat_from_json-Reads)

  data_from_json-Reads : (j : J.Carrier) → Reads (data_from_json D J j)
  unfolding data_from_json
  data_from_json-Reads j = search (reads, string_at-Reads) fits 20000 depth 9

  term_of-Reads :
      (sub : ℕ → Read (Term (EventData D)))
      → ((i : ℕ) → Reads (sub i))
      → (form : TermForm) (j : J.Carrier) → Reads (term_of D J form sub j)
  unfolding term_of
  term_of-Reads sub h var_form j = search (reads, nat_from_json-Reads)
  term_of-Reads sub h const_form j = search (reads, data_from_json-Reads)
  term_of-Reads sub h _ j = search (reads, h)

  -- The reader of terms returns or throws when it has more fuel than the document is deep.
  pub term_from_json-Reads :
      (fuel : ℕ) (j : J.Carrier) → J.depth j < fuel → term_from_json D J fuel j ≢ out_of_fuel
  unfolding term_from_json
  term_from_json-Reads zero j lt = absurd (omega arith)
  term_from_json-Reads (suc fuel) j lt = and_then-Reads _ _ (string_at-Reads 0 j) λ s.
      and_then-Reads _ _ (or_throw-Reads (term_form s)) λ form.
        term_of-Reads _
          (λ i.
            throw_or-Reads (J.at i j) _
              λ c e. term_from_json-Reads fuel c (omega (arith, J.at-depth i j c e)))
          form j

  terms_from_json-Reads :
      (fuel : ℕ) (cs : List J.Carrier)
      → ((c : J.Carrier) → In c cs → J.depth c < fuel)
      → Reads (terms_from_json D J fuel cs)
  unfolding terms_from_json
  terms_from_json-Reads fuel [] h = ok-Reads _
  terms_from_json-Reads fuel (c ∷ cs) h =
      and_then-Reads _ _ (term_from_json-Reads fuel c (h c (inl refl))) λ t.
        and_then-Reads _ _ (terms_from_json-Reads fuel cs (λ d i. h d (inr i))) λ ts. ok-Reads _

  module _ (fuel : ℕ) (j : J.Carrier) (lt : J.depth j ≤ fuel) where
    term_at-Reads :
        {A : Type 0} (i : ℕ) (k : Term (EventData D) → Read A)
        → ((t : Term (EventData D)) → Reads (k t))
        → Reads (and_then (or_throw (J.at i j)) λ c. and_then (term_from_json D J fuel c) k)
    term_at-Reads i k h = throw_or-Reads (J.at i j) _ λ c e.
        and_then-Reads _ _ (term_from_json-Reads fuel c (omega (arith, J.at-depth i j c e))) h

    args-Reads :
        {A : Type 0} (i : ℕ) (k : List (Term (EventData D)) → Read A)
        → ((ts : List (Term (EventData D))) → Reads (k ts))
        → Reads (
            and_then
              (or_throw (J.at i j))
              λ c. and_then (terms_from_json D J fuel (J.elements c)) k)
    args-Reads i k h = throw_or-Reads (J.at i j) _ λ c e.
        and_then-Reads _ _
          (terms_from_json-Reads fuel (J.elements c)
            (λ d m. omega (arith, J.at-depth i j c e, J.elements-depth c d m)))
          h

    agg_fields-Reads : Reads (agg_fields D J fuel j)
    unfolding agg_fields
    agg_fields-Reads = throw_or-Reads (J.at 1 j) _ λ a p.
        and_then-Reads _ _ (nat_from_json-Reads a) λ y. throw_or-Reads (J.at 2 j) _ λ b q.
          and_then-Reads _ _ (or_throw-Reads (J.at 0 b)) λ b0.
            and_then-Reads _ _ (agg_type_from_json-Reads b0) λ ty.
              and_then-Reads _ _ (or_throw-Reads (J.at 1 b)) λ b1.
                and_then-Reads _ _ (data_from_json-Reads b1) λ d. throw_or-Reads (J.at 3 j) _ λ c r.
                  and_then-Reads _ _ (nat_from_json-Reads c) λ n. term_at-Reads 4 _ λ t. ok-Reads _

    module _ (S : HashSet ℕ) (M : HashMap (String × ℕ) ℕ) (sub : ℕ → Reader D J S M)
        (h : (i : ℕ) (st : PredState M) → Reads (sub i st)) where
      formula_of-Reads :
          (form : FormulaForm) (st : PredState M) → Reads (formula_of D J S M form fuel sub j st)
      unfolding formula_of
      formula_of-Reads pred_form st =
          and_then-Reads _ _ (string_at-Reads 1 j) λ name. args-Reads 2 _ λ ts. ok-Reads _
      formula_of-Reads agg_form st = search (reads, agg_fields-Reads, h)
      formula_of-Reads let_form st = search (reads, string_at-Reads, h)
      formula_of-Reads prev_form st = search (reads, inter_from_json-Reads, h)
      formula_of-Reads next_form st = search (reads, inter_from_json-Reads, h)
      formula_of-Reads since_form st = search (reads, inter_from_json-Reads, h)
      formula_of-Reads until_form st = search (reads, inter_from_json-Reads, h)
      formula_of-Reads _ st = search (reads, term_at-Reads, h)

  -- The reader of formulas returns or throws, on every document, when it has more fuel than the
  -- document is deep.
  pub from_json-Reads :
      (S : HashSet ℕ) (M : HashMap (String × ℕ) ℕ) (fuel : ℕ) (j : J.Carrier) (st : PredState M)
      → J.depth j < fuel
      → from_json D J S M fuel j st ≢ out_of_fuel
  unfolding from_json
  from_json-Reads S M zero j st lt = absurd (omega arith)
  from_json-Reads S M (suc fuel) j st lt = if-Reads _ _ _ thrown-Reads (
      and_then-Reads _ _ (string_at-Reads 0 j) λ s.
        and_then-Reads _ _ (or_throw-Reads (formula_form s)) λ form.
          formula_of-Reads fuel j (omega arith) S M _
            (λ i st2.
              throw_or-Reads (J.at i j) _
                λ c e. from_json-Reads S M fuel c st2 (omega (arith, J.at-depth i j c e)))
            form st)
