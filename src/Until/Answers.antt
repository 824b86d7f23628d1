-- ===== src/Until/Answers.antt =====
-- src/until_impl.cpp: eventually_impl computes EVENTUALLY, on every run of its operations.
use cppmon.Shared.{
  ℕ, zero, suc, ◌+◌, ◌-◌, ◌≤◌, ◌<◌, ◌≡◌, ◌↔◌, subst, true, false, some, List, [], ◌∷◌, ◌++◌, arith,
  length, length-append, dec_lt,
}
use cppmon.Hash.{HashSet, HashMap}
use cppmon.Interval.{Interval, leq_upper, size_t_mod}
use cppmon.Table.{OptTable}
use cppmon.Table.Contents.{Holds}
use cppmon.Term.{get_elem?}
use cppmon.Until.{UntilBase, until_impl_base, shift, eval, add_right_table}
use cppmon.Until.History.{
  History, Point, Point-below, Eventually, Correct, AllCorrect, leq_upper_down,
}
use cppmon.Until.Steps.{Inv}
use cppmon.Until.NewTable.{Fresh}
use cppmon.Until.Runs.{State, start-State, add-State, eval-State, shift-Shifted}

module _ {T : Type 0} (S : HashSet (List T)) (B : HashMap (List T) ℕ) (inter : Interval) where
  -- The runs of eventually_impl: the tables that came, the time, the results that eval returned, and
  -- the state. Time does not go back.
  pub data Run (nfvs : ℕ) : History S → ℕ → List (OptTable S) → UntilBase S B → Type 0 where
    start : Run nfvs [] 0 [] (until_impl_base S B nfvs inter)
    add :
        {h : History S} {now : ℕ} {out : List (OptTable S)} {st : UntilBase S B} (t : ℕ)
        (tab : OptTable S)
        → now ≤ t
        → t < size_t_mod
        → Run nfvs h now out st
        → Run nfvs ((t, tab) ∷ h) t out (add_right_table S B tab t st)
    call :
        {h : History S} {now : ℕ} {out : List (OptTable S)} {st : UntilBase S B} (t : ℕ)
        → now ≤ t
        → t < size_t_mod
        → Run nfvs h now out st
        → Run nfvs h t (out ++ (eval S B t st).0) (eval S B t st).1

  run-State :
      {nfvs now : ℕ} {h : History S} {out : List (OptTable S)} {st : UntilBase S B}
      → inter.l < size_t_mod
      → Run nfvs h now out st
      → State S B inter h now out st
  run-State small start = start-State S B inter _
  run-State small (add t tab le lt r) =
      add-State S B inter _ _ t _ _ tab small le lt (run-State small r)
  run-State small (call t le lt r) = eval-State S B inter _ _ t _ _ le lt (run-State small r)

  answer_at :
      (h : History S) (n i m : ℕ) (out : List (OptTable S)) (tab : OptTable S)
      → m ≡ n + i
      → AllCorrect S inter h n out
      → get_elem? out i ≡ some tab
      → Correct S inter h m tab
  answer_at h n i m [] tab q a e = absurd (cc)
  answer_at h n zero m (x ∷ out) tab q a e =
      subst (λ k. Correct S inter h k tab) (omega arith) (subst (Correct S inter h n) (cc) a.0)
  answer_at h n (suc i) m (x ∷ out) tab q a e = answer_at h (suc n) i m out tab (omega arith) a.1 e

  -- A time point whose result is still open is not too old.
  open_young :
      (h : History S) (t : ℕ) (out : List (OptTable S)) (first curr : ℕ) (l : List ℕ)
      (maps : List B.Carrier) (res : List (OptTable S))
      → Inv S B inter h t out first curr l maps res
      → Fresh S B inter l t
      → (i u : ℕ) (b : OptTable S) → Point S i u b h
      → first ≤ i
      → leq_upper inter (t - u) ≡ true
  open_young h t out first curr [] maps res inv fresh i u b p le =
      absurd (omega (arith, Point-below S i u b h p, inv.counted, inv.opened))
  open_young h t out first curr (t0 ∷ l) maps res inv fresh i u b p le =
      let (c, q) = inv.times.0 in
      leq_upper_down inter (t - u) (t - t0) (omega (arith, inv.sorted first i t0 u c b q p le))
        fresh

  -- Whatever tables and calls of eval came, with timestamps that do not go down: the i-th result
  -- that was returned holds a row exactly when a table that came at the i-th time point or later,
  -- at an age that is in the interval, holds it.
  pub Run-Correct :
      {nfvs now : ℕ} {h : History S} {out : List (OptTable S)} {st : UntilBase S B}
      → inter.l < size_t_mod
      → Run nfvs h now out st
      → (i t : ℕ) (tab b : OptTable S) → get_elem? out i ≡ some tab
      → Point S i t b h
      → (e : List T) → Holds S e tab ↔ Eventually S inter i t e h
  Run-Correct small r i t tab b e p row =
      answer_at _ 0 i i _ tab (omega arith) (run-State small r).inv.answered.0 e t b p row

  -- After a call of eval at the time t, every time point whose interval has passed at t has its
  -- result among those that were returned.
  pub eventually-emitted :
      {nfvs now : ℕ} {h : History S} {out : List (OptTable S)} {st : UntilBase S B} (t : ℕ)
      → inter.l < size_t_mod
      → Run nfvs h now out st
      → now ≤ t
      → t < size_t_mod
      → (i u : ℕ) (b : OptTable S) → Point S i u b h
      → leq_upper inter (t - u) ≡ false
      → i < length (out ++ (eval S B t st).0)
  unfolding eval
  eventually-emitted {h = h} {out = out} {st = st} t small r le lt i u b p late =
      let (s, fresh) = shift-Shifted S B inter _ _ t _ _ le lt (run-State small r) in
      elim (dec_lt i (shift S B t st).first_tp) [
        | yes l ↦ omega (arith, s.inv.emitted, length-append out (shift S B t st).res_acc)
        | no l ↦
            absurd
              (ground (arith, late, open_young _ t out _ _ _ _ _ s.inv fresh i u b p (omega arith)))
      ]
