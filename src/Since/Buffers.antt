-- ===== src/Since/Buffers.antt =====
-- src/since_impl.h: what the buffers and the counts of `since_impl` hold after a run.
use cppmon.Shared.{
  ℕ, suc, ◌-◌, ◌≡◌, refl, sym, ap, ◌∙◌, Bool, true, List, [], ◌∷◌, ◌++◌, arith, if◌then◌else◌,
}
use cppmon.Hash.{HashSet, HashMap}
use cppmon.Interval.{Interval, lt_lower}
use cppmon.Interval
use cppmon.Table.{OptTable}
use cppmon.Since.{TableBuf}
use cppmon.Since.Single.Spec.{count, counted}
use cppmon.Since.Project.{has, marks, marks-append}
use cppmon.Since.Eval.{Input, Timely, after, after-Shows, single_after-Settled}

module _ {T : Type 0} (S : HashSet (List T)) (B : HashMap (List T) ℕ) (junk : T) (inter : Interval)
    (nfvs : ℕ) (neg : Bool) (idx : List ℕ) where
  abbrev pub InInterval : ℕ → ℕ × OptTable S → Type 0
  InInterval ts (t, tab) = Interval.contains inter (ts - t) ≡ true

  abbrev pub Waiting : ℕ → ℕ × OptTable S → Type 0
  Waiting ts (t, tab) = lt_lower inter (ts - t) ≡ true

  -- How many tables of the buffer have the row.
  abbrev pub tables_with : List T → TableBuf S B → ℕ
  tables_with e [] = 0
  tables_with e ((t, tab) ∷ l) = if has S B e tab then suc (tables_with e l) else tables_with e l

  count-marks : (e : List T) (l : TableBuf S B) → count (marks S B e l) ≡ tables_with e l
  count-marks e [] = refl
  count-marks e ((t, tab) ∷ l) = ground (arith, count-marks e l)

  -- After a run, the count of a row in all_data_counted is the number of buffered tables that have
  -- it, and there is no entry where that is 0, for a bounded interval and timestamps that do not go
  -- down and are values of size_t.
  pub after-counted :
      (steps : List (Input S)) (e : List T)
      → Timely S steps
      → Interval.is_bounded inter ≡ true
      → let st = after S B junk inter nfvs neg idx steps in
        B.find e st.all_data_counted ≡ counted (tables_with e (st.data_in ++ st.data_prev))
  after-counted steps e h b =
      let v = after-Shows S B junk inter nfvs neg idx e steps in
      let w = single_after-Settled S B junk inter nfvs neg idx e steps h in
      let st = after S B junk inter nfvs neg idx steps in
      v.cnt_is b
      ∙ w.inv.count_cnt
      ∙ ap counted (
          rw (← v.inn_is b, ← v.prev_is)
            (sym (ap count (marks-append S B e st.data_in st.data_prev)))
          ∙ count-marks e (st.data_in ++ st.data_prev))
