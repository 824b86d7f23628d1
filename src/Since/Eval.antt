-- ===== src/Since/Eval.antt =====
-- src/since_impl.h: `since_impl::eval` over every run, against the meaning of SINCE.
use cppmon.Shared.{
  ℕ, ◌-◌, ◌≤◌, ◌<◌, ◌≡◌, refl, ◌↔◌, ◌⊎◌, inl, inr, Bool, true, false, not, List, [], ◌∷◌, map,
  if◌then◌else◌,
}
use cppmon.Hash.{HashSet, HashMap}
use cppmon.Interval.{Interval, size_t_mod}
use cppmon.Interval
use cppmon.Layout.{filter_row}
use cppmon.Table.{OptTable}
use cppmon.Table.Contents.{Holds}
use cppmon.Since.{SinceState, since_impl, eval}
use cppmon.Since.Single.{Single, start, step}
use cppmon.Since.Single.Spec.{Point, Mark}
use cppmon.Since.Single.Table.{Settled, tin-Satisfied}
use cppmon.Since.Single.Run.{step-Settled}
use cppmon.Since.Project.{Shows, has, has-Holds}
use cppmon.Since.Simulation.{add_new_ts-Shows, add_new_table-Shows}
use cppmon.Since.Answer.{survives, join-Shows}
use cppmon.Since.Result.{produce_result-Holds}

pub start-Settled : (inter : Interval) → Settled inter [] 0 start
start-Settled inter = record {
  inv = record {
    ordered = tt;
    below = tt;
    since_below = tt;
    found = λ t m f. absurd m;
    sound = λ t i a. absurd i;
    tin_in = λ t p. absurd (cc);
    in_tin = λ t i a f. absurd i;
    count_cnt = refl;
  };
  reached = tt;
  waiting = tt;
  fresh = tt;
}

-- A test and its negation decide a proposition and its negation.
negated_iff :
    (neg found : Bool) (P : Type 0)
    → ((found ≡ true) ↔ P)
    → ((if neg then not found else found) ≡ true) ↔ (if neg then ¬ P else P)
negated_iff true true P (f, g) = (λ h. absurd (cc), λ n. absurd (n (f refl)))
negated_iff true false P (f, g) = (λ h p. cc (g p), λ n. refl)
negated_iff false found P h = h

module _ {T : Type 0} (S : HashSet (List T)) where
  -- The arguments of one call.
  pub record Input : Type 0 where
    pub tab_l : OptTable S
    pub tab_r : OptTable S
    pub ts : ℕ

  -- The time of the last call, newest first.
  abbrev pub now : List Input → ℕ
  now [] = 0
  now (i ∷ steps) = i.ts

  -- The timestamps do not go down and are values of size_t.
  abbrev pub Timely : List Input → Type 0
  Timely [] = Unit
  Timely (i ∷ steps) = (i.ts < size_t_mod) × (now steps ≤ i.ts) × Timely steps

module _ {T : Type 0} (S : HashSet (List T)) (B : HashMap (List T) ℕ) (junk : T) (inter : Interval)
    (nfvs : ℕ) where
  module _ (neg : Bool) (idx : List ℕ) where
    -- The state after a run, newest call first.
    unfoldable pub after : List (Input S) → SinceState S B
    unfolding since_impl eval
    after [] = since_impl S B neg nfvs idx inter
    after (i ∷ steps) = (eval S B junk i.tab_l i.tab_r i.ts (after steps)).1

    abbrev pub point : List T → Input S → Point
    point e i = record {
      ts = i.ts;
      survives = survives S B junk e inter neg idx i.tab_l;
      right = has S B e i.tab_r;
    }

    abbrev single_after : List T → List (Input S) → Single
    single_after e [] = start
    single_after e (i ∷ steps) =
        step inter i.ts (survives S B junk e inter neg idx i.tab_l) (has S B e i.tab_r)
          (single_after e steps)

    pub after-Shows :
        (e : List T) (steps : List (Input S))
        → Shows S B e inter neg idx (after steps) (single_after e steps)
    unfolding since_impl eval after step
    after-Shows e [] = record {
      inter_is = refl;
      inf_is = refl;
      negated_is = refl;
      idx_is = refl;
      prev_is = refl;
      inn_is = λ b. refl;
      tin_is = B.find-empty e;
      since_is = B.find-empty e;
      cnt_is = λ b. B.find-empty e;
    }
    after-Shows e (i ∷ steps) = add_new_table-Shows S B e inter neg idx i.ts i.tab_r _ _ (
        join-Shows S B junk e inter neg idx i.tab_l _ _
          (add_new_ts-Shows S B e inter neg idx i.ts _ _ (after-Shows e steps)))

    pub single_after-Settled :
        (e : List T) (steps : List (Input S))
        → Timely S steps
        → Settled inter (map (point e) steps) (now S steps) (single_after e steps)
    single_after-Settled e [] h = start-Settled inter
    single_after-Settled e (i ∷ steps) (word, le, h) =
        let v = single_after-Settled e steps h in
        step-Settled inter (map (point e) steps) (now S steps) i.ts word le (single_after e steps)
          v.inv v.reached (survives S B junk e inter neg idx i.tab_l) (has S B e i.tab_r)

    -- The row's shared columns are in the left table or, for a negated left side, are not.
    abbrev pub Survives : List T → OptTable S → Type 0
    Survives e tab_l =
        if neg
        then ¬ Holds S (filter_row junk idx e) tab_l
        else Holds S (filter_row junk idx e) tab_l

    -- The row was in the right table at time `t`, and survived the left table of every later call.
    abbrev pub SinceAt : List T → ℕ → List (Input S) → Type 0
    SinceAt e t [] = ⊥
    SinceAt e t (i ∷ steps) =
        (Holds S e i.tab_r × (i.ts ≡ t)) ⊎ (Survives e i.tab_l × SinceAt e t steps)

    survives-Survives :
        (e : List T) (tab_l : OptTable S)
        → (survives S B junk e inter neg idx tab_l ≡ true) ↔ Survives e tab_l
    survives-Survives e tab_l = negated_iff neg _ _ (has-Holds S B (filter_row junk idx e) tab_l)

    Mark-SinceAt :
        (e : List T) (t : ℕ) (steps : List (Input S))
        → Mark (map (point e) steps) t ↔ SinceAt e t steps
    Mark-SinceAt e t [] = (λ h. h, λ h. h)
    Mark-SinceAt e t (i ∷ steps) = (
      λ m. elim m [
        | inl (r, p) ↦ inl ((has-Holds S B e i.tab_r).0 r, p)
        | inr (l, k) ↦ inr ((survives-Survives e i.tab_l).0 l, (Mark-SinceAt e t steps).0 k)
      ],
      λ m. elim m [
        | inl (r, p) ↦ inl ((has-Holds S B e i.tab_r).1 r, p)
        | inr (l, k) ↦ inr ((survives-Survives e i.tab_l).1 l, (Mark-SinceAt e t steps).1 k)
      ],
    )

    -- A row is in the table that eval returns exactly when, for some time whose age is in the
    -- interval, it was in the right table then and survived every left table since, provided that
    -- the timestamps of the calls so far do not go down and are values of size_t.
    pub eval-SinceAt :
        (e : List T) (i : Input S) (steps : List (Input S))
        → Timely S (i ∷ steps)
        → Holds S e (eval S B junk i.tab_l i.tab_r i.ts (after steps)).0
          ↔ ((t : ℕ) × SinceAt e t (i ∷ steps) × (Interval.contains inter (i.ts - t) ≡ true))
    unfolding eval after
    eval-SinceAt e i steps h =
        let shows = after-Shows e (i ∷ steps) in
        let result = produce_result-Holds S B e inter neg idx _ _ shows in
        let tin = tin-Satisfied inter _ i.ts _ (single_after-Settled e (i ∷ steps) h) in
        (
          λ r. let (t, m, c) = tin.0 (result.0 r) in (t, (Mark-SinceAt e t (i ∷ steps)).0 m, c),
          λ (t, m, c). result.1 (tin.1 (t, (Mark-SinceAt e t (i ∷ steps)).1 m, c)),
        )
