-- ===== src/Until/NewTable.antt =====
-- src/until_impl.cpp: the invariant of eventually_impl through a new table.
use cppmon.Shared.{
  ℕ, suc, ◌+◌, ◌-◌, ◌≤◌, ◌<◌, ◌≡◌, inl, inr, refl, sym, ap, ◌∙◌, subst, Bool, true, false, List, [],
  ◌∷◌, ◌++◌, arith, length, length-append, All, All-append, In,
}
use cppmon.Hash.{HashSet, HashMap}
use cppmon.Interval.{Interval, leq_upper}
use cppmon.Table.{OptTable}
use cppmon.Table.Contents.{Holds}
use cppmon.Until.{eventually_rows, rows_of}
use cppmon.Until.Marks.{put_max_inv}
use cppmon.Until.History.{
  key, Wants, leq_upper_zero, contains_parts, History, Point, Point-below, Correct, AllCorrect,
}
use cppmon.Until.Steps.{cz, TimesFrom, Source, Sound, Close, Complete, Inv}
use cppmon.Until.Adding.{HeadReaches, length-rows, rows-All, rows_old, rows_new, Holds-In}

module _ {T : Type 0} (S : HashSet (List T)) (B : HashMap (List T) ℕ) (inter : Interval) where
  -- The oldest time point is not too old.
  abbrev pub Fresh : List ℕ → ℕ → Type 0
  Fresh [] now = Unit
  Fresh (t ∷ ts) now = leq_upper inter (now - t) ≡ true

  none_wanted : (c : Bool) (n now j u : ℕ) → j < n → u ≤ now → Wants c n now (key c inter.l j u) → ⊥
  none_wanted true n now j u lt le w = omega arith
  none_wanted false n now j u lt le w = omega arith

  module _ (h : History S) (now : ℕ) (out : List (OptTable S)) (first curr : ℕ) (ts_buf : List ℕ)
      (maps : List B.Carrier) (res : List (OptTable S)) (tab : OptTable S)
      (inv : Inv S B inter h now out first curr ts_buf maps res) (fresh : Fresh ts_buf now) where
    abbrev h2 : History S
    h2 = (now, tab) ∷ h

    abbrev v : ℕ
    v = key (cz S B inter) inter.l curr now

    abbrev maps2 : List B.Carrier
    maps2 = eventually_rows S B (cz S B inter) v (rows_of S B tab) maps

    new_point : Point S curr now tab h2
    new_point = inl (inv.counted, refl, refl)

    add_times :
        (i : ℕ) (l : List ℕ)
        → TimesFrom S B inter i l h
        → i + length l ≡ curr
        → TimesFrom S B inter i (l ++ (now ∷ [])) h2
    add_times i [] times e = ((tab, subst (λ k. Point S k now tab h2) (omega arith) new_point), tt)
    add_times i (t ∷ ts) times e =
        ((times.0.0, inr times.0.1), add_times (suc i) ts times.1 (omega arith))

    add_past : (i t : ℕ) (b : OptTable S) → Point S i t b h2 → t ≤ now
    add_past i t b (inl p) = omega (arith, p.1)
    add_past i t b (inr p) = inv.past i t b p

    add_sorted :
        (i j t u : ℕ) (b c : OptTable S) → Point S i t b h2 → Point S j u c h2 → i ≤ j → t ≤ u
    add_sorted i j t u b c p (inl q) le = omega (arith, q.1, add_past i t b p)
    add_sorted i j t u b c (inl p) (inr q) le = absurd (omega (arith, p.0, Point-below S j u c h q))
    add_sorted i j t u b c (inr p) (inr q) le = inv.sorted i j t u b c p q le

    add-Close :
        (l : List ℕ) → Close S B inter l h → Fresh l now → Close S B inter (l ++ (now ∷ [])) h2
    add-Close [] c f = λ j u b p.
        subst (λ k. leq_upper inter k ≡ true) (omega (arith, add_past j u b p))
          (leq_upper_zero inter)
    add-Close (t ∷ ts) c f = λ j u b p. elim p [
      | inl q ↦ subst (λ k. leq_upper inter (k - t) ≡ true) q.1 f
      | inr q ↦ c j u b q
    ]

    old_Source : (e : List T) (w : ℕ) → Source S B inter h e w → Source S B inter h2 e w
    old_Source e w (j, u, b, p, k, q) = (j, u, b, inr p, k, q)

    add-Sound : All (Sound S B inter h2) (maps2 ++ (B.empty ∷ []))
    add-Sound =
        All-append (Sound S B inter h2) maps2 (B.empty ∷ [])
          (rows-All S B (cz S B inter) v (Sound S B inter h2) (rows_of S B tab) maps
            (λ e m i s k w mark. elim (put_max_inv S B m e k v w mark) [
              | inl (p, q) ↦ (
                curr,
                now,
                tab,
                new_point,
                (Holds-In S B k tab).1 (subst (λ r. In r (rows_of S B tab)) p i),
                q,
              )
              | inr o ↦ s k w o
            ])
            (weaken maps inv.sound))
          ((λ e w mark. absurd (ground (arith, mark, B.find-empty e))), tt)
      where
        weaken : (l : List B.Carrier) → All (Sound S B inter h) l → All (Sound S B inter h2) l
        weaken [] a = tt
        weaken (m ∷ l) a = ((λ e w mark. old_Source e w (a.0 e w mark)), weaken l a.1)

    new_Reaches : (e : List T) → Holds S e tab → HeadReaches S B maps2 e v
    new_Reaches e k =
        rows_new S B (cz S B inter) v (rows_of S B tab) e maps (omega (arith, inv.sizes))
          ((Holds-In S B e tab).0 k)

    head_Complete :
        (t : ℕ) (l : List ℕ) (ms : List B.Carrier)
        → ((e : List T) (j u : ℕ) (b : OptTable S)
            → Point S j u b h2
            → Holds S e b
            → Wants (cz S B inter) first t (key (cz S B inter) inter.l j u)
            → HeadReaches S B ms e (key (cz S B inter) inter.l j u))
        → 0 < length ms
        → Complete S B inter first (t ∷ l) (ms ++ (B.empty ∷ [])) h2
    head_Complete t l [] f lt = absurd (omega arith)
    head_Complete t l (m ∷ ms) f lt = f

    at_new :
        (e : List T) (j u : ℕ) (b : OptTable S)
        → (length h ≡ j) × (now ≡ u) × (tab ≡ b)
        → Holds S e b
        → HeadReaches S B maps2 e (key (cz S B inter) inter.l j u)
    at_new e j u b (p, q, r) k =
        subst (λ x. HeadReaches S B maps2 e (key (cz S B inter) inter.l j x)) q
          (subst (λ x. HeadReaches S B maps2 e (key (cz S B inter) inter.l x now))
            (sym inv.counted ∙ p) (new_Reaches e (subst (Holds S e) (sym r) k)))

    add-Complete :
        (l : List ℕ)
        → Complete S B inter first l maps h
        → first + length l ≡ curr
        → Complete S B inter first (l ++ (now ∷ [])) (maps2 ++ (B.empty ∷ [])) h2
    add-Complete [] c e =
        head_Complete now [] maps2
          (λ k j u b p holds w. elim p [
            | inl q ↦ at_new k j u b q holds
            | inr q ↦ absurd (
                none_wanted (cz S B inter) first now j u
                  (omega (arith, Point-below S j u b h q, inv.counted)) (inv.past j u b q) w)
          ])
          (omega (arith, inv.sizes, length-rows S B (cz S B inter) v (rows_of S B tab) maps))
    add-Complete (t ∷ ts) c e =
        head_Complete t (ts ++ (now ∷ [])) maps2
          (λ k j u b p holds w. elim p [
            | inl q ↦ at_new k j u b q holds
            | inr q ↦
                rows_old S B (cz S B inter) v (rows_of S B tab) k _ maps
                  (old_head maps c k j u b q holds w)
          ])
          (omega (arith, inv.sizes, length-rows S B (cz S B inter) v (rows_of S B tab) maps))
      where
        old_head :
            (ms : List B.Carrier)
            → Complete S B inter first (t ∷ ts) ms h
            → (k : List T) (j u : ℕ) (b : OptTable S) → Point S j u b h
            → Holds S k b
            → Wants (cz S B inter) first t (key (cz S B inter) inter.l j u)
            → HeadReaches S B ms k (key (cz S B inter) inter.l j u)
        old_head [] c k j u b q holds w = absurd c
        old_head (m ∷ ms) c k j u b q holds w = c k j u b q holds w

    add_closed :
        (i t : ℕ) (b : OptTable S)
        → Point S i t b h2
        → i < first
        → leq_upper inter (now - t) ≡ false
    add_closed i t b (inl p) lt = absurd (omega (arith, p.0, inv.counted, inv.opened))
    add_closed i t b (inr p) lt = inv.closed i t b p lt

    add_Correct :
        (i : ℕ) (r : OptTable S) → i < first → Correct S inter h i r → Correct S inter h2 i r
    add_Correct i r lt c t b (inl p) e = absurd (omega (arith, p.0, inv.counted, inv.opened))
    add_Correct i r lt c t b (inr p) e = (
      λ k.
          let (j, u, d, q, le, le2, k2, holds) = (c t b p e).0 k in
          (j, u, d, inr q, le, le2, k2, holds),
      λ (j, u, d, q, le, le2, k, holds). elim q [
        | inl n ↦ absurd (
            ground (
              arith,
              (contains_parts inter (u - t)).0 k,
              ap (λ x. leq_upper inter (x - t)) (n.1),
              inv.closed i t b p lt,
            ))
        | inr o ↦ (c t b p e).1 (j, u, d, o, le, le2, k, holds)
      ],
    )

    add_AllCorrect :
        (n : ℕ) (l : List (OptTable S))
        → n + length l ≤ first
        → AllCorrect S inter h n l
        → AllCorrect S inter h2 n l
    add_AllCorrect n [] le a = tt
    add_AllCorrect n (r ∷ l) le a =
        (add_Correct n r (omega arith) a.0, add_AllCorrect (suc n) l (omega arith) a.1)

    pub add-Inv :
        Inv S B inter
          ((now, tab) ∷ h)
          now
          out
          first
          (curr + 1)
          (ts_buf ++ (now ∷ []))
          (eventually_rows S B
              (cz S B inter)
              (key (cz S B inter) inter.l curr now)
              (rows_of S B tab)
              maps
            ++ (B.empty ∷ []))
          res
    add-Inv = record {
      counted = omega (arith, inv.counted);
      opened = omega (arith, inv.opened, length-append ts_buf (now ∷ []));
      sizes = omega (
        arith,
        inv.sizes,
        length-append ts_buf (now ∷ []),
        length-append maps2 (B.empty ∷ []),
        length-rows S B (cz S B inter) v (rows_of S B tab) maps,
      );
      times = add_times first ts_buf inv.times inv.opened;
      past = add_past;
      sorted = add_sorted;
      small = inv.small;
      close = add-Close ts_buf inv.close fresh;
      sound = add-Sound;
      complete = add-Complete ts_buf inv.complete inv.opened;
      closed = add_closed;
      answered = (
        add_AllCorrect 0 out (omega (arith, inv.emitted)) inv.answered.0,
        add_AllCorrect (length out) res (omega (arith, inv.emitted)) inv.answered.1,
      );
      emitted = inv.emitted;
    }
