-- ===== src/Until/Steps.antt =====
-- src/until_impl.cpp: the state of eventually_impl, and that emitting a result keeps it so.
use cppmon.Shared.{
  ℕ, suc, ◌+◌, ◌-◌, ◌≤◌, ◌<◌, ◌≡◌, ◌↔◌, inl, inr, refl, sym, subst, Bool, true, false, List, [],
  ◌∷◌, ◌++◌, arith, length, length-append, All, Bool-cases, dec_lt,
}
use cppmon.Hash.{HashSet, HashMap}
use cppmon.Interval.{Interval, leq_upper, size_t_mod}
use cppmon.Interval
use cppmon.Table.{OptTable}
use cppmon.Table.Contents.{Holds}
use cppmon.Until.{erase_cond, merge_first, table_from_map}
use cppmon.Until.Marks.{
  Marked, Reaches, combine_max_inv, combine_max-Reaches, erase_if-Marked, table_from_map-Holds,
}
use cppmon.Until.History.{
  key, Wants, erase_cond-Wants, Wants-up, Wants-back, leq_upper_down, contains_parts, Wants-age,
  History, Point, Eventually, Correct, AllCorrect, AllCorrect-append,
}

module _ {T : Type 0} (S : HashSet (List T)) (B : HashMap (List T) ℕ) (inter : Interval) where
  abbrev pub cz : Bool
  cz = Interval.contains inter 0

  -- The timestamps of the time points from the i-th on.
  abbrev pub TimesFrom : ℕ → List ℕ → History S → Type 0
  TimesFrom i [] h = Unit
  TimesFrom i (t ∷ ts) h = ((b : OptTable S) × Point S i t b h) × TimesFrom (suc i) ts h

  -- A mark of the row comes from a table that holds it.
  abbrev pub Source : History S → List T → ℕ → Type 0
  Source h e v =
      (j : ℕ) × (u : ℕ) × (b : OptTable S) × Point S j u b h
      × Holds S e b
      × (key cz inter.l j u ≡ v)

  abbrev pub Sound : History S → B.Carrier → Type 0
  Sound h m = (e : List T) (v : ℕ) → Marked S B m e v → Source h e v

  -- No table is too young for the oldest time point.
  abbrev pub Close : List ℕ → History S → Type 0
  Close [] h = Unit
  Close (t ∷ ts) h = (j u : ℕ) (b : OptTable S) → Point S j u b h → leq_upper inter (u - t) ≡ true

  -- The first map has the marks that the oldest time point needs.
  abbrev pub Complete : ℕ → List ℕ → List B.Carrier → History S → Type 0
  Complete first [] maps h = Unit
  Complete first (t ∷ ts) [] h = ⊥
  Complete first (t ∷ ts) (m ∷ maps) h =
      (e : List T) (j u : ℕ) (b : OptTable S)
      → Point S j u b h
      → Holds S e b
      → Wants cz first t (key cz inter.l j u)
      → Reaches S B m e (key cz inter.l j u)

  pub record Inv (h : History S) (now : ℕ) (out : List (OptTable S)) (first curr : ℕ)
      (ts_buf : List ℕ) (maps : List B.Carrier) (res : List (OptTable S)) : Type 0 where
    pub counted : length h ≡ curr
    pub opened : first + length ts_buf ≡ curr
    pub sizes : length maps ≡ suc (length ts_buf)
    pub times : TimesFrom first ts_buf h
    pub past : (i t : ℕ) (b : OptTable S) → Point S i t b h → t ≤ now
    pub sorted :
        (i j t u : ℕ) (b c : OptTable S) → Point S i t b h → Point S j u c h → i ≤ j → t ≤ u
    pub small : now < size_t_mod
    pub close : Close ts_buf h
    pub sound : All (Sound h) maps
    pub complete : Complete first ts_buf maps h
    pub closed :
        (i t : ℕ) (b : OptTable S) → Point S i t b h → i < first → leq_upper inter (now - t) ≡ false
    pub answered : AllCorrect S inter h 0 out × AllCorrect S inter h (length out) res
    pub emitted : length out + length res ≡ first

  not_leq_up : (a b : ℕ) → a ≤ b → leq_upper inter a ≡ false → leq_upper inter b ≡ false
  not_leq_up a b le e = elim (Bool-cases (leq_upper inter b)) [
    | inl t ↦ absurd (ground (arith, e, leq_upper_down inter a b le t))
    | inr f ↦ f
  ]

  -- Time passes.
  pub Inv-later :
      (h : History S) (now t : ℕ) (out : List (OptTable S)) (first curr : ℕ) (ts_buf : List ℕ)
      (maps : List B.Carrier) (res : List (OptTable S))
      → now ≤ t
      → t < size_t_mod
      → Inv h now out first curr ts_buf maps res
      → Inv h t out first curr ts_buf maps res
  Inv-later h now t out first curr ts_buf maps res le lt inv = record {
    counted = inv.counted;
    opened = inv.opened;
    sizes = inv.sizes;
    times = inv.times;
    past = λ i u b p. omega (arith, inv.past i u b p);
    sorted = inv.sorted;
    small = lt;
    close = inv.close;
    sound = inv.sound;
    complete = inv.complete;
    closed = λ i u b p l. not_leq_up (now - u) (t - u) (omega arith) (inv.closed i u b p l);
    answered = inv.answered;
    emitted = inv.emitted;
  }

  module _ (h : History S) (now : ℕ) (out : List (OptTable S)) (first curr t0 : ℕ) (ts_buf : List ℕ)
      (m m1 : B.Carrier) (maps : List B.Carrier) (res : List (OptTable S)) (nfvs : ℕ)
      (inv : Inv h now out first curr (t0 ∷ ts_buf) (m ∷ m1 ∷ maps) res) where
    abbrev pub kept : B.Carrier
    kept = B.erase_if (λ e v. erase_cond cz first t0 v) m

    kept-Marked :
        (e : List T) (v : ℕ) → Marked S B kept e v ↔ (Marked S B m e v × Wants cz first t0 v)
    kept-Marked e v = (
      λ h.
          let (a, b) = (erase_if-Marked S B (erase_cond cz first t0) m e v).0 h in
          (a, (erase_cond-Wants cz first t0 v).0 b),
      λ (a, b).
          (erase_if-Marked S B (erase_cond cz first t0) m e v).1
            (a, (erase_cond-Wants cz first t0 v).1 b),
    )

    same_time : (t : ℕ) (b : OptTable S) → Point S first t b h → t ≡ t0
    same_time t b p =
        let (c, q) = inv.times.0 in
        omega (
          arith,
          inv.sorted first first t t0 b c p q (omega arith),
          inv.sorted first first t0 t c b q p (omega arith),
        )

    -- The mark of a table that the oldest time point needs, as its age and place.
    age :
        (j u : ℕ) (b : OptTable S)
        → Point S j u b h
        → Wants cz first t0 (key cz inter.l j u) ↔ ((first ≤ j) × (t0 ≤ u) × (inter.l ≤ u - t0))
    age j u b p =
        let (c, q) = inv.times.0 in
        Wants-age inter first t0 j u cz refl (λ lt. inv.sorted j first u t0 b c p q (omega arith))
          (λ le. inv.sorted first j t0 u c b q p le)

    emit_iff :
        (e : List T) → Holds S e (table_from_map S B nfvs kept) ↔ Eventually S inter first t0 e h
    emit_iff e = (
      λ k.
          let (v, mark) = (table_from_map-Holds S B nfvs kept e).0 k in
          let (old, wants) = (kept-Marked e v).0 mark in
          let (j, u, b, p, holds, is) = inv.sound.0 e v old in
          let (a, c, d) = (age j u b p).0 (subst (Wants cz first t0) (sym is) wants) in
          (j, u, b, p, a, c, (contains_parts inter (u - t0)).1 (d, inv.close j u b p), holds),
      λ (j, u, b, p, a, c, d, holds).
          let wants = (age j u b p).1 (a, c, ((contains_parts inter (u - t0)).0 d).0) in
          let (w, mark, le) = inv.complete e j u b p holds wants in
          (table_from_map-Holds S B nfvs kept e).1
            (w, (kept-Marked e w).1 (mark, Wants-up cz first t0 _ w le wants)),
    )

    emit-Correct : Correct S inter h first (table_from_map S B nfvs kept)
    emit-Correct t b p e =
        subst (λ k. Holds S e (table_from_map S B nfvs kept) ↔ Eventually S inter first k e h)
          (sym (same_time t b p)) (emit_iff e)

    -- The next time point is not before this one.
    next-time : (t1 : ℕ) (ts : List ℕ) → TimesFrom (suc first) (t1 ∷ ts) h → t0 ≤ t1
    next-time t1 ts ((b, p), rest) =
        let (c, q) = inv.times.0 in inv.sorted first (suc first) t0 t1 c b q p (omega arith)

    emit-Close : (l : List ℕ) → TimesFrom (suc first) l h → Close l h
    emit-Close [] times = tt
    emit-Close (t1 ∷ ts) times = λ j u b p.
        leq_upper_down inter (u - t1) (u - t0) (omega (arith, next-time t1 ts times))
          (inv.close j u b p)

    emit-Sound : All (Sound h) (merge_first S B kept (m1 ∷ maps))
    unfolding merge_first
    emit-Sound = (
      λ e v k. elim (combine_max_inv S B kept m1 e v k) [
        | inl a ↦ inv.sound.0 e v (((kept-Marked e v).0 a).0)
        | inr a ↦ inv.sound.1.0 e v a
      ],
      inv.sound.1.1,
    )

    emit-Complete :
        (l : List ℕ)
        → TimesFrom (suc first) l h
        → Complete (suc first) l (merge_first S B kept (m1 ∷ maps)) h
    unfolding merge_first
    emit-Complete [] times = tt
    emit-Complete (t1 ∷ ts) times = λ e j u b p k w.
        let wants = Wants-back cz first t0 t1 (key cz inter.l j u) (next-time t1 ts times) w in
        let (x, mark, le) = inv.complete e j u b p k wants in
        let (y, mark2, le2) =
          combine_max-Reaches S B kept m1 e x
            ((kept-Marked e x).1 (mark, Wants-up cz first t0 _ x le wants)) in
        (y, mark2, omega arith)

    emit_closed :
        leq_upper inter (now - t0) ≡ false
        → (i t : ℕ) (b : OptTable S) → Point S i t b h
        → i < suc first
        → leq_upper inter (now - t) ≡ false
    emit_closed late i t b p lt = elim (dec_lt i first) [
      | yes l ↦ inv.closed i t b p l
      | no l ↦
          let q = same_time t b (subst (λ k. Point S k t b h) (omega arith) p) in
          subst (λ k. leq_upper inter (now - k) ≡ false) (sym q) late
    ]

    -- Emitting the result of the oldest time point, which is too old at `now`.
    pub emit-Inv :
        leq_upper inter (now - t0) ≡ false
        → Inv h now out
            (first + 1)
            curr
            ts_buf
            (merge_first S B kept (m1 ∷ maps))
            (res ++ (table_from_map S B nfvs kept ∷ []))
    unfolding merge_first
    emit-Inv late =
        subst
          (λ k.
            Inv h now out k curr ts_buf (merge_first S B kept (m1 ∷ maps))
              (res ++ (table_from_map S B nfvs kept ∷ [])))
          (omega arith)
          (record {
            counted = inv.counted;
            opened = omega (arith, inv.opened);
            sizes = omega (arith, inv.sizes);
            times = inv.times.1;
            past = inv.past;
            sorted = inv.sorted;
            small = inv.small;
            close = emit-Close ts_buf inv.times.1;
            sound = emit-Sound;
            complete = emit-Complete ts_buf inv.times.1;
            closed = emit_closed late;
            answered = (
              inv.answered.0,
              AllCorrect-append S inter h (length out) res _ inv.answered.1 (
                subst (λ k. Correct S inter h k (table_from_map S B nfvs kept)) (sym inv.emitted)
                    emit-Correct,
                tt,
              ),
            );
            emitted =
                omega (arith, inv.emitted, length-append res (table_from_map S B nfvs kept ∷ []));
          })
