-- ===== src/Trend/Buckets.antt =====
-- What each point of the trend counts.
use auditchain_gateway_backe.Prelude.{
  ℕ, zero, suc, ◌+◌, ◌*◌, ◌/◌, ◌≤◌, ◌<◌, ◌≡◌, ◌≢◌, refl, sym, ap, subst, ◌∙◌, Bool, false, ◌&&◌,
  Option, none, some, List, [], ◌∷◌, length, get_elem?, get_elem?-set_self, get_elem?-set_ne, ◌==◌,
  ==_iff, Bool-cases, inl, inr, arith,
}
use auditchain_gateway_backe.Prelude.Text.{Text}
use auditchain_gateway_backe.Prelude.Int.{ℤ, pos, ◌+ℤ◌, ◌-ℤ◌}
use auditchain_gateway_backe.Prelude.Table.{count_where}
use auditchain_gateway_backe.Trend.{
  TrendWindow, TrendRow, TrendCounts, TrendPoint, no_counts, counts_with, counted, counts_of,
  in_window, in_bucket, groups_from, blank_points, write_point, fill_points, load_trend,
}

count_where-and :
    (p q : TrendRow → Bool) (rows : List TrendRow)
    → count_where p rows ≡ 0
    → count_where (λ (r : TrendRow). p r && q r) rows ≡ 0
unfolding count_where
count_where-and p q [] h = refl
count_where-and p q (r ∷ rows) h = ground (arith, count_where-and p q rows)

-- a group without rows
counts_of-empty :
    (p : TrendRow → Bool) (rows : List TrendRow)
    → count_where p rows ≡ 0
    → counts_of p rows ≡ no_counts
unfolding counts_of counted
counts_of-empty p rows h =
    ap (λ (n : ℕ). counts_with n (counted p rows)) h
    ∙ ap (counts_with 0) (λ i test. count_where-and p test rows h i)

get_elem?-bound :
    (ps : List TrendPoint) (j : ℕ) (p : TrendPoint) → get_elem? ps j ≡ some p → j < length ps
get_elem?-bound [] j p h = cc h
get_elem?-bound (x ∷ ps) zero p h = omega arith
get_elem?-bound (x ∷ ps) (suc j) p h = omega (arith, get_elem?-bound ps j p h)

write_point_self :
    (j : ℕ) (c : TrendCounts) (ps : List TrendPoint) (p : TrendPoint)
    → get_elem? ps j ≡ some p
    → get_elem? (write_point j c (get_elem? ps j) ps) j ≡ some (record p { point_counts = c })
write_point_self j c ps p h =
    rw h (get_elem?-set_self ps j (record p { point_counts = c }) (get_elem?-bound ps j p h))

write_point_other :
    (k j : ℕ) (c : TrendCounts) (o : Option TrendPoint) (ps : List TrendPoint)
    → k ≢ j
    → get_elem? (write_point k c o ps) j ≡ get_elem? ps j
write_point_other k j c none ps h = refl
write_point_other k j c (some p) ps h = get_elem?-set_ne ps (record p { point_counts = c }) h

module _ (group : ℕ → TrendRow → Bool) (rows : List TrendRow) where
  fill_points-below :
      (n k j : ℕ) (ps : List TrendPoint)
      → j < k
      → get_elem? (fill_points (groups_from n k group rows) ps) j ≡ get_elem? ps j
  unfolding fill_points groups_from
  fill_points-below zero k j ps h = refl
  fill_points-below (suc n) k j ps h = elim (Bool-cases (count_where (group k) rows == 0)) [
    | inl e ↦ rw e (fill_points-below n (suc k) j ps (omega arith))
    | inr e ↦ rw e (
        fill_points-below n (suc k) j _ (omega arith)
        ∙ write_point_other k j (counts_of (group k) rows) (get_elem? ps k) ps (omega arith))
  ]

  -- the group in front
  fill_points-first :
      (n j : ℕ) (ps : List TrendPoint) (p : TrendPoint)
      → get_elem? ps j ≡ some p
      → p.point_counts ≡ no_counts
      → get_elem? (fill_points (groups_from (suc n) j group rows) ps) j
        ≡ some (record p { point_counts = counts_of (group j) rows })
  unfolding fill_points groups_from
  fill_points-first n j ps p h blank = elim (Bool-cases (count_where (group j) rows == 0)) [
    | inl e ↦ rw e (
        fill_points-below n (suc j) j ps (omega arith)
        ∙ h
        ∙ ap (λ (c : TrendCounts). some (record p { point_counts = c }))
            (blank
              ∙ sym (counts_of-empty (group j) rows ((==_iff (count_where (group j) rows) 0).0 e))))
    | inr e ↦ rw e (
        fill_points-below n (suc j) j _ (omega arith)
        ∙ write_point_self j (counts_of (group j) rows) ps p h)
  ]

  fill_points-at :
      (n k j : ℕ) (ps : List TrendPoint) (p : TrendPoint)
      → k ≤ j
      → j < k + n
      → get_elem? ps j ≡ some p
      → p.point_counts ≡ no_counts
      → get_elem? (fill_points (groups_from n k group rows) ps) j
        ≡ some (record p { point_counts = counts_of (group j) rows })
  unfolding fill_points groups_from
  fill_points-at zero k j ps p low high h blank = absurd (omega arith)
  fill_points-at (suc n) k j ps p low high h blank = elim (Bool-cases (j == k)) [
    | inl e ↦
        subst
          (λ (t : ℕ).
            get_elem? (fill_points (groups_from (suc n) t group rows) ps) j
            ≡ some (record p { point_counts = counts_of (group j) rows }))
          ((==_iff j k).0 e) (fill_points-first n j ps p h blank)
    | inr e ↦ elim (Bool-cases (count_where (group k) rows == 0)) [
      | inl none_there ↦
          rw none_there (fill_points-at n (suc k) j ps p (ground arith) (omega arith) h blank)
      | inr some_there ↦ rw some_there (
          fill_points-at n (suc k) j _ p (ground arith) (omega arith)
            (write_point_other k j (counts_of (group k) rows) (get_elem? ps k) ps (ground arith)
              ∙ h)
            blank)
    ]
  ]

blank_points-get :
    (n k i j unit : ℕ) (from : ℤ)
    → i < n
    → j ≡ k + i
    → get_elem? (blank_points n k unit from) i
      ≡ some (record { bucket_start = from +ℤ pos (j * unit); point_counts = no_counts })
unfolding blank_points
blank_points-get zero k i j unit from h e = absurd (omega arith)
blank_points-get (suc n) k zero j unit from h e =
    ap
      (λ (t : ℕ). some (record { bucket_start = from +ℤ pos (t * unit); point_counts = no_counts }))
      (omega arith)
blank_points-get (suc n) k (suc i) j unit from h e =
    blank_points-get n (suc k) i j unit from (omega arith) (omega arith)

count_where-never : (rows : List TrendRow) → count_where (λ (r : TrendRow). false) rows ≡ 0
unfolding count_where
count_where-never [] = refl
count_where-never (r ∷ rows) = count_where-never rows

no_client :
    (rows : List TrendRow) (w : TrendWindow) (from to : ℤ) (i : ℕ)
    → counts_of (in_bucket w [] from to i) rows ≡ no_counts
unfolding in_window
no_client rows w from to i =
    counts_of-empty (in_bucket w [] from to i) rows (count_where-never rows)

-- Each point of the trend starts its bucket at the right time and counts exactly the rows of the
-- query that fall into the bucket, also where the query gives no group for it and where no client
-- is asked for.
pub load_trend-counts :
    (rows : List TrendRow) (clients : List Text) (w : TrendWindow) (to : ℤ) (i : ℕ)
    → i < w.bucket_qty
    → get_elem? (load_trend rows clients w to) i
      ≡ some (record {
        bucket_start =
            (to -ℤ pos (w.seconds * 1000000)) +ℤ pos (i * (w.seconds / w.bucket_qty * 1000000));
        point_counts = counts_of (in_bucket w clients (to -ℤ pos (w.seconds * 1000000)) to i) rows;
      })
unfolding load_trend
load_trend-counts rows [] w to i h =
    let from : ℤ = to -ℤ pos (w.seconds * 1000000) in
    let unit : ℕ = w.seconds / w.bucket_qty * 1000000 in
    blank_points-get w.bucket_qty 0 i i unit from h (omega arith)
    ∙ ap
        (λ (c : TrendCounts).
          some (record { bucket_start = from +ℤ pos (i * unit); point_counts = c }))
        (sym (no_client rows w from to i))
load_trend-counts rows (c ∷ cs) w to i h =
    let from : ℤ = to -ℤ pos (w.seconds * 1000000) in
    let unit : ℕ = w.seconds / w.bucket_qty * 1000000 in
    fill_points-at (in_bucket w (c ∷ cs) from to) rows w.bucket_qty 0 i
      (blank_points w.bucket_qty 0 unit from) _ (omega arith) (omega arith)
      (blank_points-get w.bucket_qty 0 i i unit from h (omega arith)) refl
