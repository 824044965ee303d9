-- ===== src/Trend/Totals.antt =====
-- The points of the trend together count each log of the window once.
use auditchain_gateway_backe.Prelude.{
  ℕ, zero, suc, ◌+◌, ◌-◌, ◌*◌, ◌/◌, ◌<◌, ◌≡◌, refl, ap, ◌∙◌, Bool, true, ◌&&◌, Option, none, some,
  List, [], ◌∷◌, get_elem?, ◌==◌, ltb, Bool-cases, inl, inr, arith, if◌then◌else◌,
}
use auditchain_gateway_backe.Prelude.Text.{Text}
use auditchain_gateway_backe.Prelude.Int.{ℤ, pos, negsuc, ◌-ℤ◌}
use auditchain_gateway_backe.Prelude.Table.{count_where}
use auditchain_gateway_backe.Trend.{
  TrendWindow, TrendRow, TrendPoint, floor_in, bucket_index_of, in_window, in_bucket, counts_of,
  load_trend,
}
use auditchain_gateway_backe.Trend.Buckets.{load_trend-counts}

-- f 0 + … + f (n - 1)
unfoldable pub total_over : ℕ → (ℕ → ℕ) → ℕ
total_over zero f = 0
total_over (suc n) f = total_over n f + f n

abbrev pub total_of : Option TrendPoint → ℕ
total_of none = 0
total_of (some p) = p.point_counts.total_logs

total_over-congr :
    (n : ℕ) (f g : ℕ → ℕ) → ((i : ℕ) → i < n → f i ≡ g i) → total_over n f ≡ total_over n g
unfolding total_over
total_over-congr zero f g h = refl
total_over-congr (suc n) f g h =
    rw (total_over-congr n f g (λ i l. h i (omega arith)), h n (omega arith)) refl

-- one more at the place `j`
total_over-suc :
    (n j : ℕ) (f : ℕ → ℕ)
    → total_over n (λ (i : ℕ). if j == i then suc (f i) else f i)
      ≡ (if ltb j n then suc (total_over n f) else total_over n f)
unfolding total_over
total_over-suc zero j f = ground arith
total_over-suc (suc n) j f = ground (arith, total_over-suc n j f)

total_over-zero : (n : ℕ) → total_over n (λ (i : ℕ). 0) ≡ 0
unfolding total_over
total_over-zero zero = refl
total_over-zero (suc n) = omega (arith, total_over-zero n)

-- rows spread over n places
count_where-places :
    (p : TrendRow → Bool) (place : TrendRow → ℕ) (n : ℕ)
    → ((r : TrendRow) → ltb (place r) n ≡ true)
    → (rows : List TrendRow)
    → total_over n (λ (i : ℕ). count_where (λ (r : TrendRow). p r && place r == i) rows)
      ≡ count_where p rows
unfolding count_where
count_where-places p place n h [] = total_over-zero n
count_where-places p place n h (r ∷ rows) = elim (Bool-cases (p r)) [
  | inl e ↦
      rw
        (
          e,
          total_over-suc n (place r)
              (λ (i : ℕ). count_where (λ (r : TrendRow). p r && place r == i) rows),
          h r,
          count_where-places p place n h rows,
        )
        refl
  | inr e ↦ rw e (count_where-places p place n h rows)
]

floor_in-last : (n unit : ℕ) (d : ℤ) → 0 < n → ltb (floor_in (n - 1) unit d) n ≡ true
floor_in-last n unit (pos k) h = ground arith
floor_in-last n unit (negsuc k) h = ground arith

index_in_range :
    (w : TrendWindow) (from : ℤ)
    → 0 < w.bucket_qty
    → (r : TrendRow) → ltb (bucket_index_of w from r) w.bucket_qty ≡ true
unfolding bucket_index_of
index_in_range w from h r =
    floor_in-last w.bucket_qty (w.seconds / w.bucket_qty * 1000000) (r.row_time -ℤ from) h

-- The totals of all points add up to the number of rows that the query selects: no log of the
-- window is lost at a border of two buckets, and none is counted twice.
pub load_trend-total :
    (rows : List TrendRow) (clients : List Text) (w : TrendWindow) (to : ℤ)
    → 0 < w.bucket_qty
    → total_over w.bucket_qty (λ (i : ℕ). total_of (get_elem? (load_trend rows clients w to) i))
      ≡ count_where (in_window clients (to -ℤ pos (w.seconds * 1000000)) to) rows
unfolding counts_of
load_trend-total rows clients w to h =
    let from : ℤ = to -ℤ pos (w.seconds * 1000000) in
    total_over-congr w.bucket_qty (λ (i : ℕ). total_of (get_elem? (load_trend rows clients w to) i))
      (λ (i : ℕ). count_where (in_bucket w clients from to i) rows)
      (λ i l. ap total_of (load_trend-counts rows clients w to i l))
    ∙ count_where-places (in_window clients from to) (bucket_index_of w from) w.bucket_qty
        (index_in_range w from h) rows
