-- ===== src/Metrics.antt =====
-- internal/metrics/metrics.go: the labels of a series in the text format, and the buckets of a
-- histogram. Texts are lists of code points, a set of labels is a list of names and values with
-- each name once, and names are ordered as Go orders strings. An observed value, a bound and a sum
-- are exact numbers in one unit, in place of floats, so NaN and rounding are left out; a call runs
-- in one piece, as the mutex has it.
pub mod Escapes
pub mod Labels
pub mod Totals
pub mod Buckets
mod Tests
use loon_site.Prelude.{
  ℕ, zero, suc, ◌+◌, Bool, true, false, Option, none, some, List, [], ◌∷◌, ◌++◌, map, ltb, leb,
  ◌==◌, nat_eq, if◌then◌else◌, lookup, insert,
}
use loon_site.Prelude.Bytes.{Bytes, bytes_eq, codes}
use loon_site.Prelude.Text.{bytes_lt}
use loon_site.Prelude.Decimal.{format}

abbrev pub newline : ℕ
newline = 10

abbrev pub backslash : ℕ
backslash = 92

abbrev pub quote : ℕ
quote = 34

-- `strings.ReplaceAll` of one character.
unfoldable pub replace_all : ℕ → Bytes → Bytes → Bytes
replace_all old new [] = []
replace_all old new (c ∷ s) =
    let rest = replace_all old new s in if c == old then new ++ rest else c ∷ rest

-- `escapeLabel`
unfoldable pub escape_label : Bytes → Bytes
unfolding replace_all
escape_label v = replace_all newline (backslash ∷ b'n' ∷ []) (
    replace_all quote (backslash ∷ quote ∷ [])
      (replace_all backslash (backslash ∷ backslash ∷ []) v))

-- `escapeHelp`
unfoldable pub escape_help : Bytes → Bytes
unfolding replace_all
escape_help v =
    replace_all newline (backslash ∷ b'n' ∷ [])
      (replace_all backslash (backslash ∷ backslash ∷ []) v)

abbrev pub LabelSet : Type 0
LabelSet = List (Bytes × Bytes)

-- `sort.Strings` on the names.
unfoldable pub insert_label : Bytes → Bytes → LabelSet → LabelSet
insert_label k v [] = (k, v) ∷ []
insert_label k v ((j, w) ∷ labels) =
    let rest = insert_label k v labels in
    if bytes_lt j k then (j, w) ∷ rest else (k, v) ∷ (j, w) ∷ labels

unfoldable pub sort_labels : LabelSet → LabelSet
unfolding insert_label
sort_labels [] = []
sort_labels ((k, v) ∷ labels) = insert_label k v (sort_labels labels)

-- `name="value"`
unfoldable pub label_pair : Bytes → Bytes → Bytes
label_pair k v = k ++ (b'=' ∷ quote ∷ (escape_label v ++ (quote ∷ [])))

-- The pairs after the first, each behind a comma, and the brace.
unfoldable pub more_labels : LabelSet → Bytes
more_labels [] = b'}' ∷ []
more_labels ((k, v) ∷ labels) = b',' ∷ (label_pair k v ++ more_labels labels)

unfoldable pub braced : LabelSet → Bytes
braced [] = []
braced ((k, v) ∷ labels) = b'{' ∷ (label_pair k v ++ more_labels labels)

-- `labelString`
unfoldable pub label_string : LabelSet → Bytes
unfolding sort_labels braced
label_string labels = braced (sort_labels labels)

pub record HistSeries : Type 0 where
  pub labels : LabelSet
  pub counts : List ℕ
  pub sum : ℕ
  pub count : ℕ

pub record Histogram : Type 0 where
  pub name : Bytes
  pub help : Bytes
  pub buckets : List ℕ
  pub series : List (Bytes × HistSeries)

-- `sort.Float64s`
unfoldable pub insert_bound : ℕ → List ℕ → List ℕ
insert_bound b [] = b ∷ []
insert_bound b (c ∷ bounds) =
    let rest = insert_bound b bounds in if ltb c b then c ∷ rest else b ∷ c ∷ bounds

unfoldable pub sort_bounds : List ℕ → List ℕ
unfolding insert_bound
sort_bounds [] = []
sort_bounds (b ∷ bounds) = insert_bound b (sort_bounds bounds)

-- `NewHistogram`
unfoldable pub new_histogram : Bytes → Bytes → List ℕ → Histogram
unfolding sort_bounds
new_histogram name help buckets = record {
  name = name;
  help = help;
  buckets = sort_bounds buckets;
  series = [];
}

-- The loop of `Observe`: the first bucket that the value fits in counts it.
unfoldable pub count_in : List ℕ → ℕ → List ℕ → List ℕ
count_in [] v counts = counts
count_in (b ∷ bounds) v [] = []
count_in (b ∷ bounds) v (n ∷ counts) =
    let rest = count_in bounds v counts in if leb v b then (n + 1) ∷ counts else n ∷ rest

abbrev pub found_or_new : LabelSet → List ℕ → Option HistSeries → HistSeries
found_or_new labels buckets none = record {
  labels = labels;
  counts = map (λ b. 0) buckets;
  sum = 0;
  count = 0;
}
found_or_new labels buckets (some s) = s

abbrev pub observed : List ℕ → ℕ → HistSeries → HistSeries
observed buckets v s = record s {
  sum = s.sum + v;
  count = s.count + 1;
  counts = count_in buckets v s.counts;
}

-- `Observe`
unfoldable pub observe : LabelSet → ℕ → Histogram → Histogram
unfolding count_in
observe labels v h =
    let key = label_string labels in
    let s = found_or_new labels h.buckets (lookup key h.series) in
    record h { series = insert key (observed h.buckets v s) h.series }

-- `running`, at each bucket that `Render` writes.
unfoldable pub running : ℕ → List ℕ → List ℕ
running total [] = []
running total (n ∷ counts) = (total + n) ∷ running (total + n) counts

-- `withLabel`
unfoldable pub with_label : LabelSet → Bytes → Bytes → LabelSet
with_label base k v = insert k v base

-- A series, its value and the end of the line.
abbrev line : Bytes → Bytes → Bytes
line series value = series ++ (b' ' ∷ (value ++ (newline ∷ [])))

-- The lines of the buckets, one for each bound.
unfoldable pub bucket_lines : (ℕ → Bytes) → Bytes → LabelSet → List ℕ → List ℕ → Bytes
bucket_lines show name labels [] totals = []
bucket_lines show name labels (b ∷ bounds) [] = []
bucket_lines show name labels (b ∷ bounds) (n ∷ totals) =
    line (name ++ codes "_bucket" ++ label_string (with_label labels (codes "le") (show b)))
      (format n)
    ++ bucket_lines show name labels bounds totals

-- What `Render` writes of one series, where `show` is `formatValue`.
unfoldable pub series_lines : (ℕ → Bytes) → Bytes → List ℕ → HistSeries → Bytes
unfolding running bucket_lines
series_lines show name buckets s =
    let inf = with_label s.labels (codes "le") (codes "+Inf") in
    bucket_lines show name s.labels buckets (running 0 s.counts)
    ++ line (name ++ codes "_bucket" ++ label_string inf) (format s.count)
    ++ line (name ++ codes "_sum" ++ label_string s.labels) (show s.sum)
    ++ line (name ++ codes "_count" ++ label_string s.labels) (format s.count)
