-- ===== src/Metrics/Tests.antt =====
-- Tests of the model of the metrics, and its theorems at concrete inputs.
use loon_site.Prelude.{ℕ, ◌≡◌, refl, some, List, [], ◌∷◌, ◌++◌, map, lookup, length}
use loon_site.Prelude.Bytes.{Bytes, codes, bytes_eq}
use loon_site.Metrics.{
  quote, escape_label, LabelSet, label_string, sort_labels, running, new_histogram, sort_bounds,
}
use mathlib.Core.List.{Perm}
use loon_site.Metrics.Escapes.{read_value, read-escape}
use loon_site.Metrics.Labels.{label_string_injective}
use loon_site.Metrics.Totals.{within}
use loon_site.Metrics.Buckets.{counts_of, count_of, observe_all, values_of, buckets_cumulative}

abbrev odd_value : Bytes
odd_value = codes "a\"b\\n"

read-escape_example :
    read_value (escape_label odd_value ++ (quote ∷ codes ",x")) ≡ some (odd_value, codes ",x")
read-escape_example = read-escape odd_value (codes ",x")

abbrev get_ok : LabelSet
get_ok = (codes "verb", codes "get") ∷ (codes "code", codes "200") ∷ []

abbrev ok_get : LabelSet
ok_get = (codes "code", codes "200") ∷ (codes "verb", codes "get") ∷ []

label_string_injective_example : Perm get_ok ok_get
unfolding label_string loon_site.Prelude.Text.bytes_lt
label_string_injective_example =
    label_string_injective get_ok ok_get
      ((refl, (refl, (refl, (refl, tt)))), ((refl, (refl, (refl, (refl, tt)))), tt))
      ((refl, (refl, (refl, (refl, tt)))), ((refl, (refl, (refl, (refl, tt)))), tt)) refl

abbrev seen : List (LabelSet × ℕ)
seen = (get_ok, 7) ∷ ([], 3) ∷ (ok_get, 2) ∷ (get_ok, 40) ∷ []

buckets_cumulative_example :
    let series =
      lookup
        (label_string get_ok)
        (observe_all seen (new_histogram (codes "d") [] (10 ∷ 5 ∷ []))).series in
    (running 0 (counts_of (sort_bounds (10 ∷ 5 ∷ [])) series)
      ≡ map (within (values_of (label_string get_ok) seen)) (sort_bounds (10 ∷ 5 ∷ [])))
    × (count_of series ≡ length (values_of (label_string get_ok) seen))
buckets_cumulative_example =
    buckets_cumulative (codes "d") [] (label_string get_ok) (10 ∷ 5 ∷ []) seen

written_labels : label_string get_ok ≡ codes "{code=\"200\",verb=\"get\"}"
unfolding label_string loon_site.Prelude.Text.bytes_lt loon_site.Metrics.label_pair escape_label
    loon_site.Metrics.more_labels
written_labels = refl
