-- ===== src/Loadtest/Report/Total.antt =====
-- The reports of internal/loadtest/report.go never slice a text out of range.
use tlspxy.Common.{ℕ, arith, List, [], ◌∷◌, map, Option, none, some}
use tlspxy.Loadtest.Float.{FloatOps, to_int}
use tlspxy.Loadtest.Stats.{LoadResult, Breakdown}
use tlspxy.Loadtest.Report.{format_int, format_float, split_point}
use tlspxy.Loadtest.Report.Numbers.{add_commas_total}
use tlspxy.Loadtest.Report.Printing.{
  concat_all, print_breakdown, print_text, summary_row, print_summary, pad_left?,
}
use tlspxy.Proxy.Header.Text.{decimal}

-- There is a text.
abbrev pub IsPrinted : Option (List ℕ) → Type 0
IsPrinted none = ⊥
IsPrinted (some s) = Unit

abbrev pub AllPrinted : List (Option (List ℕ)) → Type 0
AllPrinted [] = Unit
AllPrinted (o ∷ parts) = IsPrinted o × AllPrinted parts

concat_all-IsPrinted :
    (parts : List (Option (List ℕ))) → AllPrinted parts → IsPrinted (concat_all parts)
unfolding concat_all
concat_all-IsPrinted [] h = tt
concat_all-IsPrinted (none ∷ parts) h = h.0
concat_all-IsPrinted (some s ∷ parts) h = ground (arith, concat_all-IsPrinted parts h.1)

format_int-IsPrinted : (n : ℕ) → IsPrinted (format_int n)
unfolding format_int
format_int-IsPrinted n = rw (add_commas_total (decimal (to_int n))).1 tt

pad_left-IsPrinted : (width : ℕ) (o : Option (List ℕ)) → IsPrinted o → IsPrinted (pad_left? width o)
pad_left-IsPrinted width none h = h
pad_left-IsPrinted width (some s) h = tt

print_breakdown-IsPrinted : (m : Breakdown) → IsPrinted (print_breakdown m)
unfolding print_breakdown
print_breakdown-IsPrinted [] = tt
print_breakdown-IsPrinted (entry ∷ m) =
    concat_all-IsPrinted _
      (ground (arith, format_int-IsPrinted entry.1, print_breakdown-IsPrinted m))

module _ (fl : FloatOps) where
  format_float-IsPrinted : (f : fl.Float) → IsPrinted (format_float fl f)
  unfolding format_float
  format_float-IsPrinted f = ground (arith, (add_commas_total (split_point (fl.fixed 1 f)).0).1)

  pub print_text-IsPrinted :
      (range : Breakdown → Breakdown) (r : LoadResult fl) → IsPrinted (print_text fl range r)
  unfolding print_text
  print_text-IsPrinted range r = concat_all-IsPrinted _ (
      ground (
        arith,
        format_float-IsPrinted r.requests_per_sec,
        format_int-IsPrinted r.error_count,
        print_breakdown-IsPrinted (range r.error_breakdown),
      ))

  summary_row-IsPrinted : (r : LoadResult fl) → IsPrinted (summary_row fl r)
  unfolding summary_row
  summary_row-IsPrinted r = concat_all-IsPrinted _ (
      ground (
        arith,
        pad_left-IsPrinted 10 (format_float fl r.requests_per_sec)
            (format_float-IsPrinted r.requests_per_sec),
        pad_left-IsPrinted 10 (format_int r.error_count) (format_int-IsPrinted r.error_count),
      ))

  summary_rows-AllPrinted :
      (results : List (LoadResult fl)) → AllPrinted (map (summary_row fl) results)
  summary_rows-AllPrinted [] = tt
  summary_rows-AllPrinted (r ∷ results) = (summary_row-IsPrinted r, summary_rows-AllPrinted results)

  pub print_summary-IsPrinted :
      (results : List (LoadResult fl)) → IsPrinted (print_summary fl results)
  unfolding print_summary
  print_summary-IsPrinted [] = tt
  print_summary-IsPrinted (r ∷ results) = concat_all-IsPrinted _ (
    tt,
    (
      concat_all-IsPrinted (map (summary_row fl) (r ∷ results))
          (summary_rows-AllPrinted (r ∷ results)),
      (tt, tt),
    ),
  )
