-- ===== src/Collector/Influx/Documents.antt =====
-- The documents of a report.
use mathlib.Core.List.{reverse, reverse_aux}
use smoothie.Base.{
  ℕ, ◌+◌, String, ◌≡◌, sym, ap, ◌∙◌, inl, inr, List, [], ◌∷◌, arith, nat_eq, string_eq, pair_eq,
  Option-cases, length,
}
use smoothie.Base.Error.{Result, ok}
use smoothie.Base.Exec.{>>=-eq-ok}
use smoothie.Collector.Hop.{HopMetadata}
use smoothie.Collector.Report.{IntReport}
use smoothie.Collector.Influx.{
  Floats, Document, IntCollector, prepare_hop_report, prepare_hops, prepare_reports, last_hop,
  prepare_e2e_report,
}

length-reverse_aux {ℓ} :
    {A : Type ℓ} (xs ys : List A) → length (reverse_aux xs ys) ≡ length xs + length ys
length-reverse_aux [] ys = omega arith
length-reverse_aux (x ∷ xs) ys = length-reverse_aux xs (x ∷ ys) ∙ omega arith

module _ (fl : Floats) (clock : ℕ → ℕ) (report : IntReport) (flow_key : String) where
  prepare_hops-length :
      (i : ℕ) (hs : List HopMetadata) (c c' : IntCollector) (ds : List (Document fl))
      → prepare_hops fl clock report flow_key i hs c ≡ (ok ds, c')
      → length ds ≡ length hs
  unfolding prepare_hops
  prepare_hops-length i [] c c' ds e =
      let none_made : [] ≡ ds =
        cc (ap (λ (p : Result (List (Document fl)) × IntCollector). p.0) e) in
      sym (ap length none_made)
  prepare_hops-length i (h ∷ hs) c c' ds e =
      let (d, c1, e1, k1) =
        >>=-eq-ok (prepare_hop_report fl (clock (i + 1)) report i h flow_key) _ c e in
      let (rest, c2, e2, k2) =
        >>=-eq-ok (prepare_hops fl clock report flow_key (i + 1) hs) _ c1 k1 in
      let same : d ∷ rest ≡ ds =
        cc (ap (λ (p : Result (List (Document fl)) × IntCollector). p.0) k2) in
      sym (ap length same) ∙ omega (arith, prepare_hops-length (i + 1) hs c1 c2 rest e2)

  -- A report whose documents are made without an exception gives one for the flow and one for each
  -- hop.
  pub prepare_reports-length :
      (c c' : IntCollector) (ds : List (Document fl))
      → prepare_reports fl clock report flow_key c ≡ (ok ds, c')
      → length ds ≡ length report.hops.hop_metadata + 1
  unfolding prepare_reports
  prepare_reports-length c c' ds e = elim (Option-cases (last_hop report.hops.hop_metadata)) [
    | inl n ↦ cc (
        ap (λ (p : Result (List (Document fl)) × IntCollector). p.0) (rw (n, prepare_reports) at e))
    | inr (l, n) ↦ elim (Option-cases l.ingress_timestamp) [
      | inl m ↦ cc (
          ap (λ (p : Result (List (Document fl)) × IntCollector). p.0)
            (rw (n, m, prepare_reports) at e))
      | inr (t, m) ↦
          let (rest, c2, e2, k2) =
            >>=-eq-ok (prepare_hops fl clock report flow_key 0 (reverse report.hops.hop_metadata)) _
              _ (rw (n, m, prepare_reports) at e) in
          let same : (prepare_e2e_report fl (clock 0) report flow_key c).0 ∷ rest ≡ ds =
            cc (ap (λ (p : Result (List (Document fl)) × IntCollector). p.0) k2) in
          sym (ap length same)
          ∙ omega (
            arith,
            prepare_hops-length 0 (reverse report.hops.hop_metadata) _ c2 rest e2,
            length-reverse_aux report.hops.hop_metadata [],
          )
    ]
  ]
