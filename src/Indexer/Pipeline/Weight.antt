-- ===== src/Indexer/Pipeline/Weight.antt =====
-- How much of a run of the pipeline is left (indexer/pipeline.py): each step of a stage that can go on
-- takes from it.
use axon_search.Base.{
  ℕ, ◌+◌, ◌*◌, ◌≤◌, ◌<◌, ◌≡◌, ◌≢◌, refl, sym, true, false, Option, none, some, List, [], ◌∷◌, arith,
  length, length-append, if◌then◌else◌,
}
use mathlib.Core.Path.{subst}
use axon_search.Crawler.Extractor.{extract}
use axon_search.Crawler.Crawl.{CrawlResult, drop_at}
use axon_search.Indexer.Batching.{Parts, Page}
use axon_search.Indexer.Pipeline.{
  Stage, taking, closing, closed, Run, put_result, end_crawl, take_result, end_extract, put_page,
  end_extracting, take_page, offer, end_of_crawl, receive, take_from, gates, quality_gate,
  dedup_gate, put_one, close_stage, index_from, step,
}

abbrev pub weight_of : Stage → ℕ
weight_of taking = 3
weight_of closing = 2
weight_of closed = 0

abbrev pub pending : {A : Type 0} → Option A → ℕ
pending none = 0
pending (some x) = 5

module _ (parts : Parts) (n : ℕ) where
  -- How many steps are left, at most.
  unfoldable pub weight : Run parts → ℕ
  weight s =
      (if s.crawling then 5 else 0)
      + pending s.offered
      + 4 * length s.crawl_q
      + weight_of s.stage
      + 3 * length s.extracting
      + 2 * length s.putting
      + length s.extract_q

  pub weight-put_result :
      (s : Run parts) (r : CrawlResult)
      → s.offered ≡ some r
      → s.crawl_q ≡ []
      → weight (step parts n put_result s) < weight s
  unfolding weight step offer
  weight-put_result s r o q = ground arith

  pub weight-end_crawl :
      (s : Run parts)
      → s.offered ≡ none
      → s.crawling ≡ true
      → s.crawl_q ≡ []
      → weight (step parts n end_crawl s) < weight s
  unfolding weight step end_of_crawl
  weight-end_crawl s r o q = ground arith

  weight-take_from :
      (q : List (Option CrawlResult)) (s : Run parts)
      → s.stage ≡ taking
      → s.crawl_q ≡ q
      → q ≢ []
      → weight (take_from parts q s) < weight s
  unfolding weight take_from
  weight-take_from [] s t c ne = absurd (ne refl)
  weight-take_from (none ∷ q) s t c ne = ground arith
  weight-take_from (some r ∷ q) s t c ne = ground (arith, length-append {0} s.extracting (r ∷ []))

  pub weight-take_result :
      (s : Run parts)
      → s.stage ≡ taking
      → s.crawl_q ≢ []
      → weight (step parts n take_result s) < weight s
  unfolding step receive
  weight-take_result s t c =
      subst (λ stage. weight (receive parts stage s) < weight s) (sym t)
        (weight-take_from s.crawl_q s t refl c)

  pub weight-end_extracting :
      (s : Run parts)
      → s.stage ≡ closing
      → s.extracting ≡ []
      → s.putting ≡ []
      → s.extract_q ≡ []
      → weight (step parts n end_extracting s) < weight s
  unfolding weight step close_stage
  weight-end_extracting s a b c d = ground arith

  pub weight-put_page :
      (s : Run parts) (p : Page parts) (ps : List (Page parts))
      → s.putting ≡ p ∷ ps
      → s.extract_q ≡ []
      → weight (step parts n (put_page 0) s) < weight s
  unfolding weight step put_one drop_at
  weight-put_page s p ps e q = ground (arith)

  weight-quality_gate :
      (p : Option (Page parts)) (s : Run parts) → weight (quality_gate parts p s) ≤ weight s + 2
  unfolding weight quality_gate dedup_gate
  weight-quality_gate none s = ground arith
  weight-quality_gate (some p) s = ground (arith, length-append {0} s.putting (p ∷ []))

  pub weight-end_extract :
      (s : Run parts) (r : CrawlResult) (rs : List CrawlResult)
      → s.extracting ≡ r ∷ rs
      → weight (step parts n (end_extract 0) s) < weight s
  unfolding weight step gates drop_at
  weight-end_extract s r rs e = rw e (
      omega (
        arith,
        weight-quality_gate (extract parts.env.floats parts.html r) (record s { extracting = rs }),
      ))

  pub weight-take_page :
      (s : Run parts) (e : Option (Page parts)) (q : List (Option (Page parts)))
      → s.finished ≡ false
      → s.indexes.lost ≡ 0
      → s.extract_q ≡ e ∷ q
      → weight (step parts n take_page s) < weight s
  unfolding weight step index_from
  weight-take_page s none q f l c = ground arith
  weight-take_page s (some p) q f l c = ground arith
