-- ===== src/Utils/QualityScorer/Gates.antt =====
-- The hard gates of the quality scorer (utils/quality_scorer.py).
use axon_search.Base.{◌<◌, ◌≡◌, refl, ap, ◌∙◌, lt→ltb, ◌⊎◌, inl, inr, false, ltb, Bool-cases}
use axon_search.Base.Floats.{Floats}
use axon_search.Utils.QualityScorer.{Calls, Page, Scorer, score_text, score, report}

module _ (f : Floats) (calls : Calls f) where
  score-gates :
      (q : Scorer f) (page : Page f)
      → (page.word_count < q.min_words) ⊎ (f.leb page.link_density q.max_link_density ≡ false)
      → score f calls q page ≡ f.zero
  unfolding score score_text
  score-gates q page (inl few) = rw (lt→ltb page.word_count q.min_words few) refl
  score-gates q page (inr linked) = elim (Bool-cases (ltb page.word_count q.min_words)) [
    | inl few ↦ rw few refl
    | inr enough ↦ rw (enough, linked) refl
  ]

  -- A page with too few words, or with too many links, fails whatever else it holds, provided that
  -- the threshold is positive, and its score is zero.
  report-gates :
      (q : Scorer f) (page : Page f)
      → f.leb q.threshold f.zero ≡ false
      → (page.word_count < q.min_words) ⊎ (f.leb page.link_density q.max_link_density ≡ false)
      → ((report f calls q page).score ≡ f.zero) × ((report f calls q page).passed ≡ false)
  unfolding report
  report-gates q page h bad =
      let zero_score = score-gates q page bad in (zero_score, ap (f.leb q.threshold) zero_score ∙ h)
