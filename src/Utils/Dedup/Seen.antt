-- ===== src/Utils/Dedup/Seen.antt =====
-- A text that the filter has seen stays a duplicate (utils/dedup.py).
use axon_search.Base.{ℕ, ◌≡◌, refl, sym, ap, ◌∙◌, inl, true, false, List, [], ◌∷◌, In, inr, ◌↔◌}
use mathlib.Core.Path.{subst}
use axon_search.Base.Text.{Text}
use axon_search.Utils.Dedup.{
  Lsh, DedupFilter, shingle, init, update_all, build_minhash, answer, is_duplicate, after,
}

module _ {Float : Type 0} (lsh : Lsh Float) where
  -- What MinHash documents: a fingerprint is that of the set of its updates, in whatever order and
  -- however often they come. What MinHashLSH documents: an empty index has no match; a fingerprint
  -- matches one that is equal to it; and a match stays one when more is inserted.
  pub record Laws : Type 0 where
    pub update_comm :
        (s t : Text) (mh : lsh.MinHash)
        → lsh.update s (lsh.update t mh) ≡ lsh.update t (lsh.update s mh)
    pub update-update :
        (s : Text) (mh : lsh.MinHash) → lsh.update s (lsh.update s mh) ≡ lsh.update s mh
    pub query-empty : (mh : lsh.MinHash) → lsh.query mh lsh.empty ≡ []
    pub query-insert_self :
        (key : ℕ) (mh : lsh.MinHash) (h : lsh.Handle) → In key (lsh.query mh (lsh.insert key mh h))
    pub query-insert :
        (key : ℕ) (mh other : lsh.MinHash) (h : lsh.Handle) (found : ℕ)
        → In found (lsh.query mh h)
        → In found (lsh.query mh (lsh.insert key other h))

module _ {Float : Type 0} (lsh : Lsh Float) (laws : Laws lsh) where
  -- The updates of a set can be made after any other update, and once more.
  update-update_all :
      (s : Text) (xs : List Text) (mh : lsh.MinHash)
      → lsh.update s (update_all lsh xs mh) ≡ update_all lsh xs (lsh.update s mh)
  unfolding update_all
  update-update_all s [] mh = refl
  update-update_all s (x ∷ xs) mh =
      update-update_all s xs (lsh.update x mh) ∙ ap (update_all lsh xs) (laws.update_comm s x mh)

  update_again :
      (s : Text) (xs : List Text) (mh : lsh.MinHash)
      → In s xs
      → update_all lsh xs (lsh.update s mh) ≡ update_all lsh xs mh
  unfolding update_all
  update_again s [] mh i = absurd i
  update_again s (x ∷ xs) mh (inl e) =
      ap (λ y. update_all lsh xs (lsh.update x (lsh.update y mh))) e
      ∙ ap (update_all lsh xs) (laws.update-update x mh)
  update_again s (x ∷ xs) mh (inr i) =
      ap (update_all lsh xs) (laws.update_comm x s mh) ∙ update_again s xs (lsh.update x mh) i

  update_all_again :
      (xs ys : List Text) (mh : lsh.MinHash)
      → ((s : Text) → In s xs → In s ys)
      → update_all lsh ys (update_all lsh xs mh) ≡ update_all lsh ys mh
  unfolding update_all
  update_all_again [] ys mh h = refl
  update_all_again (x ∷ xs) ys mh h =
      update_all_again xs ys (lsh.update x mh) (λ s i. h s (inr i))
      ∙ update_again x ys mh (h x (inl refl))

  update_all_comm :
      (xs ys : List Text) (mh : lsh.MinHash)
      → update_all lsh xs (update_all lsh ys mh) ≡ update_all lsh ys (update_all lsh xs mh)
  unfolding update_all
  update_all_comm [] ys mh = refl
  update_all_comm (x ∷ xs) ys mh =
      ap (update_all lsh xs) (update-update_all x ys mh) ∙ update_all_comm xs ys (lsh.update x mh)

  -- Equal sets have one fingerprint.
  update_all-same :
      (xs ys : List Text) (mh : lsh.MinHash)
      → ((s : Text) → In s xs ↔ In s ys)
      → update_all lsh xs mh ≡ update_all lsh ys mh
  update_all-same xs ys mh h =
      sym (update_all_again ys xs mh (λ s. (h s).1))
      ∙ update_all_comm xs ys mh
      ∙ update_all_again xs ys mh (λ s. (h s).0)

  -- The index has a match for a fingerprint.
  abbrev Has : lsh.MinHash → DedupFilter lsh → Type 0
  Has mh d = (key : ℕ) × In key (lsh.query mh d.index)

  answer-Has :
      (mh : lsh.MinHash) (keys : List ℕ) (d : DedupFilter lsh)
      → lsh.query mh d.index ≡ keys
      → Has mh (answer lsh mh keys d).1
  unfolding answer
  answer-Has mh [] d e = (d.count, laws.query-insert_self d.count mh d.index)
  answer-Has mh (key ∷ keys) d e = (key, subst (In key) (sym e) (inl refl))

  answer-keeps :
      (mh other : lsh.MinHash) (keys : List ℕ) (d : DedupFilter lsh)
      → Has mh d
      → Has mh (answer lsh other keys d).1 × ((answer lsh other keys d).1.shingle_k ≡ d.shingle_k)
  unfolding answer
  answer-keeps mh other [] d (key, i) =
      ((key, laws.query-insert d.count mh other d.index key i), refl)
  answer-keeps mh other (k ∷ keys) d h = (h, refl)

  after-keeps :
      (mh : lsh.MinHash) (texts : List Text) (d : DedupFilter lsh)
      → Has mh d
      → Has mh (after lsh texts d) × ((after lsh texts d).shingle_k ≡ d.shingle_k)
  unfolding after is_duplicate
  after-keeps mh [] d h = (h, refl)
  after-keeps mh (text ∷ texts) d h =
      let other = build_minhash lsh text d in
      let (h', same) = answer-keeps mh other (lsh.query other d.index) d h in
      let (h'', same') = after-keeps mh texts (is_duplicate lsh text d).1 h' in (h'', same' ∙ same)

  answer-true :
      (mh : lsh.MinHash) (keys : List ℕ) (d : DedupFilter lsh) (key : ℕ)
      → In key keys
      → (answer lsh mh keys d).0 ≡ true
  unfolding answer
  answer-true mh [] d key i = absurd i
  answer-true mh (k ∷ keys) d key i = refl

  answer-shingle_k :
      (mh : lsh.MinHash) (keys : List ℕ) (d : DedupFilter lsh)
      → (answer lsh mh keys d).1.shingle_k ≡ d.shingle_k
  unfolding answer
  answer-shingle_k mh [] d = refl
  answer-shingle_k mh (k ∷ keys) d = refl

  -- A new filter takes the first text for no duplicate. Once a filter has answered for a text, it
  -- takes every text with the same set of shingles for a duplicate, whatever texts came in between.
  pub is_duplicate-again :
      (k : ℕ) (first : Text) (d : DedupFilter lsh) (text same : Text) (between : List Text)
      → ((s : Text) → In s (shingle d.shingle_k text) ↔ In s (shingle d.shingle_k same))
      → ((is_duplicate lsh first (init lsh k)).0 ≡ false)
        × ((is_duplicate lsh same (after lsh between (is_duplicate lsh text d).1)).0 ≡ true)
  unfolding is_duplicate init build_minhash
  is_duplicate-again k first d text same between e =
      let mh = build_minhash lsh text d in
      let d' = (is_duplicate lsh text d).1 in
      let seen = answer-Has mh (lsh.query mh d.index) d refl in
      let ((key, i), kept) = after-keeps mh between d' seen in
      let later = after lsh between d' in
      let k_same : later.shingle_k ≡ d.shingle_k =
        kept ∙ answer-shingle_k mh (lsh.query mh d.index) d in
      let print_same : mh ≡ build_minhash lsh same later =
        update_all-same (shingle d.shingle_k text) (shingle d.shingle_k same) lsh.blank e
        ∙ ap (λ n. update_all lsh (shingle n same) lsh.blank) (sym k_same) in
      (
        ap (λ keys. (answer lsh (build_minhash lsh first (init lsh k)) keys (init lsh k)).0)
            (laws.query-empty _),
        answer-true (build_minhash lsh same later) _ later key
            (subst (λ m. In key (lsh.query m later.index)) print_same i),
      )
