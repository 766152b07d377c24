-- ===== src/Indexer/Bm25/Deletion.antt =====
-- Deletion by number and by URL (indexer/bm25.py).
use axon_search.Base.{
  ℕ, suc, ◌≤◌, ◌<◌, ◌≡◌, ◌≢◌, refl, sym, ap, ◌∙◌, ◌⊎◌, if_pos, if_neg, inl, inr, true, false, none,
  some, List, [], ◌∷◌, arith, leb, length, All, In, Bool-cases, leb→le, leb→lt, length-append,
}
use native.Mathlib.Decide.{ℕ_discrete}
use mathlib.Core.Path.{subst}
use mathlib.Core.Bool.{false≢true}
use axon_search.Base.Dict.{nat_key, lookup, contains, lookup-insert}
use axon_search.Base.Text.{Text, codes, str_key}
use axon_search.Indexer.Collect.{length-IsNodup-le}
use axon_search.Indexer.Bm25.{Env, Meta, Index, add_url, add, update_vocab, tokenize}
use axon_search.Indexer.Bm25.Search.{
  Hit, size, is_deleted, delete, delete_by_url, url_to_doc_id, search,
}
use axon_search.Indexer.Bm25.State.{IsValid, absent-All, add-IsValid, delete-IsValid}
use axon_search.Indexer.Bm25.Ranking.{Laws}
use axon_search.Indexer.Bm25.Results.{search-IsLive}

module _ (env : Env) where
  -- `delete` answers true exactly for a document that was added and is not deleted yet; then the
  -- document counts as deleted and the size falls by one. Otherwise nothing changes. No other
  -- document is touched.
  pub delete_lem :
      (d : ℕ) (idx : Index env)
      → IsValid env idx
      → let (done, idx') = delete env d idx in
        ((done ≡ true)
          × (d < length idx.corpus)
          × (is_deleted env d idx ≡ false)
          × (is_deleted env d idx' ≡ true)
          × (suc (size env idx') ≡ size env idx)
          × ((other : ℕ) → other ≢ d → is_deleted env other idx' ≡ is_deleted env other idx))
        ⊎ ((done ≡ false)
            × (idx' ≡ idx)
            × ((length idx.corpus ≤ d) ⊎ (is_deleted env d idx ≡ true)))
  unfolding delete is_deleted size contains
  delete_lem d idx v = elim (Bool-cases (leb (length idx.corpus) d)) [
    | inl out ↦ inr (rw out, rw out, inl (leb→le (length idx.corpus) d out))
    | inr known ↦ elim (Bool-cases (contains d idx.deleted)) [
      | inl gone ↦ inr (rw (known, gone), rw (known, gone), inr gone)
      | inr there ↦
          let lt = leb→lt (length idx.corpus) d known in
          let room =
            length-IsNodup-le (length idx.corpus) (d ∷ idx.deleted)
              (absent-All d idx.deleted there, v.dead_once) (lt, v.dead_known) in
          inl (
            rw (known, there),
            lt,
            there,
            rw (known, there) (if_pos (ℕ_discrete d d) refl true (contains d idx.deleted)),
            rw (known, there) (omega (arith, room)),
            λ other n.
                rw (known, there)
                  (if_neg (ℕ_discrete d other) (λ e. n (sym e)) true (contains other idx.deleted)),
          )
    ]
  ]

  dead :
      (d : ℕ) (idx : Index env)
      → IsValid env idx
      → d < length idx.corpus
      → is_deleted env d (delete env d idx).1 ≡ true
  dead d idx v known = elim (delete_lem d idx v) [
    | inl (_, _, _, gone, _, _) ↦ gone
    | inr (_, _, inl out) ↦ absurd (omega arith)
    | inr (_, same, inr gone) ↦ ap (is_deleted env d) same ∙ gone
  ]

  -- A deleted document is in no later search result.
  search-delete :
      (laws : Laws env) (d : ℕ) (idx : Index env) (query : Text) (top_k : ℕ) (hit : Hit env)
      → IsValid env idx
      → 0 < top_k
      → d < length idx.corpus
      → In hit (search env query top_k (delete env d idx).1).0
      → hit.0 ≢ d
  search-delete laws d idx query top_k hit v pos known found e =
      let idx' = (delete env d idx).1 in
      let live = search-IsLive env laws query top_k pos idx' (delete-IsValid env d idx v) in
      false≢true
        (sym (live.1 hit found).alive ∙ ap (λ i. is_deleted env i idx') e ∙ dead d idx v known)

  lookup-add_url :
      (url : Text) (n : ℕ) (urls : List (Text × ℕ))
      → url ≢ []
      → lookup url (add_url env (some url) n urls) ≡ some n
  unfolding add_url
  lookup-add_url [] n urls h = absurd (h refl)
  lookup-add_url (c ∷ cs) n urls h =
      lookup-insert (c ∷ cs) (c ∷ cs) n urls
      ∙ if_pos (str_key.dec_eq (c ∷ cs) (c ∷ cs)) refl (some n) (lookup (c ∷ cs) urls)

  url-add :
      (text : Text) (meta : Meta) (url : Text) (idx : Index env)
      → lookup (codes "url") meta ≡ some url
      → url ≢ []
      → url_to_doc_id env url (add env text meta idx).1 ≡ some (length idx.corpus)
  unfolding add update_vocab url_to_doc_id
  url-add text meta url idx e h = rw e (lookup-add_url url (length idx.corpus) idx.url_to_id h)

  fresh : (n m : ℕ) (xs : List ℕ) → n ≤ m → All (λ x. x < n) xs → contains m xs ≡ false
  unfolding contains
  fresh n m [] h a = refl
  fresh n m (x ∷ xs) h a = ground (arith, fresh n m xs)

  delete_by_url_known :
      (url : Text) (n : ℕ) (idx : Index env)
      → url_to_doc_id env url idx ≡ some n
      → delete_by_url env url idx ≡ delete env n idx
  unfolding url_to_doc_id delete_by_url
  delete_by_url_known url n idx e =
      ap (λ o. elim o [ none ↦ (false, idx) | some doc_id ↦ delete env doc_id idx ]) e

  url-delete :
      (url : Text) (d : ℕ) (idx : Index env)
      → url_to_doc_id env url (delete env d idx).1 ≡ url_to_doc_id env url idx
  unfolding url_to_doc_id delete
  url-delete url d idx = ground arith

  -- A live document that a URL names is deleted by that URL, once.
  delete_by_url_once :
      (url : Text) (n : ℕ) (idx : Index env)
      → IsValid env idx
      → url_to_doc_id env url idx ≡ some n
      → is_deleted env n idx ≡ false
      → let (done, idx') = delete_by_url env url idx in
        (done ≡ true)
        × (is_deleted env n idx' ≡ true)
        × ((other : ℕ) → other ≢ n → is_deleted env other idx' ≡ is_deleted env other idx)
        × (delete_by_url env url idx' ≡ (false, idx'))
  unfolding url_to_doc_id
  delete_by_url_once url n idx v e alive =
      subst
        (λ r.
          (r.0 ≡ true)
          × (is_deleted env n r.1 ≡ true)
          × ((other : ℕ) → other ≢ n → is_deleted env other r.1 ≡ is_deleted env other idx)
          × (delete_by_url env url r.1 ≡ (false, r.1)))
        (sym (delete_by_url_known url n idx e))
        (elim (delete_lem n idx v) [
          | inl (done, _, _, gone, _, others) ↦ (done, gone, others, again gone)
          | inr (_, _, inl out) ↦ absurd (omega (arith, v.urls_known url n e))
          | inr (_, _, inr gone) ↦ absurd (false≢true (sym alive ∙ gone))
        ])
    where
      idx' : Index env
      idx' = (delete env n idx).1

      again : is_deleted env n idx' ≡ true → delete_by_url env url idx' ≡ (false, idx')
      again gone =
          delete_by_url_known url n idx' (url-delete url n idx ∙ e)
          ∙ elim (delete_lem n idx' (delete-IsValid env n idx v)) [
            | inl (_, _, there, _, _, _) ↦ absurd (false≢true (sym there ∙ gone))
            | inr (done, same, _) ↦ λ i. (done i, same i)
          ]

  length-add :
      (text : Text) (meta : Meta) (idx : Index env)
      → length (add env text meta idx).1.corpus ≡ suc (length idx.corpus)
  unfolding add update_vocab
  length-add text meta idx = omega (arith, length-append {0} idx.corpus (tokenize env text ∷ []))

  added-alive :
      (t₁ t₂ : Text) (m₁ m₂ : Meta) (n : ℕ) (idx : Index env)
      → length idx.corpus ≤ n
      → IsValid env idx
      → is_deleted env n (add env t₂ m₂ (add env t₁ m₁ idx).1).1 ≡ false
  unfolding add update_vocab is_deleted
  added-alive t₁ t₂ m₁ m₂ n idx h v = fresh (length idx.corpus) n idx.deleted h v.dead_known

  -- A URL that is indexed twice is deleted by its URL once only: the newer document goes, the older
  -- one stays, and deleting by the URL again does nothing.
  pub delete_by_url_again :
      (t₁ t₂ : Text) (m₁ m₂ : Meta) (url : Text) (idx : Index env)
      → IsValid env idx
      → url ≢ []
      → lookup (codes "url") m₁ ≡ some url
      → lookup (codes "url") m₂ ≡ some url
      → let (old, idx₁) = add env t₁ m₁ idx in
        let (new, idx₂) = add env t₂ m₂ idx₁ in
        let (done, idx₃) = delete_by_url env url idx₂ in
        (done ≡ true)
        × (is_deleted env new idx₃ ≡ true)
        × (is_deleted env old idx₃ ≡ false)
        × (delete_by_url env url idx₃ ≡ (false, idx₃))
  unfolding add
  delete_by_url_again t₁ t₂ m₁ m₂ url idx v h e₁ e₂ =
      let idx₁ = (add env t₁ m₁ idx).1 in
      let idx₂ = (add env t₂ m₂ idx₁).1 in
      let v₁ = add-IsValid env t₁ m₁ idx v in
      let n = length idx.corpus in
      let (done, gone, others, again) =
        delete_by_url_once url (length idx₁.corpus) idx₂ (add-IsValid env t₂ m₂ idx₁ v₁)
          (url-add t₂ m₂ url idx₁ e₂ h)
          (added-alive t₁ t₂ m₁ m₂ (length idx₁.corpus) idx (omega (arith, length-add t₁ m₁ idx))
            v) in
      (
        done,
        gone,
        others n (λ p. omega (arith, length-add t₁ m₁ idx, p))
            ∙ added-alive t₁ t₂ m₁ m₂ n idx (omega arith) v,
        again,
      )
