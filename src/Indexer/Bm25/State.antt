-- ===== src/Indexer/Bm25/State.antt =====
-- The invariant of `BM25Index` (indexer/bm25.py).
use axon_search.Base.{
  ℕ, suc, ◌≤◌, ◌<◌, ◌≡◌, refl, ◌≢◌, sym, ap, ◌∙◌, ◌⊎◌, inl, inr, false, Option, none, some, List,
  [], ◌∷◌, ◌++◌, arith, leb, length, All, length-append, Bool-cases, leb→lt,
}
use mathlib.Core.Path.{subst}
use mathlib.Core.Bool.{false≢true}
use mathlib.Core.List.{cons≢nil}
use axon_search.Base.Dict.{nat_key, lookup, contains, lookup-insert}
use axon_search.Base.Text.{Text, codes, str_key}
use axon_search.Indexer.Collect.{IsNodup}
use axon_search.Indexer.Bm25.{
  Env, Meta, Index, tokenize, update_vocab, add_url, add, rebuild, refresh,
}
use axon_search.Indexer.Bm25.Search.{delete}

All-weaken : (n m : ℕ) (xs : List ℕ) → n ≤ m → All (λ x. x < n) xs → All (λ x. x < m) xs
All-weaken n m [] h a = tt
All-weaken n m (x ∷ xs) h a = (omega arith, All-weaken n m xs h a.1)

pub absent-All : (x : ℕ) (xs : List ℕ) → contains x xs ≡ false → All (λ y. x ≢ y) xs
unfolding contains
absent-All x [] h = tt
absent-All x (y ∷ ys) h = (ground arith, absent-All x ys (ground arith))

module _ (env : Env) where
  pub record IsValid (idx : Index env) : Type 0 where
    pub aligned : length idx.metadata ≡ length idx.corpus
    pub dead_known : All (λ d. d < length idx.corpus) idx.deleted
    pub dead_once : IsNodup idx.deleted
    pub urls_known :
        (url : Text) (i : ℕ) → lookup url idx.url_to_id ≡ some i → i < length idx.corpus
    pub nothing_built : idx.corpus ≡ [] → idx.bm25 ≡ none
    pub built :
        idx.dirty ≡ false → (idx.bm25 ≡ none) × (idx.corpus ≡ []) ⊎ (idx.bm25 ≡ some idx.corpus)

  add_url-known :
      (o : Option Text) (n : ℕ) (urls : List (Text × ℕ))
      → ((url : Text) (i : ℕ) → lookup url urls ≡ some i → i < n)
      → (url : Text) (i : ℕ) → lookup url (add_url env o n urls) ≡ some i
      → i < suc n
  unfolding add_url
  add_url-known (some (c ∷ cs)) n urls h url i e =
      ground (arith, lookup-insert (c ∷ cs) url n urls, h url i)
  add_url-known _ n urls h url i e = omega (arith, h url i e)

  -- `add` numbers the documents in turn and keeps the invariant.
  pub add-IsValid :
      (text : Text) (meta : Meta) (idx : Index env)
      → IsValid idx
      → IsValid (add env text meta idx).1
  unfolding add update_vocab
  add-IsValid text meta idx v =
      let n = length idx.corpus in
      let doc = tokenize env text in
      let one = length-append {0} idx.corpus (doc ∷ []) in
      record {
        aligned = omega (arith, v.aligned, length-append {0} idx.metadata (meta ∷ []), one);
        dead_known =
            All-weaken n (length (idx.corpus ++ doc ∷ [])) idx.deleted (omega (arith, one))
              v.dead_known;
        dead_once = v.dead_once;
        urls_known = λ url i e. omega (
          arith,
          one,
          add_url-known (lookup (codes "url") meta) n idx.url_to_id v.urls_known url i e,
        );
        nothing_built = λ e. absurd (omega (arith, one, ap length e));
        built = λ e. absurd (false≢true (sym e));
      }

  -- A deletion keeps the invariant.
  pub delete-IsValid : (d : ℕ) (idx : Index env) → IsValid idx → IsValid (delete env d idx).1
  unfolding delete
  delete-IsValid d idx v = elim (Bool-cases (leb (length idx.corpus) d)) [
    | inl out ↦ rw out v
    | inr known ↦ elim (Bool-cases (contains d idx.deleted)) [
      | inl gone ↦ rw (known, gone) v
      | inr there ↦
          rw (known, there)
            (record {
              aligned = v.aligned;
              dead_known = (leb→lt (length idx.corpus) d known, v.dead_known);
              dead_once = (absent-All d idx.deleted there, v.dead_once);
              urls_known = v.urls_known;
              nothing_built = v.nothing_built;
              built = v.built;
            })
    ]
  ]

  rebuild-IsValid : (idx : Index env) → IsValid idx → IsValid (rebuild env idx)
  unfolding rebuild
  rebuild-IsValid idx v = go idx.corpus refl
    where
      go : (c : List (List Text)) → idx.corpus ≡ c → IsValid (rebuild env idx)
      go [] e = rw (e, rebuild) v
      go (d ∷ ds) e =
          rw (e, rebuild)
            (record {
              aligned = v.aligned;
              dead_known = v.dead_known;
              dead_once = v.dead_once;
              urls_known = v.urls_known;
              nothing_built = λ f. absurd (cons≢nil (sym e ∙ f));
              built = λ _. inr refl;
            })

  refresh_cases :
      (idx : Index env)
      → (refresh env idx ≡ rebuild env idx) ⊎ (refresh env idx ≡ idx) × (idx.dirty ≡ false)
  unfolding refresh
  refresh_cases idx = ground arith

  pub refresh-IsValid : (idx : Index env) → IsValid idx → IsValid (refresh env idx)
  refresh-IsValid idx v = elim (refresh_cases idx) [
    | inl e ↦ subst IsValid (sym e) (rebuild-IsValid idx v)
    | inr (e, _) ↦ subst IsValid (sym e) v
  ]

  -- The scorer is the one of the whole corpus, or there is none and no document.
  abbrev pub IsBuilt : Index env → Type 0
  IsBuilt idx = (idx.bm25 ≡ none) × (idx.corpus ≡ []) ⊎ (idx.bm25 ≡ some idx.corpus)

  rebuild-IsBuilt : (idx : Index env) → IsValid idx → IsBuilt (rebuild env idx)
  unfolding rebuild
  rebuild-IsBuilt idx v = go idx.corpus refl
    where
      go : (c : List (List Text)) → idx.corpus ≡ c → IsBuilt (rebuild env idx)
      go [] e = rw (e, rebuild) (inl (v.nothing_built e, e))
      go (d ∷ ds) e = rw (e, rebuild) (inr refl)

  pub refresh-IsBuilt : (idx : Index env) → IsValid idx → IsBuilt (refresh env idx)
  refresh-IsBuilt idx v = elim (refresh_cases idx) [
    | inl e ↦ subst IsBuilt (sym e) (rebuild-IsBuilt idx v)
    | inr (e, clean) ↦ subst IsBuilt (sym e) (v.built clean)
  ]

  -- Nothing else changes.
  pub refresh-same :
      (idx : Index env)
      → ((refresh env idx).corpus ≡ idx.corpus)
        × ((refresh env idx).metadata ≡ idx.metadata)
        × ((refresh env idx).deleted ≡ idx.deleted)
        × ((refresh env idx).k1 ≡ idx.k1)
        × ((refresh env idx).b ≡ idx.b)
  unfolding refresh rebuild
  refresh-same idx = ground arith
