-- ===== src/Indexer/Bm25/Persistence.antt =====
-- `BM25Index.save` and `BM25Index.load` (indexer/bm25.py).
use axon_search.Base.{
  ℕ, ◌<◌, ◌≡◌, refl, sym, ap, ◌∙◌, inl, inr, true, false, Option, none, some, List, [], ◌∷◌, arith,
  length, All,
}
use mathlib.Core.Path.{subst, subst₂}
use mathlib.Core.Bool.{false≢true}
use mathlib.Core.List.{cons≢nil}
use axon_search.Base.Dict.{lookup}
use axon_search.Base.Text.{Text, str_key}
use axon_search.Indexer.Collect.{IsNodup}
use axon_search.Indexer.Bm25.{Env, Meta, Index, tokenize, rebuild, refresh}
use axon_search.Indexer.Bm25.Search.{visit, rank, answer, search, Pickle, save, load}
use axon_search.Indexer.Bm25.State.{
  IsValid, IsBuilt, refresh-IsBuilt, refresh-same, refresh-IsValid,
}

module _ (env : Env) where
  open env use {floats}
  open floats use {Float}

  -- The scorer that an up-to-date index has.
  abbrev scorer : List (List Text) → Option (List (List Text))
  scorer [] = none
  scorer (d ∷ ds) = some (d ∷ ds)

  -- An index with the fields that the ranking reads.
  abbrev frame : List Meta → List ℕ → Float → Float → Index env
  frame m d k b = record {
    k1 = k;
    b = b;
    corpus = [];
    metadata = m;
    bm25 = none;
    dirty = false;
    deleted = d;
    url_to_id = [];
    vocab_freq = [];
  }

  answer-frame :
      (idx : Index env) (top_k : ℕ) (o : Option (List (List Text))) (ts : List Text)
      → answer env idx top_k o ts
        ≡ answer env (frame idx.metadata idx.deleted idx.k1 idx.b) top_k o ts
  unfolding answer rank visit
  answer-frame idx top_k none ts = refl
  answer-frame idx top_k (some c) [] = refl
  answer-frame idx top_k (some c) (t ∷ ts) = refl

  refresh-scorer : (idx : Index env) → IsValid env idx → (refresh env idx).bm25 ≡ scorer idx.corpus
  refresh-scorer idx v =
      let v' = refresh-IsValid env idx v in
      let (same, _, _, _, _) = refresh-same env idx in
      go (refresh env idx).corpus refl v' (refresh-IsBuilt env idx v) ∙ ap scorer same
    where
      go :
          (c : List (List Text))
          → (refresh env idx).corpus ≡ c
          → IsValid env (refresh env idx)
          → IsBuilt env (refresh env idx)
          → (refresh env idx).bm25 ≡ scorer c
      go [] e v' b = v'.nothing_built e
      go (d ∷ ds) e v' (inl (_, f)) = absurd (cons≢nil (sym e ∙ f))
      go (d ∷ ds) e v' (inr f) = f ∙ ap some e

  search-frame :
      (query : Text) (top_k : ℕ) (idx : Index env)
      → IsValid env idx
      → (search env query top_k idx).0
        ≡ answer env
            (frame idx.metadata idx.deleted idx.k1 idx.b)
            top_k
            (scorer idx.corpus)
            (tokenize env query)
  unfolding search
  search-frame query top_k idx v =
      let (c, m, d, k, b) = refresh-same env idx in
      let ts = tokenize env query in
      answer-frame (refresh env idx) top_k (refresh env idx).bm25 ts
      ∙ (λ i. answer env (frame (m i) (d i) (k i) (b i)) top_k (refresh-scorer idx v i) ts)

  pub load-save_same :
      (idx : Index env)
      → let idx' = load env (save env idx).0 in
        (idx'.corpus ≡ idx.corpus)
        × (idx'.metadata ≡ idx.metadata)
        × (idx'.deleted ≡ idx.deleted)
        × (idx'.k1 ≡ idx.k1)
        × (idx'.b ≡ idx.b)
        × (idx'.url_to_id ≡ idx.url_to_id)
        × (idx'.vocab_freq ≡ idx.vocab_freq)
  unfolding save load rebuild
  load-save_same idx = ground arith

  load_fields : (p : Pickle env) → ((load env p).bm25 ≡ none) × ((load env p).dirty ≡ true)
  unfolding load
  load_fields p = (refl, refl)

  pub load-save-IsValid :
      (idx : Index env) → IsValid env idx → IsValid env (load env (save env idx).0)
  load-save-IsValid idx v =
      let (c, m, d, k, b, u, f) = load-save_same idx in
      let (unbuilt, dirty) = load_fields (save env idx).0 in
      record {
        aligned = ap length m ∙ v.aligned ∙ sym (ap length c);
        dead_known = subst₂ (λ c d. All (λ x. x < length c) d) (sym c) (sym d) v.dead_known;
        dead_once = subst IsNodup (sym d) v.dead_once;
        urls_known =
            subst₂ (λ c u. (url : Text) (i : ℕ) → lookup url u ≡ some i → i < length c) (sym c)
              (sym u) v.urls_known;
        nothing_built = λ _. unbuilt;
        built = λ e. absurd (false≢true (sym e ∙ dirty));
      }

  -- An index that is saved and loaded again answers every search as before, and it is well-formed.
  pub search-load-save :
      (query : Text) (top_k : ℕ) (idx : Index env)
      → IsValid env idx
      → let idx' = load env (save env idx).0 in
        IsValid env idx' × ((search env query top_k idx').0 ≡ (search env query top_k idx).0)
  search-load-save query top_k idx v =
      let (c, m, d, k, b, _, _) = load-save_same idx in
      let v' = load-save-IsValid idx v in
      (
        v',
        search-frame query top_k (load env (save env idx).0) v'
            ∙ (λ i.
                answer env (frame (m i) (d i) (k i) (b i)) top_k (scorer (c i))
                  (tokenize env query))
            ∙ sym (search-frame query top_k idx v),
      )
