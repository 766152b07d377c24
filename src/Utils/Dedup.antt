-- ===== src/Utils/Dedup.antt =====
-- utils/dedup.py: `DedupFilter`. datasketch's MinHash and MinHashLSH are a parameter. A set is a list
-- without repetition; a document's key is its number.
pub mod Seen
mod Tests
use axon_search.Base.{
  ℕ, zero, suc, ◌+◌, ◌-◌, Bool, true, false, List, [], ◌∷◌, ◌++◌, leb, if◌then◌else◌, length, take,
}
use axon_search.Base.Dict.{contains}
use axon_search.Base.Text.{Text, str_key, lower, strip, collapse}

-- `MinHash()` with `update` and `jaccard`, and `MinHashLSH` with `query` and `insert`.
pub record Lsh (Float : Type 0) : Type 1 where
  pub MinHash : Type 0
  pub Handle : Type 0
  pub blank : MinHash
  pub update : Text → MinHash → MinHash
  pub jaccard : MinHash → MinHash → Float
  pub empty : Handle
  pub query : MinHash → Handle → List ℕ
  pub insert : ℕ → MinHash → Handle → Handle

abbrev drop : ℕ → Text → Text
drop zero t = t
drop (suc i) [] = []
drop (suc i) (c ∷ cs) = drop i cs

-- `{text[i : i + k] for i in range(n)}`
unfoldable pub grams : ℕ → ℕ → Text → List Text
grams k zero text = []
grams k (suc n) text =
    let rest = grams k n text in
    let gram = take k (drop n text) in if contains gram rest then rest else gram ∷ rest

-- `_shingle`
unfoldable pub shingle : ℕ → Text → List Text
unfolding grams
shingle k text =
    let normal = strip (collapse (lower text)) in grams k (length normal + 1 - k) normal

module _ {Float : Type 0} (lsh : Lsh Float) where
  pub record DedupFilter : Type 0 where
    pub shingle_k : ℕ
    pub index : lsh.Handle
    pub count : ℕ

module _ {Float : Type 0} (lsh : Lsh Float) where
  unfoldable pub init : ℕ → DedupFilter lsh
  init shingle_k = record { shingle_k = shingle_k; index = lsh.empty; count = 0 }

  unfoldable pub update_all : List Text → lsh.MinHash → lsh.MinHash
  update_all [] mh = mh
  update_all (s ∷ shingles) mh = update_all shingles (lsh.update s mh)

  unfoldable pub build_minhash : Text → DedupFilter lsh → lsh.MinHash
  unfolding shingle update_all
  build_minhash text d = update_all (shingle d.shingle_k text) lsh.blank

  -- `is_duplicate`, by the fingerprint and the keys of its matches.
  unfoldable pub answer : lsh.MinHash → List ℕ → DedupFilter lsh → Bool × DedupFilter lsh
  answer mh [] d = (false, record d { index = lsh.insert d.count mh d.index; count = suc d.count })
  answer mh (key ∷ keys) d = (true, d)

  unfoldable pub is_duplicate : Text → DedupFilter lsh → Bool × DedupFilter lsh
  unfolding build_minhash answer
  is_duplicate text d = answer (build_minhash text d) (lsh.query (build_minhash text d) d.index) d

  unfoldable pub similarity : Text → Text → DedupFilter lsh → Float
  unfolding build_minhash
  similarity text_a text_b d = lsh.jaccard (build_minhash text_a d) (build_minhash text_b d)

  unfoldable pub reset : DedupFilter lsh → DedupFilter lsh
  reset d = record d { index = lsh.empty; count = 0 }

  -- `__len__`
  unfoldable pub size : DedupFilter lsh → ℕ
  size d = d.count

  -- The filter after a stream of texts.
  unfoldable pub after : List Text → DedupFilter lsh → DedupFilter lsh
  unfolding is_duplicate
  after [] d = d
  after (text ∷ texts) d = after texts (is_duplicate text d).1
