-- ===== src/Crawler/LinkGraph.antt =====
-- crawler/link_graph.py: `LinkGraph`. A `defaultdict(list)` is a dictionary in which a look-up of a
-- missing key stores the empty list.
pub mod Mirror
use axon_search.Base.{
  ℕ, zero, suc, ◌+◌, Bool, true, false, not, Option, none, some, List, [], ◌∷◌, ◌++◌, map,
  if◌then◌else◌, ◌==◌, keep, length, take,
}
use axon_search.Base.Dict.{nat_key, lookup, insert, contains}
use axon_search.Base.Text.{Text, str_key}
use axon_search.Base.Sort.{sort}
use axon_search.Base.Floats.{Floats}

abbrev pub Edges : Type 0
Edges = List (ℕ × List ℕ)

-- `edges[k]` as a value, as a look-up that stores, and `edges[k].append(x)`.
unfoldable pub at : ℕ → Edges → List ℕ
at k edges = elim (lookup k edges) [ none ↦ [] | some xs ↦ xs ]

unfoldable pub touch : ℕ → Edges → Edges
touch k edges = elim (lookup k edges) [ none ↦ insert k [] edges | some xs ↦ edges ]

unfoldable pub push : ℕ → ℕ → Edges → Edges
unfolding at
push k x edges = insert k (at k edges ++ x ∷ []) edges

unfoldable pub touch_all : List ℕ → Edges → Edges
touch_all [] edges = edges
touch_all (k ∷ ks) edges = touch_all ks (touch k edges)

module _ (f : Floats) where
  open f use {Float}

  pub record LinkGraph : Type 0 where
    pub damping : Float
    pub iterations : ℕ
    pub tol : Float
    pub url_to_id : List (Text × ℕ)
    pub id_to_url : List (ℕ × Text)
    pub out_edges : Edges
    pub in_edges : Edges
    pub scores : List (ℕ × Float)
    pub dirty : Bool

module _ (f : Floats) where
  open f use {Float}

  unfoldable pub init : Float → ℕ → Float → LinkGraph f
  init damping iterations tol = record {
    damping = damping;
    iterations = iterations;
    tol = tol;
    url_to_id = [];
    id_to_url = [];
    out_edges = [];
    in_edges = [];
    scores = [];
    dirty = true;
  }

  unfoldable pub get_or_create : Text → LinkGraph f → ℕ × LinkGraph f
  get_or_create url g = elim (lookup url g.url_to_id) [
    | some id ↦ (id, g)
    | none ↦
        let new_id = length g.url_to_id in
        (
          new_id,
          record g {
            url_to_id = insert url new_id g.url_to_id;
            id_to_url = insert new_id url g.id_to_url;
          },
        )
  ]

  -- `add_link` by the two numbers.
  unfoldable pub link : ℕ → ℕ → LinkGraph f → LinkGraph f
  unfolding touch push at
  link src dst g =
      let out = touch src g.out_edges in
      if contains dst (at src out) then record g { out_edges = out } else record g {
        out_edges = push src dst out;
        in_edges = push dst src g.in_edges;
        dirty = true;
      }

  unfoldable pub add_link : Text → Text → LinkGraph f → LinkGraph f
  unfolding get_or_create link
  add_link src dst g =
      let (src_id, g') = get_or_create src g in
      let (dst_id, g'') = get_or_create dst g' in link src_id dst_id g''

  unfoldable pub add_page : Text → List Text → LinkGraph f → LinkGraph f
  add_page url [] g = g
  add_page url (dst ∷ outlinks) g = add_page url outlinks (add_link url dst g)

  unfoldable pub node_count : LinkGraph f → ℕ
  node_count g = length g.url_to_id

  unfoldable pub count_edges : Edges → ℕ
  count_edges [] = 0
  count_edges ((k, xs) ∷ edges) = length xs + count_edges edges

  unfoldable pub edge_count : LinkGraph f → ℕ
  unfolding count_edges
  edge_count g = count_edges g.out_edges

  abbrev one : Float
  one = f.of_ℕ 1

  abbrev sum : List Float → Float
  sum xs = go f.zero xs
    where
      go : Float → List Float → Float
      go acc [] = acc
      go acc (x ∷ xs) = go (f.add acc x) xs

  abbrev score_of : ℕ → List (ℕ × Float) → Float
  score_of i rank = elim (lookup i rank) [ none ↦ f.zero | some r ↦ r ]

  -- The sum over the dangling nodes.
  unfoldable pub dangling_sum : LinkGraph f → ℕ → List ℕ → List (ℕ × Float) → Float
  dangling_sum g n ids rank = sum (
      map (λ i. f.div (score_of i rank) (f.of_ℕ n))
        (keep (λ i. length (at i g.out_edges) == 0) ids))

  -- The sum over the in-links, those with an out-count of 0 skipped.
  unfoldable pub link_sum : LinkGraph f → ℕ → List (ℕ × Float) → Float
  link_sum g node_id rank = sum (
      map (λ src_id. f.div (score_of src_id rank) (f.of_ℕ (length (at src_id g.out_edges))))
        (keep (λ src_id. not (length (at src_id g.out_edges) == 0)) (at node_id g.in_edges)))

  unfoldable pub new_score : LinkGraph f → ℕ → Float → List (ℕ × Float) → ℕ → Float
  unfolding link_sum
  new_score g n dangling rank node_id =
      f.add (f.div (f.sub one g.damping) (f.of_ℕ n))
        (f.mul g.damping (f.add (link_sum g node_id rank) dangling))

  -- One iteration: the new ranks.
  unfoldable pub iterate : LinkGraph f → ℕ → List ℕ → List (ℕ × Float) → List (ℕ × Float)
  unfolding new_score dangling_sum
  iterate g n ids rank =
      let dangling = dangling_sum g n ids rank in map (λ i. (i, new_score g n dangling rank i)) ids

  -- The loop `for _ in range(self.iterations)`.
  unfoldable pub converge : LinkGraph f → ℕ → ℕ → List ℕ → List (ℕ × Float) → List (ℕ × Float)
  unfolding iterate
  converge g zero n ids rank = rank
  converge g (suc k) n ids rank =
      let new_rank = iterate g n ids rank in
      let rest = converge g k n ids new_rank in
      let delta = sum (map (λ i. f.abs (f.sub (score_of i new_rank) (score_of i rank))) ids) in
      if f.leb g.tol delta then rest else new_rank

  unfoldable pub compute_pagerank : LinkGraph f → LinkGraph f
  unfolding converge touch_all touch
  compute_pagerank g =
      let n = length g.url_to_id in
      let ids = map (λ pair. pair.1) g.url_to_id in
      let looked_up : Edges → Edges =
        λ edges. if g.iterations == 0 then edges else touch_all ids edges in
      let rank = map (λ i. (i, f.div one (f.of_ℕ n))) ids in
      if n == 0 then g else record g {
        scores = converge g g.iterations n ids rank;
        out_edges = looked_up g.out_edges;
        in_edges = looked_up g.in_edges;
        dirty = false;
      }

  -- `if self._dirty: self.compute_pagerank()`
  unfoldable pub refresh : LinkGraph f → LinkGraph f
  refresh g = if g.dirty then compute_pagerank g else g

  unfoldable pub get_score : Text → LinkGraph f → Float × LinkGraph f
  unfolding refresh
  get_score url g =
      let g' = refresh g in
      (elim (lookup url g'.url_to_id) [ none ↦ f.zero | some id ↦ score_of id g'.scores ], g')

  unfoldable pub top_k : ℕ → LinkGraph f → List (Text × Float) × LinkGraph f
  unfolding refresh
  top_k k g =
      let g' = refresh g in
      let url_of : ℕ → Text = λ i. elim (lookup i g'.id_to_url) [ none ↦ [] | some url ↦ url ] in
      let scored = map (λ (pair : ℕ × Float). (url_of pair.0, pair.1)) g'.scores in
      (take k (sort (λ (x y : Text × Float). f.leb y.1 x.1) scored), g')

  -- `math.log1p(raw * 1e6)`
  unfoldable pub log_score : Text → LinkGraph f → Float × LinkGraph f
  unfolding get_score
  log_score url g = let (raw, g') = get_score url g in (f.log1p (f.mul raw (f.of_ℕ 1000000)), g')

  -- What `to_dict` returns.
  abbrev pub Saved : Type 0
  Saved = List (Text × ℕ) × Edges × List (ℕ × Float)

  unfoldable pub to_dict : LinkGraph f → Saved × LinkGraph f
  unfolding refresh
  to_dict g = let g' = refresh g in ((g'.url_to_id, g'.out_edges, g'.scores), g')

  -- The loops of `from_dict` that rebuild the in-edges.
  unfoldable pub rebuild_in : Edges → Edges → Edges
  unfolding push
  rebuild_in [] edges = edges
  rebuild_in ((src_id, dsts) ∷ out) edges = rebuild_in out (go src_id dsts edges)
    where
      go : ℕ → List ℕ → Edges → Edges
      go src_id [] edges = edges
      go src_id (dst_id ∷ dsts) edges = go src_id dsts (push dst_id src_id edges)

  abbrev swap_all : List (Text × ℕ) → List (ℕ × Text) → List (ℕ × Text)
  swap_all [] m = m
  swap_all ((url, id) ∷ nodes) m = swap_all nodes (insert id url m)

  unfoldable pub from_dict : Saved → Float → ℕ → Float → LinkGraph f
  unfolding rebuild_in
  from_dict (nodes, edges, scores) damping iterations tol = record (init damping iterations tol) {
    url_to_id = nodes;
    id_to_url = swap_all nodes [];
    out_edges = edges;
    scores = scores;
    in_edges = rebuild_in edges [];
    dirty = false;
  }
