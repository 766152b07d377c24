-- ===== src/Indexer/VectorStore/Samples.antt =====
-- A FAISS index for the tests.
use axon_search.Base.{
  ℕ, suc, ◌+◌, ◌<◌, refl, inl, inr, true, Option, some, List, [], ◌∷◌, ◌++◌, arith, length, take,
  In, length-append, ap, sym, ◌∙◌, none,
}
use axon_search.Base.Top.{In-take}
use axon_search.Indexer.VectorStore.{Faiss}
use axon_search.Indexer.VectorStore.Results.{Laws}

-- An index of numbers as vectors whose search gives its first rows, each with the score 100.
abbrev rows : ℕ → List ℕ → List (ℕ × Option ℕ)
rows n [] = []
rows n (x ∷ xs) = (100, some n) ∷ rows (suc n) xs

abbrev pub lists : Faiss ℕ
lists = record {
  Vector = ℕ;
  Handle = List ℕ;
  as_float32 = λ v. v;
  create = λ t dim. [];
  ntotal = λ h. length h;
  add = λ h vs. some (h ++ vs);
  is_trained = λ h. true;
  nlist = λ h. 0;
  train = λ h vs. h;
  reconstruct = λ h. h;
  index_cpu_to_gpu = λ gpu_id h. h;
  search = λ h q k. take k (rows 0 h);
  File = List ℕ;
  write_index = λ h. 7 ∷ h;
  read_index = λ file. elim file [ [] ↦ [] | n ∷ h ↦ h ];
}

rows-In :
    (n : ℕ) (xs : List ℕ) (score row : ℕ) → In (score, some row) (rows n xs) → row < n + length xs
rows-In n [] score row i = absurd i
rows-In n (x ∷ xs) score row (inl e) = ground (arith, e)
rows-In n (x ∷ xs) score row (inr i) = omega (arith, rows-In (suc n) xs score row i)

pub lists-Laws : Laws lists
lists-Laws = record {
  ntotal-create = λ t dim. refl;
  ntotal-add = λ h h' vs e.
      sym (ap (λ (o : Option (List ℕ)). elim o [ none ↦ 0 | some xs ↦ length xs ]) e)
      ∙ length-append h vs;
  add-trained = λ h vs trained. (h ++ vs, refl, refl);
  read_index-write_index = λ h. refl;
  ntotal-train = λ h vs. refl;
  rows_known = λ h q k score row i.
      omega (arith, rows-In 0 h score row (In-take (score, some row) k (rows 0 h) i));
}
