-- ===== src/Utils/TextCleaner/Tests.antt =====
-- A text in chunks.
use axon_search.Base.{◌≡◌, refl, some, [], ◌∷◌}
use axon_search.Base.Text.{codes, strip}
use axon_search.Utils.TextCleaner.{chunk_from}

-- Chunks of 10 characters that overlap by 3: the second chunk begins with the end of the first.
overlapping :
    chunk_from 10 3 (codes "One two." ∷ codes "Three." ∷ []) ([], [])
    ≡ some (codes "One two." ∷ codes "wo. Three." ∷ [])
unfolding chunk_from strip
overlapping = refl

-- A sentence that is too long is cut, its pieces 7 apart.
cut :
    chunk_from 10 3 (codes "abcdefghijklm" ∷ []) ([], [])
    ≡ some (codes "abcdefghij" ∷ codes "hijklm" ∷ [])
unfolding chunk_from strip
cut = refl

-- A sentence that is too long is not cut where a text comes before it, and its chunk is too long.
too_long :
    chunk_from 10 3 (codes "One." ∷ codes "abcdefghijklm" ∷ []) ([], [])
    ≡ some (codes "One." ∷ codes "ne. abcdefghijklm" ∷ [])
unfolding chunk_from strip
too_long = refl
