-- ===== src/Client/Batches.antt =====
-- Reading a collection in batches: the chunks of the ids, and the results put together.
use homebridge_myalarmcom.Common.{
  ℕ, zero, suc, ◌≤◌, ◌<◌, ◌≡◌, refl, sym, ap, ◌∙◌, subst, List, [], ◌∷◌, ◌++◌, map, length, take,
  skip, take-skip, length-take-le, length-skip-le, All, arith,
}
use homebridge_myalarmcom.Settings.{max_ids_per_request}
use homebridge_myalarmcom.Retry.{Ending, returned}
use homebridge_myalarmcom.Client.Calls.{
  chunk_ids_from, chunk_ids, push_results, continue_with, fetch_chunks, get_batched,
}

module _ {ℓ} {A : Type ℓ} where
  abbrev pub concat : List (List A) → List A
  concat [] = []
  concat (xs ∷ xss) = xs ++ concat xss

  -- A chunk that may be sent: it is not empty, and no longer than the limit.
  abbrev pub IsChunk : ℕ → List A → Type 0
  IsChunk size chunk = (0 < length chunk) × (length chunk ≤ size)

  chunk_ids_from_lem :
      (fuel : ℕ) (ids : List A) (size : ℕ)
      → 0 < size
      → length ids ≤ fuel
      → (concat (chunk_ids_from fuel ids size) ≡ ids)
        × All (IsChunk size) (chunk_ids_from fuel ids size)
  unfolding chunk_ids_from
  chunk_ids_from_lem zero [] size p enough = (refl, tt)
  chunk_ids_from_lem zero (id ∷ ids) size p enough = absurd (omega arith)
  chunk_ids_from_lem (suc fuel) [] size p enough = (refl, tt)
  chunk_ids_from_lem (suc fuel) (id ∷ ids) zero p enough = absurd (omega arith)
  chunk_ids_from_lem (suc fuel) (id ∷ ids) (suc n) p enough =
      let (whole, chunks) =
        chunk_ids_from_lem fuel (skip n ids) (suc n) p (omega (arith, length-skip-le n ids)) in
      (
        ap (λ rest. take (suc n) (id ∷ ids) ++ rest) whole ∙ take-skip (suc n) (id ∷ ids),
        ((omega arith, omega (arith, length-take-le n ids)), chunks),
      )

-- The chunks of any ids, for any size above 0, put back together are the ids in their order, and each
-- chunk is not empty and holds at most that many ids.
pub concat-chunk_ids {ℓ} :
    {A : Type ℓ} (ids : List A) (size : ℕ)
    → 0 < size
    → (concat (chunk_ids ids size) ≡ ids) × All (IsChunk size) (chunk_ids ids size)
unfolding chunk_ids
concat-chunk_ids ids size p = chunk_ids_from_lem (length ids) ids size p (omega arith)

module _ {ℓ κ} {S : Type ℓ} {A : Type κ} {R : Type κ} (fetch : S → List A → S × Ending (List R))
    (f : A → R) where
  abbrev Answers : S × Ending (List R) → List A → Type κ
  Answers (s, ending) ids = ending ≡ returned (map f ids)

  map-append : (xs ys : List A) → map f (xs ++ ys) ≡ map f xs ++ map f ys
  map-append [] ys = refl
  map-append (x ∷ xs) ys = ap (λ rest. f x ∷ rest) (map-append xs ys)

  push_results-Answers :
      (chunk ids : List A) (out : S × Ending (List R))
      → Answers out ids
      → Answers (push_results fetch (map f chunk) out) (chunk ++ ids)
  push_results-Answers chunk ids (s, ending) e = rw e (ap returned (sym (map-append chunk ids)))

  continue_with-Answers :
      (chunk ids : List A) (rest : S → S × Ending (List R))
      → ((t : S) → Answers (rest t) ids)
      → (out : S × Ending (List R)) → Answers out chunk
      → Answers (continue_with fetch rest out) (chunk ++ ids)
  continue_with-Answers chunk ids rest answers (t, ending) e =
      rw e (push_results-Answers chunk ids (rest t) (answers t))

  fetch_chunks-Answers :
      (size : ℕ)
      → ((s : S) (ids : List A) → IsChunk size ids → Answers (fetch s ids) ids)
      → (chunks : List (List A)) → All (IsChunk size) chunks
      → (s : S) → Answers (fetch_chunks fetch chunks s) (concat chunks)
  unfolding fetch_chunks
  fetch_chunks-Answers size answers [] h s = refl
  fetch_chunks-Answers size answers (chunk ∷ chunks) (p, h) s =
      continue_with-Answers chunk (concat chunks) (fetch_chunks fetch chunks)
        (fetch_chunks-Answers size answers chunks h) (fetch s chunk) (answers s chunk p)

-- Where a request for a batch of at least one and at most fifty ids is answered, in every state, by
-- one resource for each id in order, reading any number of ids in batches gives one resource for each
-- id in order, as one request without the limit would.
pub get_batched-map {ℓ κ} :
    {S : Type ℓ} {A : Type κ} {R : Type κ} (fetch : S → List A → S × Ending (List R)) (f : A → R)
    → ((s : S) (ids : List A) → IsChunk 50 ids → Answers fetch f (fetch s ids) ids)
    → (ids : List A) (s : S) → Answers fetch f (get_batched fetch ids s) ids
unfolding get_batched
get_batched-map fetch f answers [] s = refl
get_batched-map fetch f answers (id ∷ ids) s =
    let (whole, chunks) = concat-chunk_ids (id ∷ ids) max_ids_per_request (omega arith) in
    subst
      (λ all. Answers fetch f (fetch_chunks fetch (chunk_ids (id ∷ ids) max_ids_per_request) s) all)
      whole
      (fetch_chunks-Answers fetch f max_ids_per_request answers
        (chunk_ids (id ∷ ids) max_ids_per_request) chunks s)
