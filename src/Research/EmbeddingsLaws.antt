-- ===== src/Research/EmbeddingsLaws.antt =====
-- The vectors of texts: their length, and the similarity of any two.
use oragami.Prelude.{
  ℕ, zero, suc, ◌<◌, ◌≡◌, refl, ap, sym, ◌∙◌, String, List, [], ◌∷◌, map, length, length-replicate,
  arith, ◌||◌, nat_eq, if◌then◌else◌,
}
use oragami.Js.Floats.{Floats}
use oragami.Client.Tasks.{returned}
use oragami.Research.Embeddings.{
  Library, add_at, dim_index, hash_word, hash_words, normalized, sum_products, magnitude,
  generate_simple_embedding, cosine_similarity,
}

module _ (fl : Floats) (library : Library fl) where
  length-add_at :
      (n : ℕ) (x : fl.Float) (e : List fl.Float)
      → n < length e
      → length (add_at fl library n x e) ≡ length e
  length-add_at n x [] h = absurd (omega (arith, h))
  length-add_at zero x (y ∷ ys) h = refl
  length-add_at (suc n) x (y ∷ ys) h = ap suc (length-add_at n x ys (omega (arith, h)))

  dim_index_bounded : (i j c : ℕ) → dim_index fl library i j c < 256
  dim_index_bounded i j c = omega arith

  length-hash_word :
      (i j : ℕ) (w : List ℕ) (e : List fl.Float)
      → length e ≡ 256
      → length (hash_word fl library i j w e) ≡ 256
  unfolding hash_word
  length-hash_word i j [] e h = h
  length-hash_word i j (c ∷ cs) e h = length-hash_word i (suc j) cs _ (
      length-add_at (dim_index fl library i j c) _ e (omega (arith, h, dim_index_bounded i j c))
      ∙ h)

  length-hash_words :
      (i : ℕ) (ws : List (List ℕ)) (e : List fl.Float)
      → length e ≡ 256
      → length (hash_words fl library i ws e) ≡ 256
  unfolding hash_words
  length-hash_words i [] e h = h
  length-hash_words i (w ∷ ws) e h = length-hash_words (suc i) ws _ (length-hash_word i 0 w e h)

  length-map : (f : fl.Float → fl.Float) (e : List fl.Float) → length (map f e) ≡ length e
  length-map f [] = refl
  length-map f (x ∷ xs) = ap suc (length-map f xs)

  length-normalized : (e : List fl.Float) → length (normalized fl library e) ≡ length e
  unfolding normalized
  length-normalized e = ground (arith, length-map (λ x. fl.div x (magnitude fl library e)) e)

  -- The vector of every text has 256 places.
  pub length-generate_simple_embedding :
      (text : String) → length (generate_simple_embedding fl library text) ≡ 256
  unfolding generate_simple_embedding
  length-generate_simple_embedding text =
      length-normalized _
      ∙ length-hash_words 0 (library.words text) _ (length-replicate 256 (fl.of_nat 0))

  sum_products_comm :
      (sum : fl.Float) (a b : List fl.Float)
      → sum_products fl library sum a b ≡ sum_products fl library sum b a
  sum_products_comm sum [] [] = refl
  sum_products_comm sum [] (y ∷ ys) = refl
  sum_products_comm sum (x ∷ xs) [] = refl
  sum_products_comm sum (x ∷ xs) (y ∷ ys) =
      ap (λ p. sum_products fl library (fl.add sum p) xs ys) (fl.mul_comm x y)
      ∙ sum_products_comm (fl.add sum (fl.mul y x)) xs ys

  -- The similarity of two vectors of one length.
  abbrev similarity : List fl.Float → List fl.Float → fl.Float
  similarity a b =
      let dot = sum_products fl library (fl.of_nat 0) in
      if library.is_zero (dot a a) || library.is_zero (dot b b)
      then fl.of_nat 0
      else fl.div (dot a b) (fl.mul (library.sqrt (dot a a)) (library.sqrt (dot b b)))

  cosine_similarity-similarity :
      (a b : List fl.Float)
      → length a ≡ length b
      → cosine_similarity fl library a b ≡ returned (similarity a b)
  unfolding cosine_similarity
  cosine_similarity-similarity a b same = ground (arith, same)

  similarity_comm : (a b : List fl.Float) → similarity a b ≡ similarity b a
  similarity_comm a b =
      let dot = sum_products_comm (fl.of_nat 0) a b in
      let norms =
        fl.mul_comm (library.sqrt (sum_products fl library (fl.of_nat 0) a a))
          (library.sqrt (sum_products fl library (fl.of_nat 0) b b)) in
      rw (dot, norms) (ground arith)

  -- the similarity of the vectors of any two texts is defined, and is the same either way round.
  pub cosine_similarity-generate_simple_embedding :
      (s t : String)
      → (x : fl.Float) × ((cosine_similarity fl library
              (generate_simple_embedding fl library s)
              (generate_simple_embedding fl library t)
            ≡ returned x)
          × (cosine_similarity fl library
                (generate_simple_embedding fl library t)
                (generate_simple_embedding fl library s)
              ≡ returned x))
  cosine_similarity-generate_simple_embedding s t =
      let a = generate_simple_embedding fl library s in
      let b = generate_simple_embedding fl library t in
      let same : length a ≡ length b =
        length-generate_simple_embedding s ∙ sym (length-generate_simple_embedding t) in
      (
        similarity a b,
        (
          cosine_similarity-similarity a b same,
          cosine_similarity-similarity b a (sym same) ∙ ap returned (similarity_comm b a),
        ),
      )
