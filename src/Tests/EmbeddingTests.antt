-- ===== src/Tests/EmbeddingTests.antt =====
-- The theorem on the vectors of texts, with fractions for numbers.
use oragami.Prelude.{◌≡◌, [], ◌∷◌, false}
use oragami.Js.Fractions.{fractions}
use oragami.Client.Tasks.{returned}
use oragami.Research.Embeddings.{Library, generate_simple_embedding, cosine_similarity}
use oragami.Research.EmbeddingsLaws.{cosine_similarity-generate_simple_embedding}

-- Every text is the word of the letter A, and roots and logarithms are the number itself.
abbrev library : Library fractions
library = record {
  log = λ x. x;
  sqrt = λ x. x;
  is_zero = λ x. false;
  nan = fractions.of_nat 0;
  words = λ text. (65 ∷ []) ∷ [];
}

cosine_similarity-generate_simple_embedding_example :
    (x : fractions.Float) × ((cosine_similarity fractions library
          (generate_simple_embedding fractions library "gold")
          (generate_simple_embedding fractions library "silver")
        ≡ returned x)
      × (cosine_similarity fractions library
            (generate_simple_embedding fractions library "silver")
            (generate_simple_embedding fractions library "gold")
          ≡ returned x))
cosine_similarity-generate_simple_embedding_example =
    cosine_similarity-generate_simple_embedding fractions library "gold" "silver"
