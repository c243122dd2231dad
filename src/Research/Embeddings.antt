-- ===== src/Research/Embeddings.antt =====
-- oragami-frontend/lib/embeddings.ts: the vectors of texts, and how near two of them are.
use oragami.Prelude.{
  ℕ, ◌+◌, ◌*◌, ◌%◌, zero, suc, String, Bool, not, ◌||◌, some, List, [], ◌∷◌, map, length, replicate,
  if◌then◌else◌, ◌==◌, nat_eq,
}
use oragami.Js.Floats.{Floats}
use oragami.Client.Tasks.{Outcome, returned, raised}

-- What JavaScript's library answers: `Math.log`, `Math.sqrt`, `x === 0`, NaN, which is also what
-- arithmetic reads in place of `undefined`, and the words of
-- `text.toLowerCase().trim().split(/\s+/)` by their character codes.
pub record Library (fl : Floats) : Type 0 where
  pub log : fl.Float → fl.Float
  pub sqrt : fl.Float → fl.Float
  pub is_zero : fl.Float → Bool
  pub nan : fl.Float
  pub words : String → List (List ℕ)

abbrev pub dimensions : ℕ
dimensions = 256

module _ (fl : Floats) (library : Library fl) where
  open fl use {Float, of_nat, add, mul, div, gt_zero}
  open library use {log, sqrt, is_zero, nan, words}

  -- `embedding[index] += x`; past the end the vector grows up to that place, which was `undefined`,
  -- as the places before it stay.
  abbrev pub add_at : ℕ → Float → List Float → List Float
  add_at zero x [] = add nan x ∷ []
  add_at (suc n) x [] = nan ∷ add_at n x []
  add_at zero x (y ∷ ys) = add y x ∷ ys
  add_at (suc n) x (y ∷ ys) = y ∷ add_at n x ys

  abbrev pub dim_index : ℕ → ℕ → ℕ → ℕ
  dim_index i j char_code = (char_code * (i + 1) * (j + 1)) % dimensions

  abbrev pub weight : ℕ → Float
  weight i = div (of_nat 1) (add (of_nat 1) (log (of_nat (1 + i))))

  -- The characters of the word at `i`, from `j` on.
  unfoldable pub hash_word : ℕ → ℕ → List ℕ → List Float → List Float
  hash_word i j [] e = e
  hash_word i j (c ∷ cs) e = hash_word i (suc j) cs (add_at (dim_index i j c) (weight i) e)

  -- The words from `i` on.
  unfoldable pub hash_words : ℕ → List (List ℕ) → List Float → List Float
  hash_words i [] e = e
  hash_words i (w ∷ ws) e = hash_words (suc i) ws (hash_word i 0 w e)

  -- `reduce` with the sum of products of both vectors, place by place.
  abbrev pub sum_products : Float → List Float → List Float → Float
  sum_products sum [] ys = sum
  sum_products sum (x ∷ xs) [] = sum
  sum_products sum (x ∷ xs) (y ∷ ys) = sum_products (add sum (mul x y)) xs ys

  abbrev pub magnitude : List Float → Float
  magnitude e = sqrt (sum_products (of_nat 0) e e)

  unfoldable pub normalized : List Float → List Float
  normalized e = if gt_zero (magnitude e) then map (λ x. div x (magnitude e)) e else e

  unfoldable pub generate_simple_embedding : String → List Float
  unfolding normalized hash_words hash_word
  generate_simple_embedding text =
      normalized (hash_words 0 (words text) (replicate dimensions (of_nat 0)))

  unfoldable pub generate_embeddings : List String → List (List Float)
  unfolding generate_simple_embedding
  generate_embeddings texts = map generate_simple_embedding texts

  unfoldable pub cosine_similarity : List Float → List Float → Outcome Float
  cosine_similarity a b =
      if not (length a == length b)
      then raised (some "Vectors must have the same length")
      else if is_zero (sum_products (of_nat 0) a a) || is_zero (sum_products (of_nat 0) b b)
      then returned (of_nat 0)
      else returned (
          div (sum_products (of_nat 0) a b)
            (mul (sqrt (sum_products (of_nat 0) a a)) (sqrt (sum_products (of_nat 0) b b))))
