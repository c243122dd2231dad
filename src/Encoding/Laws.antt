-- ===== src/Encoding/Laws.antt =====
-- The sizes of the encoded texts, and reading them back.
use Prim.Native.Char.{code}
use Prim.Native.String
use native.Mathlib.Nat.{sub-zero, zero-sub, suc-sub-suc}
use text.Mathlib.TextLemmas.{nil-append, cons-append}
use oragami.Prelude.{
  ℕ, zero, suc, ◌-◌, ◌≤◌, ◌≡◌, refl, sym, ◌≢◌, ◌∙◌, ap, Bool, true, false, length-append, String,
  List, [], ◌∷◌, ◌++◌, length, take, replicate, length-replicate, length-take, arith, ltb,
  if◌then◌else◌,
}
use oragami.Encoding.Bytes.{
  Texts, nuls, copy, alloc, remove_nul, str_to_bytes64, str_to_bytes34, str_to_bytes,
  ticker_from_bytes,
}

length-copy : (source target : List ℕ) → length (copy source target) ≡ length target
unfolding copy
length-copy [] target = refl
length-copy (s ∷ source) [] = refl
length-copy (s ∷ source) (t ∷ target) = ap suc (length-copy source target)

-- What fits is kept, and the rest of the buffer stays zero.
abbrev pub fitted : ℕ → List ℕ → List ℕ
fitted n enc = take n enc ++ replicate (n - length enc) 0

copy-alloc : (source : List ℕ) (n : ℕ) → copy source (alloc n) ≡ fitted n source
unfolding copy
copy-alloc [] zero = refl
copy-alloc [] (suc n) = rw (sub-zero (suc n))
copy-alloc (s ∷ source) zero = rw (zero-sub (suc (length source)))
copy-alloc (s ∷ source) (suc n) =
    rw (suc-sub-suc n (length source)) (ap (◌∷◌ s) (copy-alloc source n))

copy-take : (source : List ℕ) (n : ℕ) → copy (take n source) (alloc n) ≡ copy source (alloc n)
unfolding copy
copy-take [] zero = refl
copy-take [] (suc n) = refl
copy-take (s ∷ source) zero = refl
copy-take (s ∷ source) (suc n) = ap (◌∷◌ s) (copy-take source n)

-- The cut that the two branches of the encoders make is the one that `copy` makes.
either_branch :
    (b : Bool) (enc : List ℕ) (n : ℕ)
    → (if b then copy (take n enc) (alloc n) else copy enc (alloc n)) ≡ fitted n enc
either_branch true enc n = copy-take enc n ∙ copy-alloc enc n
either_branch false enc n = copy-alloc enc n

length-fitted : (n : ℕ) (enc : List ℕ) → length (fitted n enc) ≡ n
length-fitted n enc = omega (
  arith,
  length-append {0} (take n enc) (replicate (n - length enc) 0),
  length-take {0} n enc,
  length-replicate {0} {A = ℕ} (n - length enc) 0,
)

take_all : (n : ℕ) (xs : List ℕ) → length xs ≤ n → take n xs ≡ xs
take_all zero [] h = refl
take_all zero (x ∷ xs) h = absurd (omega arith)
take_all (suc n) [] h = refl
take_all (suc n) (x ∷ xs) h = ap (◌∷◌ x) (take_all n xs (omega arith))

-- A text without NUL characters.
abbrev pub NoNul : String → Type 0
NoNul String.[] = Unit
NoNul (String.◌∷◌ c s) = (code c ≢ 0) × NoNul s

remove_nul-nuls : (n : ℕ) → remove_nul (nuls n) ≡ ""
unfolding remove_nul
remove_nul-nuls zero = refl
remove_nul-nuls (suc n) = remove_nul-nuls n

remove_nul_padded : (s : String) (n : ℕ) → NoNul s → remove_nul (String.◌++◌ s (nuls n)) ≡ s
unfolding remove_nul
remove_nul_padded String.[] n h = rw nil-append (remove_nul-nuls n)
remove_nul_padded (String.◌∷◌ c s) n h = rw cons-append (ground (arith, remove_nul_padded s n h.1))

module _ (texts : Texts) where
  open texts use {utf8, trim, to_upper_case, slice}

  -- A name field has 64 bytes and an account field 34, whatever the text: the first bytes of its
  -- UTF-8 coding, as many as fit, and zeros behind them. The helper of the multi-asset vault, which
  -- tests no length, makes the same 64 bytes of a name.
  encoded_fields :
      (s : String)
      → (str_to_bytes64 texts s ≡ fitted 64 (utf8 s))
        × (length (str_to_bytes64 texts s) ≡ 64)
        × (str_to_bytes34 texts s ≡ fitted 34 (utf8 s))
        × (length (str_to_bytes34 texts s) ≡ 34)
        × (str_to_bytes texts s 64 ≡ str_to_bytes64 texts s)
  unfolding str_to_bytes64 str_to_bytes34 str_to_bytes
  encoded_fields s =
      let long = either_branch (ltb 64 (length (utf8 s))) (utf8 s) 64 in
      let short = either_branch (ltb 34 (length (utf8 s))) (utf8 s) 34 in
      (
        long,
        ap length long ∙ length-fitted 64 (utf8 s),
        short,
        ap length short ∙ length-fitted 34 (utf8 s),
        copy-alloc (utf8 s) 64 ∙ sym long,
      )

  -- A text without NUL characters whose UTF-8 coding fits into the buffer is read back, trimmed.
  pub ticker_from_bytes-str_to_bytes :
      (s : String) (len : ℕ)
      → NoNul s
      → length (utf8 s) ≤ len
      → ticker_from_bytes texts (str_to_bytes texts s len) ≡ trim s
  unfolding ticker_from_bytes str_to_bytes
  ticker_from_bytes-str_to_bytes s len plain fits =
      let rest = len - length (utf8 s) in
      ap (λ b. trim (remove_nul (texts.decode b)))
        (copy-alloc (utf8 s) len ∙ ap (λ t. t ++ replicate rest 0) (take_all len (utf8 s) fits))
      ∙ ap (λ t. trim (remove_nul t)) (texts.decode_padded s rest)
      ∙ ap trim (remove_nul_padded s rest plain)
