-- ===== src/Encoding/Codes.antt =====
-- An instance of `Texts` that runs: one number for each character, as UTF-8 has it for ASCII.
use Prim.Native.Char.{Char, char, code, nul, IsScalar}
use Prim.Native.Nat.{Ordering, compare}
use Prim.Native.String
use text.Mathlib.TextLemmas.{nil-append, cons-append}
use text.Mathlib.TextEquality.{Char-path}
use oragami.Prelude.{
  ℕ, zero, suc, String, List, [], ◌∷◌, ◌≡◌, refl, sym, ◌∙◌, ◌++◌, ◌⊎◌, inl, inr, replicate,
}
use oragami.Encoding.Bytes.{Texts, nuls}

Ordering-cases : (o : Ordering) → (o ≡ Ordering.lt) ⊎ (o ≡ Ordering.eq) ⊎ (o ≡ Ordering.gt)
Ordering-cases Ordering.lt = inl refl
Ordering-cases Ordering.eq = inr (inl refl)
Ordering-cases Ordering.gt = inr (inr refl)

-- The number is one of a character, or it is not.
scalar? : (n : ℕ) → IsScalar n ⊎ (IsScalar n → ⊥)
scalar? n = elim (Ordering-cases (compare n 55296)) [
  | inl a ↦ inl (rw a tt)
  | inr (inl a) ↦ elim (Ordering-cases (compare 57343 n)) [
    | inl b ↦ elim (Ordering-cases (compare n 1114112)) [
      | inl c ↦ inl (rw (a, b, c) tt)
      | inr (inl c) ↦ inr (rw (a, b, c) (λ h. h))
      | inr (inr c) ↦ inr (rw (a, b, c) (λ h. h))
    ]
    | inr (inl b) ↦ inr (rw (a, b) (λ h. h))
    | inr (inr b) ↦ inr (rw (a, b) (λ h. h))
  ]
  | inr (inr a) ↦ elim (Ordering-cases (compare 57343 n)) [
    | inl b ↦ elim (Ordering-cases (compare n 1114112)) [
      | inl c ↦ inl (rw (a, b, c) tt)
      | inr (inl c) ↦ inr (rw (a, b, c) (λ h. h))
      | inr (inr c) ↦ inr (rw (a, b, c) (λ h. h))
    ]
    | inr (inl b) ↦ inr (rw (a, b) (λ h. h))
    | inr (inr b) ↦ inr (rw (a, b) (λ h. h))
  ]
]

pub char_of : ℕ → Char
char_of n = elim (scalar? n) [ inl p ↦ char n p | inr q ↦ nul ]

char_of-code : (c : Char) → char_of (code c) ≡ c
unfolding char_of
char_of-code (char n p) = go n p (scalar? n)
  where
    go :
        (n : ℕ) (p : IsScalar n) (d : IsScalar n ⊎ (IsScalar n → ⊥))
        → elim d as (λ x. Char) [ inl p ↦ char n p | inr q ↦ nul ] ≡ char n p
    go n p (inl q) = Char-path (char n q) (char n p) refl
    go n p (inr q) = absurd (q p)

unfoldable pub utf8 : String → List ℕ
utf8 String.[] = []
utf8 (String.◌∷◌ c s) = code c ∷ utf8 s

unfoldable pub decode : List ℕ → String
decode [] = ""
decode (n ∷ ns) = String.◌∷◌ (char_of n) (decode ns)

decode-zeros : (n : ℕ) → decode (replicate n 0) ≡ nuls n
unfolding decode
decode-zeros zero = refl
decode-zeros (suc n) = rw (char_of-code nul, decode-zeros n) refl

pub decode_padded : (s : String) (n : ℕ) → decode (utf8 s ++ replicate n 0) ≡ String.◌++◌ s (nuls n)
unfolding decode utf8
decode_padded String.[] n = decode-zeros n ∙ sym (nil-append (nuls n))
decode_padded (String.◌∷◌ c s) n =
    rw (char_of-code c, decode_padded s n) (sym (cons-append c s (nuls n)))

-- The first `n` characters.
unfoldable pub first : String → ℕ → String
first s zero = ""
first String.[] (suc n) = ""
first (String.◌∷◌ c s) (suc n) = String.◌∷◌ c (first s n)

abbrev pub codes : Texts
codes = record {
  utf8 = utf8;
  decode = decode;
  trim = λ s. s;
  to_upper_case = λ s. s;
  slice = first;
  decode_padded = decode_padded;
}
