-- ===== src/Research/Lines.antt =====
-- oragami-frontend/lib/tinyfish.ts: how the chunks of the response are cut into lines. A text is the
-- list of its UTF-16 code units.
use mathlib.Core.List.{append_assoc, append-nil}
use oragami.Prelude.{
  ℕ, ◌≡◌, ◌≢◌, refl, ◌∙◌, sym, ap, inl, inr, true, false, List, [], ◌∷◌, ◌++◌, if◌then◌else◌, ◌==◌,
  nat_eq, arith, Bool-cases,
}

abbrev pub Text : Type 0
Text = List ℕ

abbrev pub Bytes : Type 0
Bytes = List ℕ

abbrev pub concat : List (List ℕ) → List ℕ
concat [] = []
concat (t ∷ ts) = t ++ concat ts

-- `TextDecoder` with `stream: true`: the text that it gives out on a chunk, from the bytes that it was
-- given before. A chunk in two parts gives the same text as a whole.
pub record Decoder : Type 0 where
  pub decode : Bytes → Bytes → Text
  pub decode_nil : (before : Bytes) → decode before [] ≡ []
  pub decode_append :
      (before xs ys : Bytes)
      → decode before (xs ++ ys) ≡ decode before xs ++ decode (before ++ xs) ys

-- The texts of the chunks, one after another by one decoder.
unfoldable pub decoded : Decoder → Bytes → List Bytes → List Text
decoded decoder before [] = []
decoded decoder before (value ∷ values) =
    decoder.decode before value ∷ decoded decoder (before ++ value) values

-- Together they are the text of all the bytes.
pub concat-decoded :
    (decoder : Decoder) (before : Bytes) (values : List Bytes)
    → concat (decoded decoder before values) ≡ decoder.decode before (concat values)
unfolding decoded
concat-decoded decoder before [] = sym (decoder.decode_nil before)
concat-decoded decoder before (value ∷ values) =
    ap (λ t. decoder.decode before value ++ t) (concat-decoded decoder (before ++ value) values)
    ∙ sym (decoder.decode_append before value (concat values))

abbrev prepend : ℕ → List Text → List Text
prepend c [] = (c ∷ []) ∷ []
prepend c (l ∷ ls) = (c ∷ l) ∷ ls

-- `text.split("\n")`
unfoldable pub split : Text → List Text
split [] = [] ∷ []
split (c ∷ cs) = let ls = split cs in if c == b'\n' then [] ∷ ls else prepend c ls

-- `lines.pop() || ""`, with what is left of the lines
unfoldable pub pop : List Text → List Text × Text
pop [] = ([], [])
pop (l ∷ []) = ([], l)
pop (l ∷ m ∷ ms) = let (init, last) = pop (m ∷ ms) in (l ∷ init, last)

-- One turn of the loop: the lines that are complete, and the new buffer.
unfoldable pub take_lines : Text → List Text × Text
unfolding split pop
take_lines text = pop (split text)

-- The lines of the whole loop; what is in the buffer at its end is dropped.
unfoldable pub read_lines : Text → List Text → List Text
unfolding take_lines
read_lines buffer [] = []
read_lines buffer (chunk ∷ chunks) =
    let (lines, rest) = take_lines (buffer ++ chunk) in lines ++ read_lines rest chunks

abbrev add_line : List Text × Text → List Text × Text
add_line (ls, r) = ([] ∷ ls, r)

abbrev push : ℕ → List Text × Text → List Text × Text
push c ([], r) = ([], c ∷ r)
push c (l ∷ ls, r) = ((c ∷ l) ∷ ls, r)

split-ne-nil : (text : Text) → split text ≢ []
unfolding split
split-ne-nil [] = ground arith
split-ne-nil (c ∷ cs) = ground arith

pop-cons : (ls : List Text) → ls ≢ [] → pop ([] ∷ ls) ≡ add_line (pop ls)
unfolding pop
pop-cons [] h = absurd (h refl)
pop-cons (l ∷ ls) h = refl

pop-prepend : (c : ℕ) (ls : List Text) → ls ≢ [] → pop (prepend c ls) ≡ push c (pop ls)
unfolding pop
pop-prepend c [] h = absurd (h refl)
pop-prepend c (l ∷ []) h = refl
pop-prepend c (l ∷ m ∷ ms) h = refl

take_lines-newline :
    (c : ℕ) (cs : Text) → (c == b'\n') ≡ true → take_lines (c ∷ cs) ≡ add_line (take_lines cs)
unfolding take_lines split
take_lines-newline c cs e = rw e (pop-cons (split cs) (split-ne-nil cs))

take_lines-cons :
    (c : ℕ) (cs : Text) → (c == b'\n') ≡ false → take_lines (c ∷ cs) ≡ push c (take_lines cs)
unfolding take_lines split
take_lines-cons c cs e = rw e (pop-prepend c (split cs) (split-ne-nil cs))

-- Lines found first, and then those of the rest with more text behind it.
abbrev continued : List Text → List Text × Text → List Text × Text
continued lines p = (lines ++ p.0, p.1)

push-continued :
    (c : ℕ) (ys : Text) (p : List Text × Text)
    → (c == b'\n') ≡ false
    → push c (continued p.0 (take_lines (p.1 ++ ys)))
      ≡ continued (push c p).0 (take_lines ((push c p).1 ++ ys))
push-continued c ys ([], r) e = sym (take_lines-cons c (r ++ ys) e)
push-continued c ys (l ∷ ls, r) e = refl

take_lines-nil : take_lines [] ≡ ([], [])
unfolding take_lines split pop
take_lines-nil = refl

take_lines-append :
    (xs ys : Text)
    → take_lines (xs ++ ys) ≡ continued (take_lines xs).0 (take_lines ((take_lines xs).1 ++ ys))
take_lines-append [] ys = rw take_lines-nil refl
take_lines-append (c ∷ cs) ys = elim (Bool-cases (c == b'\n')) [
  | inl e ↦
      rw (take_lines-newline c cs e, take_lines-newline c (cs ++ ys) e)
        (ap add_line (take_lines-append cs ys))
  | inr e ↦
      rw (take_lines-cons c cs e, take_lines-cons c (cs ++ ys) e)
        (ap (push c) (take_lines-append cs ys) ∙ push-continued c ys (take_lines cs) e)
]

-- The text has no line feed, so nothing is cut off it.
abbrev IsRest : Text → Type 0
IsRest text = take_lines text ≡ ([], text)

push-IsRest :
    (c : ℕ) (p : List Text × Text) → (c == b'\n') ≡ false → IsRest p.1 → IsRest (push c p).1
push-IsRest c ([], r) e h = take_lines-cons c r e ∙ ap (push c) h
push-IsRest c (l ∷ ls, r) e h = h

take_lines-IsRest : (xs : Text) → IsRest (take_lines xs).1
take_lines-IsRest [] = rw take_lines-nil take_lines-nil
take_lines-IsRest (c ∷ cs) = elim (Bool-cases (c == b'\n')) [
  | inl e ↦ rw (take_lines-newline c cs e) (take_lines-IsRest cs)
  | inr e ↦ rw (take_lines-cons c cs e) (push-IsRest c (take_lines cs) e (take_lines-IsRest cs))
]

read_lines-rest :
    (buffer : Text) (chunks : List Text)
    → IsRest buffer
    → read_lines buffer chunks ≡ (take_lines (buffer ++ concat chunks)).0
unfolding read_lines
read_lines-rest buffer [] h = rw (append-nil, h) refl
read_lines-rest buffer (chunk ∷ chunks) h =
    ap (λ ls. (take_lines (buffer ++ chunk)).0 ++ ls)
      (read_lines-rest (take_lines (buffer ++ chunk)).1 chunks
        (take_lines-IsRest (buffer ++ chunk)))
    ∙ ap (λ p. p.0) (sym (take_lines-append (buffer ++ chunk) (concat chunks)))
    ∙ ap (λ t. (take_lines t).0) (append_assoc buffer chunk (concat chunks))

-- The lines do not depend on where the response is cut into chunks: they are those of the whole
-- text but for what follows its last line feed.
pub read_lines-concat : (chunks : List Text) → read_lines [] chunks ≡ (take_lines (concat chunks)).0
read_lines-concat chunks = read_lines-rest [] chunks take_lines-nil
