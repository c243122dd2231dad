-- ===== src/Encoding/Bytes.antt =====
-- oragami-backend/src/common/encoding.ts, and `strToBytes` and `tickerFromBytes` of
-- oragami-backend/src/multi-asset-vault/multi-asset-vault.service.ts: texts in buffers of a fixed
-- size. UTF-8 and JavaScript's functions on texts are a parameter, `Texts`, with the law of UTF-8
-- that reading back needs: NUL bytes read as NUL characters.
use Prim.Native.Char.{code}
use Prim.Native.String
use oragami.Prelude.{
  ℕ, zero, suc, String, List, [], ◌∷◌, ◌≡◌, ◌++◌, ltb, length, take, replicate, if◌then◌else◌, ◌==◌,
  nat_eq,
}

-- `n` NUL characters.
abbrev pub nuls : ℕ → String
nuls zero = ""
nuls (suc n) = String.◌∷◌ "\0" (nuls n)

pub record Texts : Type 0 where
  -- `Buffer.from(s, 'utf8')` and `buffer.toString('utf-8')`
  pub utf8 : String → List ℕ
  pub decode : List ℕ → String
  pub trim : String → String
  pub to_upper_case : String → String
  -- `s.slice(0, n)`
  pub slice : String → ℕ → String
  pub decode_padded :
      (s : String) (n : ℕ) → decode (utf8 s ++ replicate n 0) ≡ String.◌++◌ s (nuls n)

-- `source.copy(target, 0)`: what does not fit is dropped.
unfoldable pub copy : List ℕ → List ℕ → List ℕ
copy [] target = target
copy (s ∷ source) [] = []
copy (s ∷ source) (t ∷ target) = s ∷ copy source target

-- `Buffer.alloc(n)`
abbrev pub alloc : ℕ → List ℕ
alloc n = replicate n 0

-- `s.replace(/\0/g, '')`
unfoldable pub remove_nul : String → String
remove_nul String.[] = ""
remove_nul (String.◌∷◌ c s) =
    let rest = remove_nul s in if code c == 0 then rest else String.◌∷◌ c rest

module _ (texts : Texts) where
  open texts use {utf8, decode, trim, to_upper_case, slice}

  unfoldable pub str_to_bytes64 : String → List ℕ
  unfolding copy
  str_to_bytes64 s =
      let enc = utf8 s in
      if ltb 64 (length enc) then copy (take 64 enc) (alloc 64) else copy enc (alloc 64)

  unfoldable pub str_to_bytes34 : String → List ℕ
  unfolding copy
  str_to_bytes34 s =
      let enc = utf8 s in
      if ltb 34 (length enc) then copy (take 34 enc) (alloc 34) else copy enc (alloc 34)

  unfoldable pub jurisdiction_to_bytes : String → List ℕ
  unfolding copy
  jurisdiction_to_bytes s = copy (utf8 (slice (to_upper_case (trim s)) 4)) (alloc 4)

  -- `strToBytes(s, len)` of the multi-asset vault.
  unfoldable pub str_to_bytes : String → ℕ → List ℕ
  unfolding copy
  str_to_bytes s len = copy (utf8 s) (alloc len)

  unfoldable pub ticker_from_bytes : List ℕ → String
  unfolding remove_nul
  ticker_from_bytes bytes = trim (remove_nul (decode bytes))
