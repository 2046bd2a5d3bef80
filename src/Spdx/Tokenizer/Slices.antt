-- ===== src/Spdx/Tokenizer/Slices.antt =====
-- Where the tokens stand in the expression, and that the tokenizer terminates.
use debcraft.Prelude.{
  ℕ, zero, suc, ◌+◌, ◌-◌, ◌≡◌, ◌<◌, ◌≤◌, refl, ap, ◌∙◌, false, some, List, [], ◌∷◌, ◌++◌,
  append_assoc, arith, length, length-append, take, drop, take-length_append, drop-length_append,
  get_elem?, is_empty, Result, ok, err, ◌>>=◌,
}
use debcraft.Prelude.Text.{Text}
use debcraft.Spdx.Values.{SpdxToken}
use debcraft.Spdx.Tokenizer.{
  TokenizeError, invalid_character, out_of_fuel, Scan, skip, emit, invalid, scan, tokenize_loop,
  tokenize,
}
use debcraft.Spdx.Tokenizer.Scanned.{Found, scan-Found}

-- The tokens stand one behind the other from offset `lo` on, each where its offset says.
abbrev pub Placed : Text → ℕ → List SpdxToken → Type 0
Placed e lo [] = Unit
Placed e lo (t ∷ ts) =
    (lo ≤ t.offset)
    × (take (length t.value) (drop t.offset e) ≡ t.value)
    × Placed e (t.offset + length t.value) ts

-- What `tokenize` may return for `e` from offset `lo` on.
abbrev pub Tokenizes : Text → ℕ → Result TokenizeError (List SpdxToken) → Type 0
Tokenizes e lo (ok tokens) = Placed e lo tokens
Tokenizes e lo (err (invalid_character c offset)) = get_elem? e offset ≡ some c
Tokenizes e lo (err out_of_fuel) = ⊥

Tokenizes-le :
    (e : Text) (lo hi : ℕ) (r : Result TokenizeError (List SpdxToken))
    → lo ≤ hi
    → Tokenizes e hi r
    → Tokenizes e lo r
Tokenizes-le e lo hi (ok []) h p = tt
Tokenizes-le e lo hi (ok (t ∷ ts)) h p = (omega (arith, p.0), p.1, p.2)
Tokenizes-le e lo hi (err (invalid_character c offset)) h p = p
Tokenizes-le e lo hi (err out_of_fuel) h p = p

Tokenizes-cons :
    (e : Text) (lo : ℕ) (t : SpdxToken) (r : Result TokenizeError (List SpdxToken))
    → lo ≤ t.offset
    → take (length t.value) (drop t.offset e) ≡ t.value
    → Tokenizes e (t.offset + length t.value) r
    → Tokenizes e lo (r >>= λ tokens. ok (t ∷ tokens))
Tokenizes-cons e lo t (ok ts) h k p = (h, k, p)
Tokenizes-cons e lo t (err (invalid_character c offset)) h k p = p
Tokenizes-cons e lo t (err out_of_fuel) h k p = p

get_elem?-length_append :
    (before s : Text) → get_elem? (before ++ s) (length before) ≡ get_elem? s 0
get_elem?-length_append [] s = refl
get_elem?-length_append (c ∷ before) s = get_elem?-length_append before s

-- A slice at a known place.
slice_lem :
    (e before value rest : Text) (lo : ℕ)
    → e ≡ before ++ (value ++ rest)
    → lo ≡ length before
    → take (length value) (drop lo e) ≡ value
slice_lem e before value rest lo h k =
    rw (h, k, drop-length_append before (value ++ rest)) (take-length_append value rest)

-- The text that is read makes up for the distance.
distance :
    (value gap rest s : Text)
    → s ≡ value ++ (gap ++ rest)
    → length s - length rest ≡ length value + length gap
distance value gap rest s h = omega (
  arith,
  ap (λ (x : Text). length x) h,
  length-append value (gap ++ rest),
  length-append gap rest,
)

length_pos : (a : Text) → is_empty a ≡ false → 0 < length a
length_pos [] h = cc
length_pos (c ∷ a) h = omega arith

regroup_read :
    (before value gap rest : Text)
    → before ++ (value ++ (gap ++ rest)) ≡ (before ++ (value ++ gap)) ++ rest
regroup_read before value gap rest = simp append_assoc

abbrev LoopPlaced : Text → ℕ → Type 0
LoopPlaced e fuel =
    (before s : Text)
    → e ≡ before ++ s
    → length s < fuel
    → Tokenizes e (length before) (tokenize_loop fuel s (length before))

emit-Placed :
    (e : Text) (fuel : ℕ) (before s : Text) (t : SpdxToken) (rest gap : Text)
    → LoopPlaced e fuel
    → e ≡ before ++ s
    → length s < suc fuel
    → s ≡ t.value ++ (gap ++ rest)
    → t.offset ≡ length before
    → is_empty t.value ≡ false
    → Tokenizes e (length before) (
        tokenize_loop fuel rest (length before + (length s - length rest)) >>= λ tokens.
        ok (t ∷ tokens))
emit-Placed e fuel before s t rest gap ih eq enough split place filled =
    let read = before ++ (t.value ++ gap) in
    let e' : e ≡ read ++ rest = cc (regroup_read before t.value gap rest) in
    let far : length before + (length s - length rest) ≡ length read = omega (
      arith,
      distance t.value gap rest s split,
      length-append before (t.value ++ gap),
      length-append t.value gap,
    ) in
    let fewer : length rest < fuel = omega (
      arith,
      length_pos t.value filled,
      ap (λ (x : Text). length x) split,
      length-append t.value (gap ++ rest),
      length-append gap rest,
    ) in
    let near : t.offset + length t.value ≤ length read =
      omega (arith, length-append before (t.value ++ gap), length-append t.value gap) in
    rw far (
      Tokenizes-cons e (length before) t (tokenize_loop fuel rest (length read)) (omega arith)
        (slice_lem e before t.value (gap ++ rest) t.offset (eq ∙ ap (λ x. before ++ x) split) place)
        (Tokenizes-le e (t.offset + length t.value) (length read)
          (tokenize_loop fuel rest (length read)) near (ih read rest e' fewer)))

skip-Placed :
    (e : Text) (fuel : ℕ) (before s : Text) (blank : ℕ) (rest : Text)
    → LoopPlaced e fuel
    → e ≡ before ++ s
    → length s < suc fuel
    → s ≡ blank ∷ rest
    → Tokenizes e (length before) (tokenize_loop fuel rest (length before + 1))
skip-Placed e fuel before s blank rest ih eq enough split =
    let read = before ++ blank ∷ [] in
    let e' : e ≡ read ++ rest = cc (append_assoc before (blank ∷ []) rest) in
    let far : length before + 1 ≡ length read = omega (arith, length-append before (blank ∷ [])) in
    let fewer : length rest < fuel = omega (arith, ap (λ (x : Text). length x) split) in
    rw far (
      Tokenizes-le e (length before) (length read) (tokenize_loop fuel rest (length read))
        (omega arith) (ih read rest e' fewer))

invalid-Placed :
    (e before s : Text) (c : ℕ)
    → e ≡ before ++ s
    → get_elem? s 0 ≡ some c
    → get_elem? e (length before) ≡ some c
invalid-Placed e before s c eq h = rw eq (get_elem?-length_append before s ∙ h)

tokenize_loop-Placed : (e : Text) (fuel : ℕ) → LoopPlaced e fuel
unfolding tokenize_loop
tokenize_loop-Placed e zero before s eq enough = absurd (omega arith)
tokenize_loop-Placed e (suc fuel) before [] eq enough = tt
tokenize_loop-Placed e (suc fuel) before (c ∷ s) eq enough =
    by_scan (tokenize_loop-Placed e fuel) (scan c s (length before))
      (scan-Found c s (length before))
  where
    by_scan :
        LoopPlaced e fuel
        → (r : Scan) → Found (c ∷ s) (length before) r
        → Tokenizes e (length before) (elim r [
          | skip rest ↦ tokenize_loop fuel rest (length before + 1)
          | emit token rest ↦
              (tokenize_loop fuel rest (length before + (length (c ∷ s) - length rest))
                >>= λ tokens. ok (token ∷ tokens))
          | invalid char ↦ err (invalid_character char (length before))
        ])
    by_scan ih (skip rest) (blank, split) =
        skip-Placed e fuel before (c ∷ s) blank rest ih eq enough split
    by_scan ih (emit t rest) (gap, split, place, filled) =
        emit-Placed e fuel before (c ∷ s) t rest gap ih eq enough split place filled
    by_scan ih (invalid k) f = invalid-Placed e before (c ∷ s) k eq f

-- `tokenize` terminates on every expression, and either returns tokens that stand one behind the
-- other in it, each the slice of the expression at its offset, or raises at the offset of the
-- character that it names.
pub tokenize-slices : (e : Text) → Tokenizes e 0 (tokenize e)
unfolding tokenize
tokenize-slices e = tokenize_loop-Placed e (suc (length e)) [] e refl (omega arith)
