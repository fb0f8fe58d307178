-- ===== src/Shell/Words.antt =====
-- A line of words, one space between two of them, is taken apart into these words by `tokenize`.
use tp2_sistemas_operativos.Base.{
  ℕ, ◌+◌, ◌≤◌, ◌<◌, ◌≡◌, ◌≢◌, refl, sym, ap, ap₂, ◌∙◌, arith, true, false, ◌&&◌, not, List, [], ◌∷◌,
  ◌++◌, map, ltb, ◌==◌, length, length-append, drop,
}
use mathlib.Core.List.{append-nil, append_assoc}
use tp2_sistemas_operativos.Text.{Text}
use tp2_sistemas_operativos.Shell.{
  buffer_size, space, tokenize_loop, cut_spaces, text_in, text_at, tokenize,
}

-- A word has no space and no 0 in it.
abbrev pub IsWord : Text → Type 0
IsWord [] = Unit {0}
IsWord (c ∷ w) = (c ≢ space) × ((c ≢ 0) × IsWord w)

abbrev pub AreWords : List Text → Type 0
AreWords [] = Unit {0}
AreWords (w ∷ words) = IsWord w × ((w ≢ []) × AreWords words)

-- The words behind the first one, each with a space before it.
unfoldable pub spaced : List Text → Text
spaced [] = []
spaced (w ∷ words) = space ∷ w ++ spaced words

-- The addresses of the words behind the first one.
unfoldable pub starts : ℕ → List Text → List ℕ
starts at [] = []
starts at (w ∷ words) = (at + 1) ∷ starts (at + 1 + length w) words

tokenize-other :
    (c : ℕ) (rest : Text) (current : ℕ) (args : List ℕ)
    → c ≢ space
    → tokenize_loop (c ∷ rest) current args ≡ tokenize_loop rest (current + 1) args
unfolding tokenize_loop
tokenize-other c rest current args h = ground arith

tokenize-word :
    (w rest : Text) (current : ℕ) (args : List ℕ)
    → IsWord w
    → tokenize_loop (w ++ rest) current args ≡ tokenize_loop rest (current + length w) args
tokenize-word [] rest current args h = ap (λ (k : ℕ). tokenize_loop rest k args) (omega arith)
tokenize-word (c ∷ w) rest current args (a, (b, h)) =
    tokenize-other c (w ++ rest) current args a
    ∙ tokenize-word w rest (current + 1) args h
    ∙ ap (λ (k : ℕ). tokenize_loop rest k args) (omega arith)

-- A space with more behind it starts an argument, if there is room.
tokenize-space :
    (rest : Text) (current : ℕ) (args : List ℕ)
    → 0 < length rest
    → length args < buffer_size
    → tokenize_loop (space ∷ rest) current args
      ≡ tokenize_loop rest (current + 1) (args ++ (current + 1) ∷ [])
unfolding tokenize_loop
tokenize-space rest current args more room =
    let starts_one : (not (length rest == 0) && ltb (length args) buffer_size) ≡ true =
      ground arith in
    rw starts_one refl

length-word : (w rest : Text) → w ≢ [] → 0 < length (w ++ rest)
length-word [] rest h = absurd (h refl)
length-word (c ∷ w) rest h = omega arith

tokenize-starts :
    (words : List Text) (current : ℕ) (args : List ℕ)
    → AreWords words
    → length args + length words ≤ buffer_size
    → tokenize_loop (spaced words) current args ≡ args ++ starts current words
unfolding tokenize_loop spaced starts
tokenize-starts [] current args h room = sym (append-nil args)
tokenize-starts (w ∷ words) current args (a, (b, h)) room =
    let args' = args ++ (current + 1) ∷ [] in
    tokenize-space (w ++ spaced words) current args (length-word w (spaced words) b) (omega arith)
    ∙ tokenize-word w (spaced words) (current + 1) args' a
    ∙ tokenize-starts words (current + 1 + length w) args' h
        (omega (arith, length-append args ((current + 1) ∷ [])))
    ∙ append_assoc args ((current + 1) ∷ []) (starts (current + 1 + length w) words)

-- The words where they stand in the buffer.
cut_spaces-word : (w rest : Text) → IsWord w → cut_spaces (w ++ rest) ≡ w ++ cut_spaces rest
unfolding cut_spaces
cut_spaces-word [] rest h = refl
cut_spaces-word (c ∷ w) rest (a, (b, h)) =
    let other : (c == space) ≡ false = ground arith in
    rw other (ap (λ (r : Text). c ∷ r) (cut_spaces-word w rest h))

text_in-word :
    (w : Text) (words : List Text) → IsWord w → text_in (w ++ cut_spaces (spaced words)) ≡ w
unfolding cut_spaces spaced text_in
text_in-word [] [] h = refl
text_in-word [] (v ∷ words) h = refl
text_in-word (c ∷ w) words (a, (b, h)) =
    let other : (c == 0) ≡ false = ground arith in
    rw other (ap (λ (r : Text). c ∷ r) (text_in-word w words h))

drop-append : (before after : Text) → drop (length before) (before ++ after) ≡ after
drop-append [] after = refl
drop-append (c ∷ before) after = drop-append before after

-- Behind `before`, the words stand at their addresses.
texts-starts :
    (words : List Text) (before : Text)
    → AreWords words
    → map (text_at (before ++ cut_spaces (spaced words))) (starts (length before) words) ≡ words
unfolding starts spaced cut_spaces text_at
texts-starts [] before h = refl
texts-starts (w ∷ words) before (a, (b, h)) =
    let tail = cut_spaces (spaced words) in
    let cut = ap (λ (r : Text). before ++ 0 ∷ r) (cut_spaces-word w (spaced words) a) in
    let at_word = cut ∙ sym (append_assoc before (0 ∷ []) (w ++ tail)) in
    let behind = cut ∙ sym (append_assoc before (0 ∷ w) tail) in
    ap₂ (λ (x : Text) (xs : List Text). x ∷ xs)
      (ap₂ text_at at_word (sym (length-append before (0 ∷ [])))
        ∙ ap text_in (drop-append (before ++ 0 ∷ []) (w ++ tail))
        ∙ text_in-word w words a)
      (ap₂ (λ (buffer : Text) (n : ℕ). map (text_at buffer) (starts n words)) behind
          (omega (arith, length-append before (0 ∷ w)))
        ∙ texts-starts words (before ++ 0 ∷ w) h)

-- Words, at most as many as the array of arguments holds, with one space between two of them, are the
-- arguments that tokenize finds in the line.
pub tokenize-words :
    (w : Text) (words : List Text)
    → AreWords (w ∷ words)
    → length words < buffer_size
    → tokenize (w ++ spaced words) ≡ w ∷ words
unfolding tokenize text_at starts
tokenize-words w words (a, (b, h)) room =
    let cut = cut_spaces-word w (spaced words) a in
    ap (map (text_at (cut_spaces (w ++ spaced words)))) (
      tokenize-word w (spaced words) 0 (0 ∷ []) a
      ∙ ap (λ (k : ℕ). tokenize_loop (spaced words) k (0 ∷ [])) (omega arith)
      ∙ tokenize-starts words (length w) (0 ∷ []) h (omega arith))
    ∙ ap₂ (λ (x : Text) (xs : List Text). x ∷ xs) (ap text_in cut ∙ text_in-word w words a)
        (ap (λ (buffer : Text). map (text_at buffer) (starts (length w) words)) cut
          ∙ texts-starts words w h)
