-- ===== src/Colors/Visible.antt =====
-- What a terminal shows of a text with escape sequences.
use libremo.Prelude.{
  ℕ, ◌+◌, ◌<◌, ◌≡◌, ◌≢◌, refl, sym, ap, ◌∙◌, Bool, true, false, ◌&&◌, ◌||◌, List, [], ◌∷◌, ◌++◌,
  ◌==◌, if◌then◌else◌, append-nil, append_assoc, arith, All, codes, decimal, decimal-All,
  Bool-cases, inl, inr,
}
use libremo.Colors.{
  Color, Style, color_code, style_code, has_color, has_style, add_code, sequence_codes, escape,
  colorize,
}

-- Printing a text, with the flag that an escape sequence has begun and its `m` not been seen.
visible_from : Bool → List ℕ → List ℕ
visible_from inside [] = []
visible_from true (c ∷ cs) =
    let ended = visible_from false cs in
    let skipped = visible_from true cs in if c == b'm' then ended else skipped
visible_from false (c ∷ cs) =
    let shown = visible_from false cs in
    let skipped = visible_from true cs in if c == escape then skipped else c ∷ shown

unfoldable pub visible : List ℕ → List ℕ
unfolding visible_from
visible text = visible_from false text

-- No escape sequence begins in it.
abbrev pub IsPlain : List ℕ → Type 0
IsPlain = All (λ c. c ≢ escape)

-- Wherever the first text stands, the second one is shown of it.
abbrev pub Shows : List ℕ → List ℕ → Type 0
Shows text shown = (rest : List ℕ) → visible (text ++ rest) ≡ shown ++ visible rest

pub Shows-whole : (text shown : List ℕ) → Shows text shown → visible text ≡ shown
unfolding visible
Shows-whole text shown h = ap visible (sym (append-nil text)) ∙ h [] ∙ append-nil shown

pub Shows-append : (s s' t t' : List ℕ) → Shows s s' → Shows t t' → Shows (s ++ t) (s' ++ t')
Shows-append s s' t t' h k rest =
    ap visible (append_assoc s t rest)
    ∙ h (t ++ rest)
    ∙ ap (λ x. s' ++ x) (k rest)
    ∙ sym (append_assoc s' t' (visible rest))

differs : (c : ℕ) → c ≢ escape → (c == escape) ≡ false
differs c h = ground arith

pub Shows-plain : (text : List ℕ) → IsPlain text → Shows text text
unfolding visible visible_from
Shows-plain [] h rest = refl
Shows-plain (c ∷ cs) (h, hs) rest = rw (differs c h) (ap (λ x. c ∷ x) (Shows-plain cs hs rest))

-- No letter, and so no end of a sequence, is in it.
abbrev NoEnd : List ℕ → Type 0
NoEnd = All (λ c. c < 60)

passed_over :
    (inner rest : List ℕ) → NoEnd inner → visible_from true (inner ++ (b'm' ∷ rest)) ≡ visible rest
unfolding visible visible_from
passed_over [] rest h = refl
passed_over (c ∷ cs) rest (h, hs) = rw (below c h) (passed_over cs rest hs)
  where
    below : (d : ℕ) → d < 60 → (d == b'm') ≡ false
    below d k = ground arith

NoEnd-append : (xs ys : List ℕ) → NoEnd xs → NoEnd ys → NoEnd (xs ++ ys)
NoEnd-append [] ys h k = k
NoEnd-append (x ∷ xs) ys (h, hs) k = (h, NoEnd-append xs ys hs k)

decimal-NoEnd : (n : ℕ) → NoEnd (decimal n)
decimal-NoEnd n = decimal-All (λ c. c < 60) (λ k. omega arith) n

-- The codes so far, and the separator.
IsNumeric : List ℕ × List ℕ → Type 0
IsNumeric (text, sep) = NoEnd text × NoEnd sep

add_code-IsNumeric :
    (present : Bool) (n : ℕ) (s : List ℕ × List ℕ) → IsNumeric s → IsNumeric (add_code present n s)
unfolding IsNumeric
add_code-IsNumeric true n (text, sep) (h, k) = (
  NoEnd-append text (sep ++ decimal n) h (NoEnd-append sep (decimal n) k (decimal-NoEnd n)),
  (omega arith, tt),
)
add_code-IsNumeric false n (text, sep) h = h

sequence_codes-NoEnd : (f b : Color) (s : Style) → NoEnd (sequence_codes f b s)
unfolding sequence_codes IsNumeric
sequence_codes-NoEnd f b s =
    (add_code-IsNumeric (has_style s) (style_code s) _ (
      add_code-IsNumeric (has_color b) (color_code b + 10) _
        (add_code-IsNumeric (has_color f) (color_code f) ([], []) (tt, tt)))).0

-- An escape sequence is not shown.
Shows-sequence : (inner : List ℕ) → NoEnd inner → Shows (escape ∷ b'[' ∷ (inner ++ (b'm' ∷ []))) []
unfolding visible visible_from
Shows-sequence inner h rest =
    ap (visible_from true) (append_assoc inner (b'm' ∷ []) rest) ∙ passed_over inner rest h

abbrev framed : List ℕ → List ℕ → List ℕ
framed inner str = escape ∷ b'[' ∷ (inner ++ (b'm' ∷ (str ++ (escape ∷ codes "[0m"))))

Shows-framed : (inner str : List ℕ) → NoEnd inner → IsPlain str → Shows (framed inner str) str
Shows-framed inner str k h rest =
    let reset : List ℕ = escape ∷ codes "[0m" in
    let shown : Shows (str ++ reset) (str ++ []) =
      Shows-append str str reset [] (Shows-plain str h)
        (Shows-sequence (b'0' ∷ []) (omega arith, tt)) in
    ap (λ x. visible ((escape ∷ b'[' ∷ x) ++ rest))
      (sym (append_assoc inner (b'm' ∷ []) (str ++ reset)))
    ∙ Shows-append (escape ∷ b'[' ∷ (inner ++ (b'm' ∷ []))) [] (str ++ reset) (str ++ [])
        (Shows-sequence inner k) shown rest
    ∙ ap (λ x. x ++ visible rest) (append-nil str)

-- Whatever the colours, the text is shown and nothing else.
pub Shows-colorize :
    (use_colors : Bool) (str : List ℕ) (forecol backcol : Color) (style : Style)
    → IsPlain str
    → Shows (colorize use_colors str forecol backcol style) str
unfolding colorize
Shows-colorize use_colors str forecol backcol style h rest =
    elim (Bool-cases
      (use_colors && (has_color forecol || (has_color backcol || has_style style)))) [
        | inr e ↦ rw e (Shows-plain str h rest)
        | inl e ↦ rw e (
            Shows-framed (sequence_codes forecol backcol style) str
              (sequence_codes-NoEnd forecol backcol style) h rest)
      ]

pub IsPlain-append : (xs ys : List ℕ) → IsPlain xs → IsPlain ys → IsPlain (xs ++ ys)
IsPlain-append [] ys h k = k
IsPlain-append (x ∷ xs) ys (h, hs) k = (h, IsPlain-append xs ys hs k)

pub decimal-IsPlain : (n : ℕ) → IsPlain (decimal n)
decimal-IsPlain n = decimal-All (λ c. c ≢ escape) (λ k. omega arith) n
