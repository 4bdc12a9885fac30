-- ===== src/SockAddr/Roundtrip.antt =====
-- An address that was printed is split into its host and its service again.
use libremo.Prelude.{
  ℕ, suc, ◌+◌, ◌-◌, ◌≡◌, refl, sym, ap, ◌∙◌, Bool, true, false, ◌&&◌, [], ◌∷◌, ◌++◌, ◌==◌,
  Bool-cases, inl, inr, none, some, length, has, has-not_first, take-length_append,
  drop-length_append, drop-add, arith, ==_refl,
}
use libremo.Url.{Chars, find_in, starts_with}
use libremo.SockAddr.{
  colon, bracket_colon, or_else, rfind, split_colon, split_bracket, split_addr, format_addr,
}

and_false : (b : Bool) → (b && false) ≡ false
and_false true = refl
and_false false = refl

-- Without a colon there is neither of the two delimiters.
no_bracket : (i : ℕ) (s : Chars) → has colon s ≡ false → rfind bracket_colon i s ≡ none
unfolding rfind or_else starts_with
no_bracket i [] h = refl
no_bracket i (x ∷ []) h = rw (and_false (x == 0x5D)) refl
no_bracket i (x ∷ y ∷ ys) h =
    let (g, h1) = has-not_first colon x (y ∷ ys) h in
    let (g', h2) = has-not_first colon y ys h1 in
    rw (no_bracket (i + 1) (y ∷ ys) h1, g', and_false (x == 0x5D)) refl

no_colon : (i : ℕ) (s : Chars) → has colon s ≡ false → rfind (colon ∷ []) i s ≡ none
unfolding rfind or_else starts_with
no_colon i [] h = refl
no_colon i (x ∷ xs) h =
    let (g, h1) = has-not_first colon x xs h in rw (no_colon (i + 1) xs h1, g) refl

-- The last delimiter, with something else in front of it.
rfind-behind :
    (pat pre t : Chars) (i j : ℕ)
    → rfind pat (i + length pre) t ≡ some j
    → rfind pat i (pre ++ t) ≡ some j
unfolding rfind or_else
rfind-behind pat [] t i j e =
    let shift : i + 0 ≡ i = omega arith in ap (λ k. rfind pat k t) (sym shift) ∙ e
rfind-behind pat (x ∷ pre) t i j e =
    let shift : i + length (x ∷ pre) ≡ i + 1 + length pre = omega arith in
    rw (rfind-behind pat pre t (i + 1) j (ap (λ k. rfind pat k t) (sym shift) ∙ e)) refl

bracket_here :
    (i : ℕ) (service : Chars)
    → has colon service ≡ false
    → rfind bracket_colon i (bracket_colon ++ service) ≡ some i
unfolding rfind or_else starts_with
bracket_here i service h = rw (no_bracket (i + 1 + 1) service h) refl

colon_here :
    (i : ℕ) (service : Chars)
    → has colon service ≡ false
    → rfind (colon ∷ []) i (colon ∷ service) ≡ some i
unfolding rfind or_else starts_with
colon_here i service h = rw (no_colon (i + 1) service h) refl

no_bracket_host :
    (i : ℕ) (host service : Chars)
    → has 0x5D host ≡ false
    → has colon service ≡ false
    → rfind bracket_colon i (host ++ (colon ∷ service)) ≡ none
unfolding rfind or_else starts_with
no_bracket_host i [] service g h = rw (no_bracket (i + 1) service h) refl
no_bracket_host i (x ∷ host) service g h =
    let (first, others) = has-not_first 0x5D x host g in
    rw (no_bracket_host (i + 1) host service others h, first) refl

first_colon :
    (i : ℕ) (host service : Chars)
    → has colon host ≡ false
    → find_in colon i (host ++ (colon ∷ service)) ≡ some (i + length host)
unfolding find_in
first_colon i [] service h = let shift : i ≡ i + 0 = omega arith in ap some shift
first_colon i (x ∷ host) service h =
    let (first, others) = has-not_first colon x host h in
    let shift : i + 1 + length host ≡ i + length (x ∷ host) = omega arith in
    rw first (first_colon (i + 1) host service others ∙ ap some shift)

split-bracketed :
    (host service : Chars)
    → has colon service ≡ false
    → split_addr (0x5B ∷ (host ++ (bracket_colon ++ service))) ≡ (host, service)
unfolding split_addr split_bracket
split-bracketed host service h =
    let s : Chars = 0x5B ∷ (host ++ (bracket_colon ++ service)) in
    let found : rfind bracket_colon 0 s ≡ some (0 + length (0x5B ∷ host)) =
      rfind-behind bracket_colon (0x5B ∷ host) (bracket_colon ++ service) 0 _
        (bracket_here (0 + length (0x5B ∷ host)) service h) in
    let at : 0 + length (0x5B ∷ host) ≡ suc (length host) = omega arith in
    let less : suc (length host) - 1 ≡ length host = omega arith in
    let more : suc (length host) + 2 ≡ suc (length host + 2) = omega arith in
    ap (λ o. split_bracket o s) (found ∙ ap some at)
    ∙ rw
        (
          not_zero (length host),
          less,
          more,
          take-length_append host (bracket_colon ++ service),
          drop-add (length host) 2 (host ++ (bracket_colon ++ service)),
          drop-length_append host (bracket_colon ++ service),
        )
        refl
  where
    not_zero : (k : ℕ) → (suc k == 0) ≡ false
    not_zero k = ground arith

split-plain :
    (host service : Chars)
    → has colon host ≡ false
    → has 0x5D host ≡ false
    → has colon service ≡ false
    → split_addr (host ++ (colon ∷ service)) ≡ (host, service)
unfolding split_addr split_bracket split_colon
split-plain host service c b h =
    let s : Chars = host ++ (colon ∷ service) in
    let at : 0 + length host ≡ length host = omega arith in
    let last : rfind (colon ∷ []) 0 s ≡ some (0 + length host) =
      rfind-behind (colon ∷ []) host (colon ∷ service) 0 _
        (colon_here (0 + length host) service h) in
    ap (λ o. split_bracket o s) (no_bracket_host 0 host service b h)
    ∙ ap (λ o. split_colon o s) (last ∙ ap some at)
    ∙ rw
        (
          first_colon 0 host service c,
          at,
          ==_refl (length host),
          take-length_append host (colon ∷ service),
          drop-add (length host) 1 s,
          drop-length_append host (colon ∷ service),
        )
        refl

-- An address that is printed with its port is split into the same host and service, with
-- brackets or without, provided that there is no closing bracket in the host and no colon in the
-- service.
pub split_addr-format_addr :
    (port : ℕ) (host service : Chars)
    → (port == 0) ≡ false
    → has 0x5D host ≡ false
    → has colon service ≡ false
    → split_addr (format_addr port host service) ≡ (host, service)
unfolding format_addr
split_addr-format_addr port host service p b h = elim (Bool-cases (has colon host)) [
  | inl c ↦ rw (p, c) (split-bracketed host service h)
  | inr c ↦ rw (p, c) (split-plain host service c b h)
]
