-- ===== src/Url.antt =====
-- src/l1_transport/url.h and url.cpp: the parts of a URL. A string is its characters.
pub mod Search
pub mod Roundtrip
use libremo.Prelude.{
  ℕ, zero, suc, ◌+◌, ◌-◌, Bool, true, false, ◌&&◌, List, [], ◌∷◌, ◌++◌, ◌==◌, ltb, if◌then◌else◌,
  Option, none, some, take, drop, length,
}
use libremo.Error.{Result, ok, timeout, ◌>>=◌}

abbrev pub Chars : Type 0
Chars = List ℕ

-- PROTO_DELIM
abbrev pub proto_delim : Chars
proto_delim = 0x3A ∷ 0x2F ∷ 0x2F ∷ []

abbrev pub dot : ℕ
dot = 0x2E

abbrev pub slash : ℕ
slash = 0x2F

pub record Url : Type 0 where
  pub proto : List Chars
  pub host : Chars
  pub path : Chars
  pub query : Chars
  pub fragment : Chars

abbrev pub new_url : Url
new_url = record { proto = []; host = []; path = []; query = []; fragment = [] }

-- The position of a character, where these characters begin at position `i`.
unfoldable pub find_in : ℕ → ℕ → Chars → Option ℕ
find_in c i [] = none
find_in c i (x ∷ xs) = let rest = find_in c (i + 1) xs in if x == c then some i else rest

-- string::find of a character from a position on
abbrev pub find_char : ℕ → ℕ → Chars → Option ℕ
find_char c i s = find_in c i (drop i s)

unfoldable pub starts_with : Chars → Chars → Bool
starts_with [] s = true
starts_with (c ∷ cs) [] = false
starts_with (c ∷ cs) (x ∷ xs) = x == c && starts_with cs xs

-- string::find of a string
unfoldable pub find_string : Chars → ℕ → Chars → Option ℕ
unfolding starts_with
find_string pat i [] = if starts_with pat [] then some i else none
find_string pat i (x ∷ xs) =
    let rest = find_string pat (i + 1) xs in if starts_with pat (x ∷ xs) then some i else rest

-- string::substr
abbrev pub substr : ℕ → ℕ → Chars → Chars
substr pos n s = take n (drop pos s)

-- `if (r > i) r = i`, with npos behind every position
unfoldable pub at_most : ℕ → Option ℕ → ℕ
at_most i none = i
at_most i (some r) = if ltb i r then i else r

-- The loop over the protocols, up to position `i`; each round moves forward.
unfoldable pub protos : ℕ → ℕ → ℕ → Chars → Result (List Chars)
unfolding at_most find_in
protos zero i l s = timeout
protos (suc fuel) i l s =
    let r = at_most i (find_char dot l s) in
    let rest = protos fuel i (r + 1) s in
    if ltb r i then (do ps ← rest; ok (substr l (r - l) s ∷ ps)) else ok (substr l (r - l) s ∷ [])

-- The host and the path from position `i` on.
unfoldable pub authority : Option ℕ → ℕ → Chars → Url → Url
authority (some j) i s u = record u { host = substr i (j - i) s; path = drop j s }
authority none i s u = record u { host = drop i s; path = [] }

unfoldable pub with_proto : Option ℕ → Chars → Url → Result Url
unfolding protos authority find_in
with_proto (some i) s u = do
  ps ← protos (i + 1) i 0 s
  let k = i + length proto_delim
  ok (authority (find_char slash k s) k s (record u { proto = ps }))
with_proto none s u = ok (authority (find_char slash 0 s) 0 s (record u { proto = [] }))

-- Url::from_string
unfoldable pub from_string : Chars → Url → Result Url
unfolding with_proto find_string
from_string s u = with_proto (find_string proto_delim 0 s) s u

-- The protocols behind the first, each behind a dot.
unfoldable pub join_rest : List Chars → Chars
join_rest [] = []
join_rest (p ∷ ps) = dot ∷ (p ++ join_rest ps)

unfoldable pub join_proto : List Chars → Chars
unfolding join_rest
join_proto [] = []
join_proto (p ∷ ps) = (p ++ join_rest ps) ++ proto_delim

-- Url::to_string
unfoldable pub to_string : Url → Chars
unfolding join_proto
to_string u = join_proto u.proto ++ (u.host ++ u.path)
