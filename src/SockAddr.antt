-- ===== src/SockAddr.antt =====
-- SockAddr of src/l0_system/socket.h and socket.cpp: the text of an address. A string is its characters.
pub mod Roundtrip
use libremo.Prelude.{
  ℕ, suc, ◌+◌, ◌-◌, Bool, true, false, ◌&&◌, List, [], ◌∷◌, ◌++◌, ◌==◌, ltb, if◌then◌else◌, Option,
  none, some, take, drop, length, has,
}
use libremo.Error.{
  Result, ok, error, ◌>>=◌, throw_if, err_getaddrinfo_failed, err_socket_buffer_too_small,
}
use libremo.Url.{Chars, find_in, starts_with}

abbrev pub colon : ℕ
colon = 0x3A

-- "]:"
abbrev pub bracket_colon : Chars
bracket_colon = 0x5D ∷ 0x3A ∷ []

pub or_else : Option ℕ → Option ℕ → Option ℕ
or_else (some j) o = some j
or_else none o = o

-- string::rfind, where these characters begin at position `i`
unfoldable pub rfind : Chars → ℕ → Chars → Option ℕ
unfolding or_else starts_with
rfind pat i [] = if starts_with pat [] then some i else none
rfind pat i (x ∷ xs) =
    or_else (rfind pat (i + 1) xs) (if starts_with pat (x ∷ xs) then some i else none)

abbrev pub same_position : Option ℕ → ℕ → Bool
same_position none d = false
same_position (some f) d = f == d

-- "host:port" with one colon, or a host alone
unfoldable pub split_colon : Option ℕ → Chars → Chars × Chars
unfolding find_in
split_colon none s = (s, [])
split_colon (some d) s =
    if same_position (find_in colon 0 s) d then (take d s, drop (d + 1) s) else (s, [])

-- "[host]:port"; `delim-1` wraps at 0, and the host goes to the end then.
unfoldable pub split_bracket : Option ℕ → Chars → Chars × Chars
unfolding split_colon rfind
split_bracket none s = split_colon (rfind (colon ∷ []) 0 s) s
split_bracket (some d) s = (if d == 0 then drop 1 s else take (d - 1) (drop 1 s), drop (d + 2) s)

-- The host and the service of an address.
unfoldable pub split_addr : Chars → Chars × Chars
unfolding split_bracket
split_addr s = split_bracket (rfind bracket_colon 0 s) s

-- AddrFamily
pub data AddrFamily : Type 0 where
  unspec : AddrFamily
  ipv4 : AddrFamily
  ipv6 : AddrFamily
  invalid : AddrFamily

-- The wildcard address in place of an empty host.
unfoldable pub any_host : AddrFamily → Chars → Chars
any_host family (c ∷ cs) = c ∷ cs
any_host ipv4 [] = 0x30 ∷ 0x2E ∷ 0x30 ∷ 0x2E ∷ 0x30 ∷ 0x2E ∷ 0x30 ∷ []
any_host ipv6 [] = 0x3A ∷ 0x3A ∷ []
any_host unspec [] = []
any_host invalid [] = []

-- `sizeof(m_addr)`
abbrev pub storage_size : ℕ
storage_size = 128

pub stored : Option (List ℕ) → Result (List ℕ)
stored none = error err_getaddrinfo_failed
stored (some addr) = do
  _ ← throw_if (ltb storage_size (length addr)) err_socket_buffer_too_small
  ok addr

-- SockAddr::from_string, with the family of `localhost`; getaddrinfo() resolves a host and a service.
unfoldable pub addr_of_string :
    (Chars → Chars → Option (List ℕ)) → AddrFamily → Chars → Result (List ℕ)
unfolding stored any_host split_addr
addr_of_string getaddrinfo family s =
    let (host, service) = split_addr s in stored (getaddrinfo (any_host family host) service)

-- The formatting in SockAddr::to_string, for what getnameinfo() returned
unfoldable pub format_addr : ℕ → Chars → Chars → Chars
format_addr port host service =
    if port == 0
    then host
    else (if has colon host
        then 0x5B ∷ (host ++ (bracket_colon ++ service))
        else host ++ (colon ∷ service))
