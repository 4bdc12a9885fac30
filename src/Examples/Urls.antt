-- ===== src/Examples/Urls.antt =====
-- URLs and addresses at concrete inputs.
use libremo.SockAddr.{split_addr, format_addr}
use libremo.SockAddr.Roundtrip.{split_addr-format_addr}
use libremo.Prelude.{◌≡◌, refl, [], ◌∷◌}
use libremo.Error.{ok}
use libremo.Url.{
  Chars, Url, new_url, from_string, with_proto, find_string, starts_with, protos, find_in, at_most,
  authority, to_string,
}
use libremo.Url.Roundtrip.{to_string-from_string}

-- a.b://c/d
abbrev two_protocols : Chars
two_protocols = 0x61 ∷ 0x2E ∷ 0x62 ∷ 0x3A ∷ 0x2F ∷ 0x2F ∷ 0x63 ∷ 0x2F ∷ 0x64 ∷ []

to_string-from_string_example :
    (v : Url) × (from_string two_protocols new_url ≡ ok v) × (to_string v ≡ two_protocols)
to_string-from_string_example = to_string-from_string two_protocols new_url

parsed :
    from_string two_protocols new_url
    ≡ ok (record new_url {
      proto = (0x61 ∷ []) ∷ (0x62 ∷ []) ∷ [];
      host = 0x63 ∷ [];
      path = 0x2F ∷ 0x64 ∷ [];
    })
unfolding from_string with_proto authority find_string starts_with protos find_in at_most
parsed = refl

-- [::1]:80
split_addr-format_addr_example :
    split_addr (format_addr 80 (0x3A ∷ 0x3A ∷ 0x31 ∷ []) (0x38 ∷ 0x30 ∷ []))
    ≡ (0x3A ∷ 0x3A ∷ 0x31 ∷ [], 0x38 ∷ 0x30 ∷ [])
split_addr-format_addr_example =
    split_addr-format_addr 80 (0x3A ∷ 0x3A ∷ 0x31 ∷ []) (0x38 ∷ 0x30 ∷ []) refl refl refl
