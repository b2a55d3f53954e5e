-- ===== src/Tests/Urls.antt =====
-- Addresses, URLs and allowlists.
use thumbrella.Base.{
  any, ◌≡◌, refl, ◌↔◌, true, false, not, some, [], ◌∷◌, ascii, strip_prefix, bytes_eq, lower, drop,
  arith,
}
use thumbrella.UrlSafety.{
  Ipv4Addr, Url, domain, is_safe_ipv4, is_safe_ipv6, contains, is_safe_url, url_host_allowed,
}
use thumbrella.UrlSafety.Blocks.{
  in_block, refused, mapped, is_safe_ipv4-blocks, is_safe_ipv6-mapped,
}
use thumbrella.UrlSafety.Hosts.{Reachable, is_safe_url-Reachable}
use thumbrella.UrlSafety.Allowlist.{Allowed, url_host_allowed-Allowed}

abbrev loopback : Ipv4Addr
loopback = record { a = 127; b = 0; c = 0; d = 1 }

abbrev cdn : Url
cdn = record {
  scheme = ascii "https";
  host = some (domain (ascii "CDN.acme.com"));
  host_str = some (ascii "CDN.acme.com");
}

loopback_refused : is_safe_ipv4 loopback ≡ false
unfolding is_safe_ipv4
loopback_refused = refl

is_safe_ipv4-blocks_example : is_safe_ipv4 loopback ≡ not (any (in_block loopback) refused)
is_safe_ipv4-blocks_example =
    is_safe_ipv4-blocks loopback
      (record { a_lt = omega arith; b_lt = omega arith; c_lt = omega arith; d_lt = omega arith })

is_safe_ipv6-mapped_example : is_safe_ipv6 (mapped loopback) ≡ true
is_safe_ipv6-mapped_example = is_safe_ipv6-mapped loopback

cdn_passes : is_safe_url (λ raw. some cdn) (ascii "https://CDN.acme.com/a.jpg") false 64 ≡ true
unfolding is_safe_url contains bytes_eq lower
cdn_passes = refl

is_safe_url-Reachable_example :
    (is_safe_url (λ raw. some cdn) (ascii "https://CDN.acme.com/a.jpg") false 64 ≡ true)
    ↔ Reachable (λ raw. some cdn) (ascii "https://CDN.acme.com/a.jpg") 64
is_safe_url-Reachable_example =
    is_safe_url-Reachable (λ raw. some cdn) (ascii "https://CDN.acme.com/a.jpg") 64

subdomain_allowed :
    url_host_allowed
      (λ raw. some cdn)
      (ascii "https://CDN.acme.com/a.jpg")
      (ascii "example.com" ∷ ascii "*.Acme.com" ∷ [])
    ≡ true
unfolding url_host_allowed strip_prefix bytes_eq lower drop
subdomain_allowed = refl

url_host_allowed-Allowed_example :
    (url_host_allowed
        (λ raw. some cdn)
        (ascii "https://CDN.acme.com/a.jpg")
        (ascii "example.com" ∷ ascii "*.Acme.com" ∷ [])
      ≡ true)
    ↔ Allowed
        (λ raw. some cdn)
        (ascii "https://CDN.acme.com/a.jpg")
        (ascii "example.com" ∷ ascii "*.Acme.com" ∷ [])
url_host_allowed-Allowed_example =
    url_host_allowed-Allowed (λ raw. some cdn) (ascii "https://CDN.acme.com/a.jpg")
      (ascii "example.com") (ascii "*.Acme.com" ∷ [])
