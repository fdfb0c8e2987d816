-- ===== src/Web.antt =====
-- crates/simon-core/src/web.rs: the policy for a fetch, for the address that a name is resolved to, and for
-- the image of a container. Parsing a text as an `IpAddr` is an argument.
pub mod Policy
pub mod Ranges
mod Tests
use simon.Prelude.{
  ℕ, ◌*◌, ◌/◌, ◌%◌, Bool, true, false, not, ◌&&◌, ◌||◌, List, [], ◌∷◌, ◌++◌, String, Option, none,
  some, Result, ok, err, ◌>>=◌, ◌>>◌, guard, if◌then◌else◌, leb, ◌==◌, any, map, is_empty,
}
use simon.Prelude.Text.{str_eq, str_is_empty, chars}
use simon.Prelude.Ascii.{ascii_lower, znaki_eq, eq_ignore_ascii_case}

pub record PolaUrl : Type 0 where
  pub scheme : String
  pub host : String
  pub port : ℕ
  pub metoda : String
  pub userinfo : Bool

pub record PolitykaWeb : Type 0 where
  pub dozwolone_hosty : List String
  pub max_bajtow : ℕ

pub data BladWeb : Type 0 where
  zly_scheme zly_port zle_userinfo zla_metoda zly_host host_prywatny dns_niezgodny
        obraz_niedozwolony :
      BladWeb

-- The octets of an IPv4 address, the segments of an IPv6 address.
pub record V4 : Type 0 where
  pub a : ℕ
  pub b : ℕ
  pub c : ℕ
  pub d : ℕ

pub data IpAddr : Type 0 where
  v4 : V4 → IpAddr
  v6 : (s0 s1 s2 s3 s4 s5 s6 s7 : ℕ) → IpAddr

-- `to_canonical`: an IPv4-mapped address is the IPv4 address.
unfoldable pub to_canonical : IpAddr → IpAddr
to_canonical (v4 x) = v4 x
to_canonical (v6 s0 s1 s2 s3 s4 s5 s6 s7) =
    if s0 == 0 && (s1 == 0 && (s2 == 0 && (s3 == 0 && (s4 == 0 && s5 == 0xffff))))
    then v4 (record { a = s6 / 256; b = s6 % 256; c = s7 / 256; d = s7 % 256 })
    else v6 s0 s1 s2 s3 s4 s5 s6 s7

-- The predicates of `Ipv4Addr`, in the source's order, and the last test of the source.
unfoldable pub prywatny_v4 : V4 → Bool
prywatny_v4 x =
    (x.a == 10 || ((x.a == 172 && (leb 16 x.b && leb x.b 31)) || (x.a == 192 && x.b == 168)))
    || (x.a == 127
        || ((x.a == 169 && x.b == 254)
            || ((x.a == 0 && (x.b == 0 && (x.c == 0 && x.d == 0)))
                || ((x.a == 255 && (x.b == 255 && (x.c == 255 && x.d == 255)))
                    || ((leb 224 x.a && leb x.a 239)
                        || (((x.a == 192 && (x.b == 0 && x.c == 2))
                              || ((x.a == 198 && (x.b == 51 && x.c == 100))
                                  || (x.a == 203 && (x.b == 0 && x.c == 113))))
                            || (x.a == 100 && x.b / 64 * 64 == 64)))))))

-- The same of `Ipv6Addr`; a mask with the high bits of a segment is a multiple.
unfoldable pub prywatny_v6 : (s0 s1 s2 s3 s4 s5 s6 s7 : ℕ) → Bool
prywatny_v6 s0 s1 s2 s3 s4 s5 s6 s7 =
    let zera =
      s0 == 0 && (s1 == 0 && (s2 == 0 && (s3 == 0 && (s4 == 0 && (s5 == 0 && s6 == 0))))) in
    (zera && s7 == 1)
    || ((zera && s7 == 0)
        || (s0 / 256 * 256 == 0xff00 || (s0 / 512 * 512 == 0xfc00 || s0 / 64 * 64 == 0xfe80)))

unfoldable pub prywatny_adres : IpAddr → Bool
unfolding to_canonical
prywatny_adres ip = kanoniczny (to_canonical ip)
  where
    kanoniczny : IpAddr → Bool
    kanoniczny (v4 x) = prywatny_v4 x
    kanoniczny (v6 s0 s1 s2 s3 s4 s5 s6 s7) = prywatny_v6 s0 s1 s2 s3 s4 s5 s6 s7

-- `trim_start_matches('[')` and, from the other end, `trim_end_matches(']')`
unfoldable pub bez_poczatku : ℕ → List ℕ → List ℕ
bez_poczatku c [] = []
bez_poczatku c (x ∷ xs) = if x == c then bez_poczatku c xs else x ∷ xs

unfoldable pub bez_konca : ℕ → List ℕ → List ℕ
bez_konca c [] = []
bez_konca c (x ∷ xs) =
    let reszta = bez_konca c xs in if is_empty reszta && x == c then [] else x ∷ reszta

-- `ends_with`
abbrev pub ends_with : List ℕ → List ℕ → Bool
ends_with s [] = znaki_eq [] s
ends_with s (x ∷ xs) = if znaki_eq (x ∷ xs) s then true else ends_with s xs

-- `wzorzec.to_ascii_lowercase().trim_start_matches('.')`
abbrev pub bez_kropki : String → List ℕ
bez_kropki wzorzec = bez_poczatku 46 (map ascii_lower (chars wzorzec))

abbrev pub pasuje : List ℕ → String → Bool
pasuje h wzorzec = znaki_eq h (bez_kropki wzorzec) || ends_with (46 ∷ bez_kropki wzorzec) h

unfoldable pub host_dozwolony : String → List String → Bool
unfolding bez_poczatku ascii_lower
host_dozwolony host lista = any (pasuje (map ascii_lower (chars host))) lista

module _ (parse : List ℕ → Option IpAddr) where
  unfoldable pub prywatny_ip : String → Bool
  unfolding bez_poczatku bez_konca
  prywatny_ip s = elim (parse (bez_konca 93 (bez_poczatku 91 (chars s)))) [
    | some ip ↦ prywatny_adres ip
    | none ↦ false
  ]

  unfoldable pub dozwolony_web : PolaUrl → PolitykaWeb → Result BladWeb (Unit {0})
  dozwolony_web p pol = do
    guard (str_eq p.scheme "https") zly_scheme
    guard (p.port == 443) zly_port
    guard (not p.userinfo) zle_userinfo
    guard (eq_ignore_ascii_case p.metoda "GET") zla_metoda
    guard (not (prywatny_ip p.host)) host_prywatny
    guard (host_dozwolony p.host pol.dozwolone_hosty) zly_host
    ok tt

  unfoldable pub dozwolony_dns : String → String → Result BladWeb (Unit {0})
  dozwolony_dns resolved_ip connect_ip = do
    guard (str_eq resolved_ip connect_ip) dns_niezgodny
    guard (not (prywatny_ip connect_ip)) host_prywatny
    ok tt

unfoldable pub dozwolony_code : String → List String → Result BladWeb (Unit {0})
dozwolony_code obraz_digest dozwolone_obrazy = do
  guard (not (str_is_empty obraz_digest) && any (λ o. str_eq o obraz_digest) dozwolone_obrazy)
      obraz_niedozwolony
  ok tt
