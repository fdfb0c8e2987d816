-- ===== src/Web/Tests.antt =====
-- Tests and witnesses for crates/simon-core/src/web.rs.
use simon.Prelude.{ℕ, ◌≡◌, ◌↔◌, refl, true, false, List, [], ◌∷◌, Option, none, ok}
use simon.Prelude.Ascii.{ascii_lower, eq_ignore_ascii_case}
use simon.Web.{
  IpAddr, PolaUrl, PolitykaWeb, dozwolony_web, host_dozwolony, bez_poczatku, bez_konca, prywatny_ip,
}
use simon.Web.Policy.{Dozwolony, dozwolony_web_iff}

abbrev bez_adresow : List ℕ → Option IpAddr
bez_adresow s = none

abbrev url : PolaUrl
url = record {
  scheme = "https";
  host = "API.example.com";
  port = 443;
  metoda = "get";
  userinfo = false;
}

abbrev polityka : PolitykaWeb
polityka = record { dozwolone_hosty = ".example.com" ∷ []; max_bajtow = 1000 }

dozwolony_przyklad : dozwolony_web bez_adresow url polityka ≡ ok tt
unfolding dozwolony_web prywatny_ip host_dozwolony bez_poczatku bez_konca ascii_lower
    eq_ignore_ascii_case
dozwolony_przyklad = refl

-- An empty pattern lets every name pass that ends with a dot.
pusty_wzorzec : host_dozwolony "evil.com." ("" ∷ []) ≡ true
unfolding host_dozwolony bez_poczatku ascii_lower
pusty_wzorzec = refl

dozwolony_web_iff_example :
    (dozwolony_web bez_adresow url polityka ≡ ok tt) ↔ Dozwolony bez_adresow url polityka
dozwolony_web_iff_example = dozwolony_web_iff bez_adresow url polityka
